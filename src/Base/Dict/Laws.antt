-- ===== src/Base/Dict/Laws.antt =====
-- The laws of a dict: reads after writes, distinct keys, and what holds of every entry.
use Prim.Native.Nat.{◌+◌}
use Prim.Native.String.{String}
use mathlib.Core.Path.{◌≡◌, refl, subst₂}
use mathlib.Core.Option.{none, some}
use mathlib.Core.List.{[], ◌∷◌}
use native.Mathlib.Omega.{arith}
use text.Mathlib.TextEquality.{eq_iff}
use mathlib.Core.Logic.{◌⊎◌, inl, inr}
use devmcp_runtime.Base.Tests.{str_eq, if◌then◌else◌}
use devmcp_runtime.Base.Lists.{length}
use devmcp_runtime.Base.Dict.{Dict, get, put, pop, has, Distinct, Every}

module _ {ℓ} {V : Type ℓ} where
  pub get-put :
      (k j : String) (v : V) (d : Dict V)
      → get j (put k v d) ≡ (if str_eq k j then some v else get j d)
  unfolding get put
  get-put k j v [] = refl
  get-put k j v ((i, w) ∷ d) = ground (arith, eq_iff k j, eq_iff i k, eq_iff i j, get-put k j v d)

  pub get-pop :
      (k j : String) (d : Dict V)
      → Distinct d
      → get j (pop k d) ≡ (if str_eq k j then none else get j d)
  unfolding get pop
  get-pop k j [] h = ground arith
  get-pop k j ((i, w) ∷ d) h = ground (arith, eq_iff k j, eq_iff i k, eq_iff i j, get-pop k j d h.1)

  pub put-Distinct : (k : String) (v : V) (d : Dict V) → Distinct d → Distinct (put k v d)
  unfolding get put
  put-Distinct k v [] h = ground arith
  put-Distinct k v ((i, w) ∷ d) h =
      ground (arith, eq_iff i k, eq_iff k i, get-put k i v d, put-Distinct k v d h.1)

  pub pop-Distinct : (k : String) (d : Dict V) → Distinct d → Distinct (pop k d)
  unfolding get pop
  pop-Distinct k [] h = tt
  pop-Distinct k ((i, w) ∷ d) h =
      ground (arith, eq_iff i k, eq_iff k i, get-pop k i d h.1, pop-Distinct k d h.1)

  pub length-put :
      (k : String) (v : V) (d : Dict V)
      → length (put k v d) ≡ (if has k d then length d else length d + 1)
  unfolding get put
  length-put k v [] = refl
  length-put k v ((i, w) ∷ d) = ground (arith, eq_iff i k, length-put k v d)

  pub length-pop :
      (k : String) (d : Dict V)
      → length d ≡ (if has k d then length (pop k d) + 1 else length (pop k d))
  unfolding get pop
  length-pop k [] = refl
  length-pop k ((i, w) ∷ d) = ground (arith, eq_iff i k, length-pop k d)

module _ {ℓ} {V : Type ℓ} where
  -- What is read is the first entry or stands further down.
  pub get_cases :
      (k i : String) (w v : V) (d : Dict V)
      → get k ((i, w) ∷ d) ≡ some v
      → ((i ≡ k) × (w ≡ v)) ⊎ (get k d ≡ some v)
  unfolding get
  get_cases k i w v d e = ground (arith, eq_iff i k)

module _ {ℓ κ} {V : Type ℓ} (P : String → V → Type κ) where
  pub Every-get : (k : String) (d : Dict V) (v : V) → Every P d → get k d ≡ some v → P k v
  unfolding get
  Every-get k [] v h e = absurd (ground arith)
  Every-get k ((i, w) ∷ d) v h e = elim (get_cases k i w v d e) [
    | inl found ↦ subst₂ P found.0 found.1 h.0
    | inr later ↦ Every-get k d v h.1 later
  ]

  pub Every-put : (k : String) (v : V) (d : Dict V) → Every P d → P k v → Every P (put k v d)
  unfolding put
  Every-put k v [] h p = (p, tt)
  Every-put k v ((i, w) ∷ d) h p = ground (arith, eq_iff i k, Every-put k v d h.1 p)

  pub Every-pop : (k : String) (d : Dict V) → Every P d → Every P (pop k d)
  unfolding pop
  Every-pop k [] h = tt
  Every-pop k ((i, w) ∷ d) h = ground (arith, eq_iff i k, Every-pop k d h.1)
