-- ===== src/Session/Contexts/Laws.antt =====
-- What a sweep of the registry and a write to a registered context do to the dict.
use devmcp_runtime.Base.{
  ℕ, ◌≤◌, String, ◌≡◌, refl, Bool, true, Option, none, some, List, [], ◌∷◌, arith, eq_iff,
  if◌then◌else◌, length, All,
}
use devmcp_runtime.Base.Dict.{Dict, get, Distinct, Every}
use devmcp_runtime.Session.Contexts.{
  Context, Ref, Registry, notify_expired, stale, sweep, prune, held,
}

-- What is left of an entry after a sweep.
abbrev pub swept : (Context → Bool) → Option Context → Option Context
swept gone none = none
swept gone (some c) = if gone c then none else some c

module _ (gone : Context → Bool) where
  pub get-sweep :
      (k : String) (d : Dict Context) → Distinct d → get k (sweep gone d).0 ≡ swept gone (get k d)
  unfolding get sweep
  get-sweep k [] h = refl
  get-sweep k ((i, c) ∷ d) h = ground (arith, eq_iff i k, get-sweep k d h.1)

  pub sweep-Distinct : (d : Dict Context) → Distinct d → Distinct (sweep gone d).0
  unfolding get sweep
  sweep-Distinct [] h = tt
  sweep-Distinct ((i, c) ∷ d) h = ground (arith, get-sweep i d h.1, sweep-Distinct d h.1)

  pub sweep-Every {κ} :
      (P : String → Context → Type κ) (d : Dict Context) → Every P d → Every P (sweep gone d).0
  unfolding sweep
  sweep-Every P [] h = tt
  sweep-Every P ((i, c) ∷ d) h = ground (arith, sweep-Every P d h.1)

  pub length-sweep : (d : Dict Context) → length (sweep gone d).0 ≤ length d
  unfolding sweep
  length-sweep [] = omega arith
  length-sweep ((i, c) ∷ d) = ground (arith, length-sweep d)

  -- Everything popped was to go.
  pub sweep-popped : (d : Dict Context) → All (λ c. gone c ≡ true) (sweep gone d).1
  unfolding sweep
  sweep-popped [] = tt
  sweep-popped ((i, c) ∷ d) = ground (arith, sweep-popped d)

pub contexts-notify_expired :
    (l : List Context) (s : Registry) → (notify_expired l s).contexts ≡ s.contexts
unfolding notify_expired
contexts-notify_expired l s = ground arith

pub contexts-prune :
    (now : ℕ) (s : Registry)
    → (prune now s).contexts ≡ (sweep (stale s.ttl_seconds now) s.contexts).0
unfolding prune
contexts-prune now s = simp contexts-notify_expired

pub get-prune :
    (now : ℕ) (k : String) (s : Registry)
    → Distinct s.contexts
    → get k (prune now s).contexts ≡ swept (stale s.ttl_seconds now) (get k s.contexts)
get-prune now k s h = rw contexts-prune (get-sweep (stale s.ttl_seconds now) k s.contexts h)

-- A held context stands in the dict under its reference's name.
pub get-held :
    (r : Ref) (s : Registry) (c : Context)
    → held r s ≡ some c
    → get r.context_id s.contexts ≡ some c
unfolding held
get-held r s c h = ground arith
