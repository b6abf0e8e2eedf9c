-- ===== src/Base/Effects.antt =====
-- Methods that change an object and may raise. What was written before a raise stays written, so
-- the state comes back beside the exception too.
use Prim.Native.String.{String}
use mathlib.Core.Path.{◌≡◌, refl}
use mathlib.Core.Bool.{Bool, true, false}

-- `errors.py`: a `ToolFailure` carries a code, a category and `retryable`; its message and details
-- are text for the agent. The other exceptions that the modelled code raises stand beside it.
pub data Exception : Type 0 where
  tool_failure : String → String → Bool → Exception
  runtime_error : String → Exception
  value_error : String → Exception
  file_exists_error : String → Exception
  os_error : Exception

-- A pure function that may raise.
pub data Result {ℓ} (A : Type ℓ) : Type ℓ where
  ok : A → Result A
  raised : Exception → Result A

abbrev pub Exec {ℓ} : Type ℓ → Type ℓ → Type ℓ
Exec S A = S → Result A × S

module _ {ℓ κ} {A : Type ℓ} {B : Type κ} where
  infixl 5 ◌>>=◌
  abbrev pub ◌>>=◌ : Result A → (A → Result B) → Result B
  ok a >>= f = f a
  raised e >>= f = raised e

abbrev pub ◌>>◌ {ℓ} : {B : Type ℓ} → Result (Unit {0}) → Result B → Result B
◌>>◌ m k = m >>= λ _. k

abbrev pub guard : Bool → Exception → Result (Unit {0})
guard true e = ok tt
guard false e = raised e

-- `pure`, `raise` and sequencing for `Exec`.
module _ {ℓ} {S A : Type ℓ} where
  abbrev pub pure : A → Exec S A
  pure a s = (ok a, s)

  abbrev pub raise : Exception → Exec S A
  raise e s = (raised e, s)

module _ {ℓ} {S A B : Type ℓ} where
  abbrev pub continue : Result A → (A → Exec S B) → Exec S B
  continue (ok a) f s = f a s
  continue (raised e) f s = (raised e, s)

  abbrev pub bind : Exec S A → (A → Exec S B) → Exec S B
  bind m f s = continue (m s).0 f (m s).1

-- What holds of the state after each step of a sequence.
module _ {ℓ κ} {S A B : Type ℓ} (P : S → Type κ) where
  pub continue_state :
      (r : Result A) (f : A → Exec S B) (s : S)
      → P s
      → ((a : A) → r ≡ ok a → P (f a s).1)
      → P (continue r f s).1
  continue_state (ok a) f s p q = q a refl
  continue_state (raised e) f s p q = p

  pub bind_state :
      (m : Exec S A) (f : A → Exec S B) (s : S)
      → P (m s).1
      → ((a : A) → (m s).0 ≡ ok a → P (f a (m s).1).1)
      → P (bind m f s).1
  bind_state m f s p q = continue_state (m s).0 f (m s).1 p q

-- Where a sequence returns, its first step returned some value, from which the rest returned.
module _ {ℓ κ} {V : Type ℓ} {W : Type κ} (rest : V → Result W) where
  pub sequence_ok :
      (first : Result V) {w : W}
      → (first >>= rest) ≡ ok w
      → (v : V) × (first ≡ ok v) × (rest v ≡ ok w)
  sequence_ok (raised e) returned = absurd (cc)
  sequence_ok (ok v) returned = (v, refl, returned)
