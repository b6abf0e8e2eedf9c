-- ===== src/Policy/Authority.antt =====
-- What authority a resolved mode carries (coding_tools_mcp/policy.py).
use devmcp_runtime.Base.{
  ℕ, ◌≡◌, refl, ◌⊎◌, inl, inr, ◌↔◌, true, false, Option, some, List, arith, ok, if◌then◌else◌,
  raised, value_error,
}
use devmcp_runtime.Base.Text.{codes, text_eq, text_in, text_eq_iff, strip, lower}
use devmcp_runtime.Policy.{
  plan, build, read_only, full_access, canonical, effective_access, given, resolve_given,
  resolve_legacy, text_of, resolve_execution_mode,
}

-- The two outcomes that a resolution can have.
abbrev pub IsAuthority : List ℕ × List ℕ → Type 0
IsAuthority r = (r ≡ (plan, read_only)) ⊎ (r ≡ (build, full_access))

plan_access : effective_access plan ≡ ok read_only
unfolding effective_access canonical strip lower text_eq
plan_access = refl

build_access : effective_access build ≡ ok full_access
unfolding effective_access canonical strip lower text_eq
build_access = refl

-- The branch of a given mode, by the value of the stripped lower-case text.
resolve_given_cases :
    (e : List ℕ)
    → resolve_given e ≡ (
        if text_eq (canonical e) plan
        then ok (plan, read_only)
        else if text_eq (canonical e) build
        then ok (build, full_access)
        else raised (value_error "unknown execution_mode"))
unfolding resolve_given text_in
resolve_given_cases e = ground (
  arith,
  text_eq_iff (canonical e) plan,
  text_eq_iff (canonical e) build,
  plan_access,
  build_access,
)

-- Whatever the two arguments are, a resolution that succeeds is read-only PLAN or full-access
-- BUILD: no other pair of a mode and an access comes out.
pub resolve-IsAuthority :
    (e p : Option (List ℕ)) {r : List ℕ × List ℕ}
    → resolve_execution_mode e p ≡ ok r
    → IsAuthority r
unfolding resolve_execution_mode resolve_legacy
resolve-IsAuthority e p h = ground (arith, resolve_given_cases (text_of e), build_access)

-- The inputs that ask for full access.
abbrev pub AsksBuild : Option (List ℕ) → Option (List ℕ) → Type 0
AsksBuild e p =
    ((given e ≡ true) × (canonical (text_of e) ≡ build))
    ⊎ ((given e ≡ false) × (given p ≡ false))
    ⊎ ((given e ≡ false)
        × (given p ≡ true)
        × ((canonical (text_of p) ≡ codes "trusted") ⊎ (canonical (text_of p) ≡ codes "dangerous")))

-- Full access is granted exactly when the execution mode, stripped and in lower case, is "build";
-- or it is absent or blank and the legacy mode is "trusted" or "dangerous", absent or blank.
pub resolve-build_iff :
    (e p : Option (List ℕ)) → (resolve_execution_mode e p ≡ ok (build, full_access)) ↔ AsksBuild e p
unfolding resolve_execution_mode resolve_legacy
resolve-build_iff e p = ground (
  arith,
  resolve_given_cases (text_of e),
  build_access,
  text_eq_iff (canonical (text_of e)) plan,
  text_eq_iff (canonical (text_of e)) build,
  text_eq_iff (canonical (text_of p)) (codes "safe"),
  text_eq_iff (canonical (text_of p)) (codes "trusted"),
  text_eq_iff (canonical (text_of p)) (codes "dangerous"),
)

plan_again : (q : Option (List ℕ)) → resolve_execution_mode (some plan) q ≡ ok (plan, read_only)
unfolding resolve_execution_mode resolve_given given effective_access canonical strip lower text_in
plan_again q = refl

build_again :
    (q : Option (List ℕ)) → resolve_execution_mode (some build) q ≡ ok (build, full_access)
unfolding resolve_execution_mode resolve_given given effective_access canonical strip lower text_in
build_again q = refl

-- Resolving the mode that came out of a resolution, whatever legacy mode stands beside it, gives
-- the same mode and the same access again.
pub resolve_idempotent :
    (e p q : Option (List ℕ)) {r : List ℕ × List ℕ}
    → resolve_execution_mode e p ≡ ok r
    → resolve_execution_mode (some r.0) q ≡ ok r
resolve_idempotent e p q h = elim (resolve-IsAuthority e p h) [
  | inl a ↦ rw a (plan_again q)
  | inr b ↦ rw b (build_again q)
]
