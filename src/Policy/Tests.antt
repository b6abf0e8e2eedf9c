-- ===== src/Policy/Tests.antt =====
-- The resolver at concrete inputs.
use devmcp_runtime.Base.Text.{codes, strip, lower, text_eq, text_in}
use devmcp_runtime.Policy.{
  resolve_execution_mode, resolve_legacy, build, plan, resolve_given, given, read_only, full_access,
  effective_access, canonical,
}
use devmcp_runtime.Policy.Authority.{
  IsAuthority, resolve_idempotent, AsksBuild, resolve-IsAuthority, resolve-build_iff,
}
use devmcp_runtime.Base.{ℕ, ◌≡◌, refl, ◌↔◌, Option, none, some, List, ok}

abbrev shouted : Option (List ℕ)
shouted = some (codes "  Build ")

abbrev legacy : Option (List ℕ)
legacy = some (codes "safe")

shouted_builds : resolve_execution_mode shouted legacy ≡ ok (build, full_access)
unfolding resolve_execution_mode resolve_given given effective_access canonical strip lower text_in
shouted_builds = refl

legacy_plans : resolve_execution_mode none legacy ≡ ok (plan, read_only)
unfolding resolve_execution_mode resolve_legacy given canonical strip lower text_eq
legacy_plans = refl

resolve-IsAuthority_example : IsAuthority (build, full_access)
resolve-IsAuthority_example = resolve-IsAuthority shouted legacy shouted_builds

resolve-build_iff_example :
    (resolve_execution_mode none legacy ≡ ok (build, full_access)) ↔ AsksBuild none legacy
resolve-build_iff_example = resolve-build_iff none legacy

resolve_idempotent_example : resolve_execution_mode (some plan) shouted ≡ ok (plan, read_only)
resolve_idempotent_example = resolve_idempotent none legacy shouted legacy_plans
