-- ===== src/Policy.antt =====
-- coding_tools_mcp/policy.py: the authority that the runtime starts with.
pub mod Authority
mod Tests
use devmcp_runtime.Base.{
  ℕ, Bool, true, false, not, Option, none, some, List, [], ◌∷◌, if◌then◌else◌, Exception,
  value_error, Result, ok, raised, ◌>>=◌,
}
use devmcp_runtime.Base.Text.{codes, text_eq, text_in, strip, lower}

abbrev pub plan : List ℕ
plan = codes "plan"

abbrev pub build : List ℕ
build = codes "build"

abbrev pub read_only : List ℕ
read_only = codes "read-only"

abbrev pub full_access : List ℕ
full_access = codes "full-access"

-- `EXECUTION_MODES`, `DEFAULT_EXECUTION_MODE`
abbrev pub execution_modes : List (List ℕ)
execution_modes = plan ∷ build ∷ []

abbrev pub default_execution_mode : List ℕ
default_execution_mode = build

-- `str(mode).strip().lower()`
unfoldable pub canonical : List ℕ → List ℕ
canonical mode = lower (strip mode)

-- `mode is not None and str(mode).strip()`
unfoldable pub given : Option (List ℕ) → Bool
given none = false
given (some mode) = not (text_eq (strip mode) [])

unfoldable pub effective_access : List ℕ → Result (List ℕ)
effective_access execution_mode =
    let mode = canonical execution_mode in
    if text_eq mode plan
    then ok read_only
    else if text_eq mode build
    then ok full_access
    else raised (value_error "unknown execution_mode")

-- `mode, effective_access(mode)`
abbrev with_access : List ℕ → Result (List ℕ × List ℕ)
with_access mode = effective_access mode >>= λ access. ok (mode, access)

-- The branch of a non-blank `execution_mode`.
unfoldable pub resolve_given : List ℕ → Result (List ℕ × List ℕ)
resolve_given execution_mode =
    let mode = canonical execution_mode in
    if text_in mode execution_modes
    then with_access mode
    else raised (value_error "unknown execution_mode")

-- The branch of a non-blank legacy `permission_mode`: the dictionary `mapping`.
unfoldable pub resolve_legacy : List ℕ → Result (List ℕ × List ℕ)
resolve_legacy permission_mode =
    let perm = canonical permission_mode in
    if text_eq perm (codes "safe")
    then ok (plan, read_only)
    else if text_eq perm (codes "trusted")
    then ok (build, full_access)
    else if text_eq perm (codes "dangerous")
    then ok (build, full_access)
    else raised (value_error "unknown legacy permission_mode")

-- `str(mode)` of the optional arguments; only read where it is given.
abbrev text_of : Option (List ℕ) → List ℕ
text_of none = []
text_of (some mode) = mode

unfoldable pub resolve_execution_mode : Option (List ℕ) → Option (List ℕ) → Result (List ℕ × List ℕ)
resolve_execution_mode execution_mode permission_mode =
    if given execution_mode
    then resolve_given (text_of execution_mode)
    else if given permission_mode
    then resolve_legacy (text_of permission_mode)
    else with_access default_execution_mode
