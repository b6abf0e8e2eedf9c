-- ===== src/Paths.antt =====
-- coding_tools_mcp/path_security.py: which paths are refused as sensitive. A path is the list of
-- its parts, and a part the list of its code points.
pub mod Inherited
mod Tests
use devmcp_runtime.Base.Text.{codes, lower, starts_with, text_in, text_eq, ends_with}
use devmcp_runtime.Base.{
  ℕ, String, Bool, not, ◌&&◌, ◌||◌, Option, none, some, List, [], ◌∷◌, ◌++◌, ◌==◌, if◌then◌else◌,
  keep_if, zero, suc, ◌+◌, ◌-◌, ◌*◌, ◌/◌, ◌%◌, ◌≤◌, ◌<◌, min, max, ◌≡◌, refl, sym, ap, ◌∙◌, subst,
  subst₂, fun_ext, ◌≢◌, ◌↔◌, ◌⊎◌, inl, inr, true, false, map, arith, eq_iff, ltb, leb, str_eq,
  ltb→lt, lt→ltb, leb→le, str_eq_self, str_eq_ne, Bool-cases, Option-cases, if_both, length, take,
  drop, any, all, All, length-append, take-append-drop, length-take, length-drop, length-keep_if,
  Exception, tool_failure, runtime_error, value_error, file_exists_error, os_error, Result, ok,
  raised, Exec, ◌>>=◌, ◌>>◌, guard, pure, raise, continue, bind, continue_state, bind_state,
  sequence_ok,
}

abbrev pub Part : Type 0
Part = List ℕ

abbrev all_codes : List String → List Part
all_codes [] = []
all_codes (s ∷ ss) = codes s ∷ all_codes ss

abbrev pub sensitive_dir_names : List Part
sensitive_dir_names =
    all_codes
      (".git" ∷ ".ssh" ∷ ".aws" ∷ ".gnupg" ∷ ".kube" ∷ ".azure" ∷ ".docker" ∷ ".terraform.d" ∷ [])

abbrev pub sensitive_file_names : List Part
sensitive_file_names = all_codes (
    ".npmrc" ∷ ".pypirc" ∷ ".netrc" ∷ "_netrc" ∷ ".git-credentials" ∷ "credentials.json"
    ∷ "application_default_credentials.json" ∷ "credentials.tfrc.json" ∷ [])

-- The second parts; the first is `.config` in each.
abbrev pub sensitive_config_subtrees : List Part
sensitive_config_subtrees = all_codes ("gcloud" ∷ "gh" ∷ "aws" ∷ "azure" ∷ [])

-- `part not in {"", "/", "."}`
unfoldable pub is_name : Part → Bool
is_name p = not (text_in p (all_codes ("" ∷ "/" ∷ "." ∷ [])))

-- The reasons, by the text that goes before the part.
pub data Reason : Type 0 where
  directory : Part → Reason
  environment : Part → Reason
  subtree : Part → Part → Reason
  credential_file : Part → Reason
  key_file : Part → Reason

-- The lowered parts, without those that are no names.
unfoldable pub lowered : List Part → List Part
lowered [] = []
lowered (p ∷ ps) = let rest = lowered ps in if is_name p then lower p ∷ rest else rest

-- The body of the loop over the parts.
unfoldable pub part_reason : Part → Option Reason
part_reason p =
    if text_in p sensitive_dir_names
    then some (directory p)
    else if text_eq p (codes ".env") || starts_with p (codes ".env.")
    then (if text_eq p (codes ".env.example") then none else some (environment p))
    else none

unfoldable pub either_reason : Option Reason → Option Reason → Option Reason
either_reason (some a) other = some a
either_reason none other = other

unfoldable pub first_part : List Part → Option Reason
first_part [] = none
first_part (p ∷ ps) = either_reason (part_reason p) (first_part ps)

unfoldable pub pair_reason : Part → Part → Option Reason
pair_reason p q =
    if text_eq p (codes ".config") && text_in q sensitive_config_subtrees
    then some (subtree p q)
    else none

-- The loop over the neighbours.
unfoldable pub first_subtree : List Part → Option Reason
first_subtree [] = none
first_subtree (p ∷ []) = none
first_subtree (p ∷ q ∷ ps) = either_reason (pair_reason p q) (first_subtree (q ∷ ps))

unfoldable pub name_reason : Part → Option Reason
name_reason name =
    if text_in name sensitive_file_names
    then some (credential_file name)
    else if ends_with name (codes ".pem")
        || ends_with name (codes ".key")
        || ends_with name (codes ".p12")
        || ends_with name (codes ".pfx")
    then some (key_file name)
    else none

unfoldable pub last_reason : List Part → Option Reason
last_reason [] = none
last_reason (p ∷ []) = name_reason p
last_reason (p ∷ q ∷ ps) = last_reason (q ∷ ps)

unfoldable pub sensitive_path_reason : List Part → Option Reason
sensitive_path_reason parts =
    let names = lowered parts in
    either_reason (first_part names) (either_reason (first_subtree names) (last_reason names))

-- `raw_path.replace("\\", "/")`
unfoldable pub forward_slashes : List ℕ → List ℕ
forward_slashes [] = []
forward_slashes (c ∷ s) = (if c == 92 then 47 else c) ∷ forward_slashes s

-- `s.split("/")`
unfoldable pub split_slash : List ℕ → List Part
split_slash [] = [] ∷ []
split_slash (c ∷ s) =
    let rest = split_slash s in
    if c == 47 then [] ∷ rest else elim rest [ [] ↦ (c ∷ []) ∷ [] | p ∷ ps ↦ (c ∷ p) ∷ ps ]

-- The root of `PurePosixPath(s).parts`: two slashes are one of their own, one or three are not.
unfoldable pub root_parts : List ℕ → List Part
root_parts s =
    if starts_with s (codes "//") && not (starts_with s (codes "///"))
    then codes "//" ∷ []
    else if starts_with s (codes "/")
    then codes "/" ∷ []
    else []

unfoldable pub normalize_path_parts : List ℕ → List Part
normalize_path_parts raw_path =
    let s = forward_slashes raw_path in keep_if is_name (root_parts s ++ split_slash s)

unfoldable pub sensitive_raw_path_reason : List ℕ → Option Reason
sensitive_raw_path_reason raw_path = sensitive_path_reason (normalize_path_parts raw_path)
