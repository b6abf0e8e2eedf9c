-- ===== src/Paths/Tests.antt =====
-- Paths of coding_tools_mcp/path_security.py.
use devmcp_runtime.Base.Text.{codes, starts_with, text_in, text_eq, lower, ends_with}
use devmcp_runtime.Paths.{
  sensitive_raw_path_reason, either_reason, normalize_path_parts, first_part, sensitive_path_reason,
  forward_slashes, part_reason, lowered, split_slash, root_parts, is_name, directory, first_subtree,
  pair_reason, last_reason, name_reason,
}
use devmcp_runtime.Paths.Inherited.{refused, sensitive_path_reason-inherited, protects}
use devmcp_runtime.Base.{◌≡◌, refl, true, none, some, [], ◌∷◌, ◌++◌}

git_run : sensitive_raw_path_reason (codes "a\\.GIT/config") ≡ some (directory (codes ".git"))
unfolding sensitive_raw_path_reason normalize_path_parts forward_slashes split_slash root_parts
    starts_with sensitive_path_reason either_reason first_part part_reason lowered is_name text_in
    text_eq lower
git_run = refl

env_run : sensitive_raw_path_reason (codes "/app/.env.example") ≡ none
unfolding sensitive_raw_path_reason normalize_path_parts forward_slashes split_slash root_parts
    starts_with sensitive_path_reason either_reason first_part part_reason lowered is_name text_in
    text_eq lower first_subtree pair_reason last_reason name_reason ends_with
env_run = refl

gcloud_protects : protects (codes ".Config" ∷ codes "gcloud" ∷ []) ≡ true
unfolding either_reason first_part part_reason lowered is_name text_in text_eq lower starts_with
    first_subtree pair_reason
gcloud_protects = refl

sensitive_path_reason-inherited_example :
    refused (
      sensitive_path_reason (
        (codes "home" ∷ [])
        ++ ((codes ".Config" ∷ codes "gcloud" ∷ []) ++ (codes "token.db" ∷ []))))
    ≡ true
sensitive_path_reason-inherited_example =
    sensitive_path_reason-inherited (codes "home" ∷ []) (codes ".Config" ∷ codes "gcloud" ∷ [])
      (codes "token.db" ∷ []) gcloud_protects
