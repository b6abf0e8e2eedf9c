-- ===== src/Commit/Run/Tests.antt =====
-- A commit of coding_tools_mcp/patching.py that changes one file and adds another one.
use devmcp_runtime.Commit.Run.Outcome.{commit_undone, commit_lossless}
use devmcp_runtime.Commit.Run.{
  commit, attempt, prepare_change, ensure_parent, missing_dirs, base_is_dir, prepare_file,
  mark_prepared, backup_change, move_away, install_change, put_in_place, all_distinct, clean_up,
  unlink_temps, unlink_backups, rollback, recover_all, recover, unlink_installed, restore_backup,
  remove_dirs,
}
use devmcp_runtime.Commit.Run.Attempt.{Same}
use devmcp_runtime.Commit.{
  Bytes, Tree, rollback_failed, World, StagedFile, file, dir, each, system_call, set_node,
  assert_baseline, member,
}
use devmcp_runtime.Base.{
  String, ◌≡◌, refl, ◌≢◌, ◌⊎◌, Bool, true, false, ◌||◌, none, some, List, [], ◌∷◌, ◌==◌, str_eq,
  if◌then◌else◌, length, os_error, raised,
}

abbrev no_parents : String → List String
no_parents p = "/d" ∷ "/" ∷ []

abbrev two_digests : Bytes → String
two_digests bytes = if length bytes == 1 then "one" else "other"

abbrev disk : Tree
disk p =
    if str_eq p "/d/a"
    then some (file (1 ∷ []) 420)
    else if str_eq p "/d" || str_eq p "/"
    then some dir
    else none

abbrev world : List Bool → World
world answers = record {
  files = disk;
  temps = λ p. none;
  saved = λ p. none;
  prepared = [];
  backups = [];
  installed = [];
  created_dirs = [];
  answers = answers;
}

abbrev changes : List StagedFile
changes =
    record {
      path = "/d/a";
      content = some (2 ∷ 3 ∷ []);
      baseline = record { has_data = true; mode = 420; sha = "one" };
      mode = some 420;
    }
    ∷ record {
      path = "/d/b";
      content = some (4 ∷ []);
      baseline = record { has_data = false; mode = 0; sha = "" };
      mode = none;
    }
    ∷ []

-- Every call is granted.
commit_run :
    (commit no_parents two_digests changes (world [])).1.files "/d/a" ≡ some (file (2 ∷ 3 ∷ []) 420)
unfolding commit attempt each prepare_change ensure_parent missing_dirs base_is_dir prepare_file
    mark_prepared system_call set_node assert_baseline backup_change move_away install_change
    put_in_place member all_distinct clean_up unlink_temps unlink_backups
commit_run = refl

-- The last rename is refused, after the first file has been put in place.
abbrev refusals : List Bool
refusals = true ∷ true ∷ true ∷ true ∷ true ∷ true ∷ true ∷ true ∷ true ∷ true ∷ true ∷ false ∷ []

commit_refused : (commit no_parents two_digests changes (world refusals)).0 ≡ raised os_error
unfolding commit attempt each prepare_change ensure_parent missing_dirs base_is_dir prepare_file
    mark_prepared system_call set_node assert_baseline backup_change move_away install_change
    put_in_place member all_distinct clean_up unlink_temps unlink_backups rollback recover_all
    recover unlink_installed restore_backup remove_dirs
commit_refused = refl

os_error_ne_rollback_failed : os_error ≢ rollback_failed
os_error_ne_rollback_failed = λ e. cc

commit_undone_example :
    Same
      (some (file (1 ∷ []) 420))
      ((commit no_parents two_digests changes (world refusals)).1.files "/d/a")
commit_undone_example =
    commit_undone no_parents two_digests changes (world refusals) "/d/a" os_error commit_refused
      os_error_ne_rollback_failed

commit_lossless_example :
    ((commit no_parents two_digests changes (world refusals)).1.files "/d/a"
      ≡ some (file (1 ∷ []) 420))
    ⊎ ((commit no_parents two_digests changes (world refusals)).1.saved "/d/a"
        ≡ some (file (1 ∷ []) 420))
commit_lossless_example =
    commit_lossless no_parents two_digests changes (world refusals) "/d/a" (file (1 ∷ []) 420)
      os_error refl commit_refused
