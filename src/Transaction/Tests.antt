-- ===== src/Transaction/Tests.antt =====
-- A command that changes one file and adds another one, under coding_tools_mcp/transactions.py.
use devmcp_runtime.Commit.Run.{
  commit, attempt, prepare_change, ensure_parent, missing_dirs, base_is_dir, prepare_file,
  mark_prepared, backup_change, move_away, install_change, put_in_place, all_distinct, clean_up,
  unlink_temps, unlink_backups, rollback, recover_all, recover, unlink_installed, restore_backup,
  remove_dirs,
}
use devmcp_runtime.Transaction.Changes.{FileChange, paths_of, total, prepare-FileChange}
use devmcp_runtime.Transaction.Finish.{lost, finish_undone}
use devmcp_runtime.Commit.Run.Attempt.{Same}
use devmcp_runtime.Transaction.{
  RawChange, finish_transaction, SnapshotEntry, prepare, a_file, a_dir, diff_entries, a_symlink,
  TransactionChange, collect, keeps_change, max_transaction_changed_files, kind_eq, entry_eq,
  max_transaction_apply_bytes, sorted_keys, insert_key, stage_all, content_of, baseline_of,
  transaction_unsafe, as_transaction,
}
use devmcp_runtime.Truncation.Utf8.{Bytes}
use devmcp_runtime.Commit.{
  StagedFile, World, Tree, file, each, system_call, set_node, assert_baseline, member, dir,
}
use devmcp_runtime.Base.Dict.{Dict, get}
use devmcp_runtime.Base.{
  ℕ, ◌≤◌, String, ◌≡◌, refl, ◌≢◌, true, false, none, some, List, [], ◌∷◌, map, arith, str_eq,
  if◌then◌else◌, length, All, Exception, tool_failure, Result, ok, raised,
}

abbrev entry : String → ℕ → SnapshotEntry
entry sha size = record {
  kind = a_file;
  sha = some sha;
  mode = 420;
  size = size;
  link_target = none;
}

abbrev folder : SnapshotEntry
folder = record { kind = a_dir; sha = none; mode = 493; size = 0; link_target = none }

abbrev link : SnapshotEntry
link = record { kind = a_symlink; sha = none; mode = 511; size = 0; link_target = some "/etc" }

abbrev snapshot : Dict SnapshotEntry
snapshot = ("a", entry "old" 1) ∷ ("d", folder) ∷ []

abbrev changed : Dict SnapshotEntry
changed = ("b", entry "new" 2) ∷ ("a", entry "new" 2) ∷ ("e", folder) ∷ []

abbrev allow : String → Result (Unit {0})
allow rel = ok tt

abbrev same_place : String → String
same_place rel = rel

abbrev two_bytes : String → Result Bytes
two_bytes rel = ok (1 ∷ 2 ∷ [])

abbrev only_root : String → List String
only_root p = "/" ∷ []

abbrev one_digest : Bytes → String
one_digest bytes = "current"

-- The file was changed after the snapshot.
abbrev tree : Tree
tree p = if str_eq p "a" then some (file (9 ∷ []) 420) else if str_eq p "/" then some dir else none

abbrev world : World
world = record {
  files = tree;
  temps = λ p. none;
  saved = λ p. none;
  prepared = [];
  backups = [];
  installed = [];
  created_dirs = [];
  answers = [];
}

abbrev first_change : StagedFile × TransactionChange
first_change = (
  record {
    path = "a";
    content = some (1 ∷ 2 ∷ []);
    baseline = record { has_data = true; mode = 420; sha = "old" };
    mode = some 420;
  },
  record { path = "a"; operation = "update"; bytes = 2; mode = some 420 },
)

abbrev second_change : StagedFile × TransactionChange
second_change = (
  record {
    path = "b";
    content = some (1 ∷ 2 ∷ []);
    baseline = record { has_data = false; mode = 0; sha = "" };
    mode = some 420;
  },
  record { path = "b"; operation = "create"; bytes = 2; mode = some 420 },
)

abbrev both : List (StagedFile × TransactionChange)
both = first_change ∷ second_change ∷ []

prepared_both : prepare allow same_place two_bytes snapshot changed ≡ ok both
unfolding prepare diff_entries collect keeps_change kind_eq entry_eq sorted_keys insert_key
    stage_all content_of baseline_of get
prepared_both = refl

no_links :
    prepare allow same_place two_bytes snapshot (("l", link) ∷ []) ≡ raised transaction_unsafe
unfolding prepare diff_entries collect keeps_change kind_eq entry_eq sorted_keys insert_key
    stage_all content_of baseline_of get
no_links = refl

prepare-FileChange_example :
    (raw : List RawChange) × (diff_entries snapshot changed ≡ ok raw)
    × All FileChange raw
    × (paths_of both ≡ map (λ r. same_place r.rel) raw)
    × (length raw ≤ max_transaction_changed_files)
    × (total both ≤ max_transaction_apply_bytes)
prepare-FileChange_example =
    prepare-FileChange allow same_place two_bytes snapshot changed both prepared_both

conflict : Exception
conflict = tool_failure "TRANSACTION_CONFLICT" "conflict" true

refused : (finish_transaction only_root one_digest true (ok both) world).0 ≡ raised conflict
unfolding conflict finish_transaction as_transaction commit attempt each prepare_change
    ensure_parent missing_dirs base_is_dir prepare_file mark_prepared system_call set_node
    assert_baseline backup_change move_away install_change put_in_place member all_distinct clean_up
    unlink_temps unlink_backups rollback recover_all recover unlink_installed restore_backup
    remove_dirs
refused = refl

conflict_ne : conflict ≢ lost
unfolding conflict
conflict_ne h = absurd (ground (arith, h))

finish_undone_example :
    Same
      (some (file (9 ∷ []) 420))
      ((finish_transaction only_root one_digest true (ok both) world).1.files "a")
finish_undone_example =
    finish_undone only_root one_digest true (ok both) world "a" conflict refused conflict_ne
