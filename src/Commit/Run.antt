-- ===== src/Commit/Run.antt =====
-- coding_tools_mcp/patching.py, `AtomicPatchCommitter`: its phases, its rollback and `commit`.
pub mod Attempt
pub mod Phases
pub mod Moves
pub mod Places
pub mod Others
pub mod Recovery
pub mod Outcome
mod Tests
use mathlib.Core.List.{reverse}
use devmcp_runtime.Commit.{
  StagedFile, Bytes, member, World, Act, Tree, Node, file, patch_refused, perform, system_call,
  each, set_node, rollback_failed, exists, assert_baseline, dir,
}
use devmcp_runtime.Base.{
  ℕ, zero, suc, ◌+◌, ◌-◌, ◌*◌, ◌/◌, ◌%◌, ◌≤◌, ◌<◌, min, max, String, ◌≡◌, refl, sym, ap, ◌∙◌, subst,
  subst₂, fun_ext, ◌≢◌, ◌↔◌, ◌⊎◌, inl, inr, Bool, true, false, not, ◌&&◌, ◌||◌, Option, none, some,
  List, [], ◌∷◌, ◌++◌, map, arith, eq_iff, ltb, leb, ◌==◌, str_eq, if◌then◌else◌, ltb→lt, lt→ltb,
  leb→le, str_eq_self, str_eq_ne, Bool-cases, Option-cases, if_both, length, take, drop, any, all,
  keep_if, All, length-append, take-append-drop, length-take, length-drop, length-keep_if,
  Exception, tool_failure, runtime_error, value_error, file_exists_error, os_error, Result, ok,
  raised, Exec, ◌>>=◌, ◌>>◌, guard, pure, raise, continue, bind, continue_state, bind_state,
  sequence_ok,
}

-- The directories that are missing above a path, the nearest first.
unfoldable pub missing_dirs : List String → Tree → List String
missing_dirs [] t = []
missing_dirs (d ∷ ds) t = let rest = missing_dirs ds t in if exists d t then [] else d ∷ rest

abbrev pub is_dir : Option Node → Bool
is_dir none = false
is_dir (some dir) = true
is_dir (some (file bytes mode)) = false

abbrev pub is_file : Option Node → Bool
is_file none = false
is_file (some dir) = false
is_file (some (file bytes mode)) = true

-- The first that exists is a directory.
unfoldable pub base_is_dir : List String → Tree → Bool
base_is_dir [] t = false
base_is_dir (d ∷ ds) t = let rest = base_is_dir ds t in if exists d t then is_dir (t d) else rest

unfoldable pub make_dir : String → Act
make_dir d = perform λ w. record w { files = set_node d (some dir) w.files }

-- `_ensure_parent`: `mkdir` makes the outermost first; a refusal leaves what it made.
unfoldable pub ensure_parent : List String → Act
ensure_parent parents w =
    let missing = reverse (missing_dirs parents w.files) in
    if base_is_dir parents w.files
    then continue (each make_dir missing w).0
        (λ _ w'. (ok tt, record w' { created_dirs = w'.created_dirs ++ missing }))
        (each make_dir missing w).1
    else (raised os_error, w)

abbrev pub put_temp : String → Option Node → World → World
put_temp p n w = record w { temps = set_node p n w.temps }

abbrev pub mode_of : Option ℕ → ℕ
mode_of none = 420  -- 0o644
mode_of (some m) = m

-- `_prepare_file` after `mkstemp`: the temporary file goes again where a call is refused.
abbrev pub or_unlink : String → Result (Unit {0}) × World → Result (Unit {0}) × World
or_unlink p (ok u, w) = (ok tt, w)
or_unlink p (raised e, w) = (raised e, (perform (put_temp p none) w).1)

unfoldable pub prepare_file : StagedFile → Bytes → Act
prepare_file c bytes = bind system_call λ _ w. or_unlink c.path (
    bind system_call (λ _. perform (put_temp c.path (some (file bytes (mode_of c.mode)))))
      (put_temp c.path (some (file [] 384)) w))

unfoldable pub mark_prepared : String → Act
mark_prepared p w = (ok tt, record w { prepared = p ∷ w.prepared })

abbrev pub to_backup : String → World → World
to_backup p w = record w {
  saved = set_node p (w.files p) w.saved;
  files = set_node p none w.files;
  backups = p ∷ w.backups;
}

abbrev pub to_place : String → Node → World → World
to_place p n w = record w {
  files = set_node p (some n) w.files;
  temps = set_node p none w.temps;
  installed = p ∷ w.installed;
}

abbrev pub from_backup : String → Node → World → World
from_backup p n w = record w {
  files = set_node p (some n) w.files;
  saved = set_node p none w.saved;
}

-- `_reserve_backup_path` and the rename of the original
unfoldable pub move_away : String → Act
move_away p w =
    if exists p w.files then bind system_call (λ _. perform (to_backup p)) w else (ok tt, w)

-- `os.replace(prepared_path, change.path)`, which is refused where there is a directory.
unfoldable pub put_in_place : String → Act
put_in_place p w = elim (w.temps p) [
  | none ↦ (raised os_error, w)
  | some n ↦ if is_dir (w.files p) then (raised os_error, w) else perform (to_place p n) w
]

-- One path of `_rollback`; `true` where it adds to the errors.
unfoldable pub unlink_installed : String → Act
unlink_installed p w =
    if member p w.installed && is_file (w.files p)
    then perform (λ w'. record w' { files = set_node p none w'.files }) w
    else (ok tt, w)

abbrev pub failed : Result (Unit {0}) → Bool
failed (ok u) = false
failed (raised e) = true

abbrev pub restore_from : String → Option Node → World → Bool × World
restore_from p none w = (true, w)
restore_from p (some n) w =
    if is_dir (w.files p)
    then (true, w)
    else (failed (perform (from_backup p n) w).0, (perform (from_backup p n) w).1)

unfoldable pub restore_backup : String → World → Bool × World
restore_backup p w = if member p w.backups then restore_from p (w.saved p) w else (false, w)

unfoldable pub recover : String → World → Bool × World
recover p w =
    let (r, w1) = unlink_installed p w in if failed r then (true, w1) else restore_backup p w1

unfoldable pub recover_all : List String → World → Bool × World
recover_all [] w = (false, w)
recover_all (p ∷ ps) w =
    let (bad, w1) = recover p w in let (worse, w2) = recover_all ps w1 in (bad || worse, w2)

-- `path.unlink(missing_ok=True)` for the temporary files; `true` where one is refused.
unfoldable pub unlink_temps : List String → World → Bool × World
unlink_temps [] w = (false, w)
unlink_temps (p ∷ ps) w =
    let (r, w1) = perform (put_temp p none) w in
    let (worse, w2) = unlink_temps ps w1 in (failed r || worse, w2)

-- `directory.rmdir()`, whose refusal is ignored. The answer is `false` for a directory in use.
unfoldable pub remove_dirs : List String → World → World
remove_dirs [] w = w
remove_dirs (d ∷ ds) w = remove_dirs ds (
    if is_dir (w.files d)
    then (perform (λ w'. record w' { files = set_node d none w'.files }) w).1
    else w)

abbrev pub paths : List StagedFile → List String
paths [] = []
paths (c ∷ cs) = c.path ∷ paths cs

-- `_rollback`
unfoldable pub rollback : List StagedFile → World → Bool × World
rollback changes w =
    let (bad, w1) = recover_all (reverse (paths changes)) w in
    let (worse, w2) = unlink_temps w1.prepared w1 in
    (bad || worse, remove_dirs (reverse w2.created_dirs) w2)

-- The `finally` block, with its refusals ignored.
unfoldable pub unlink_backups : List String → World → World
unlink_backups [] w = w
unlink_backups (p ∷ ps) w =
    unlink_backups ps (perform (λ w'. record w' { saved = set_node p none w'.saved }) w).1

unfoldable pub clean_up : Bool → World → World
clean_up preserve w =
    let w1 = (unlink_temps w.prepared w).1 in if preserve then w1 else unlink_backups w1.backups w1

-- `prepared[change.path] = _prepare_file(change)`, if there is content.
abbrev pub prepare_content : StagedFile → Option Bytes → Act
prepare_content c none = pure tt
prepare_content c (some bytes) = bind (prepare_file c bytes) (λ _. mark_prepared c.path)

-- `_assert_unique_paths`
unfoldable pub all_distinct : List String → Bool
all_distinct [] = true
all_distinct (p ∷ ps) = not (member p ps) && all_distinct ps

module _ (parents : String → List String) (digest : Bytes → String) where
  -- The first loop of `commit`.
  unfoldable pub prepare_change : StagedFile → Act
  prepare_change c = bind (ensure_parent (parents c.path)) (λ _. prepare_content c c.content)

  -- The third loop.
  unfoldable pub backup_change : StagedFile → Act
  backup_change c = bind (assert_baseline digest c) (λ _. move_away c.path)

  -- The fourth loop.
  unfoldable pub install_change : StagedFile → Act
  install_change c w =
      if member c.path w.prepared
      then bind (if member c.path w.backups then pure tt else assert_baseline digest c)
          (λ _. put_in_place c.path) w
      else (ok tt, w)

  -- The `try` block.
  unfoldable pub attempt : List StagedFile → Act
  attempt changes = bind (each prepare_change changes) (λ _.
      bind (each (assert_baseline digest) changes)
        (λ _. bind (each backup_change changes) (λ _. each install_change changes)))

  -- The `except` and `finally` blocks.
  abbrev pub settle : List StagedFile → Result (Unit {0}) × World → Result (Unit {0}) × World
  settle changes (ok u, w) = (ok tt, clean_up false w)
  settle changes (raised e, w) =
      let (bad, w') = rollback changes w in
      (raised (if bad then rollback_failed else e), clean_up bad w')

  abbrev pub fresh : World → World
  fresh w = record w {
    temps = λ p. none;
    saved = λ p. none;
    prepared = [];
    backups = [];
    installed = [];
    created_dirs = [];
  }

  unfoldable pub commit : List StagedFile → Act
  commit [] w = (ok tt, w)
  commit (c ∷ cs) w =
      if all_distinct (paths (c ∷ cs))
      then settle (c ∷ cs) (attempt (c ∷ cs) (fresh w))
      else (raised patch_refused, w)
