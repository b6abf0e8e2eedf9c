-- ===== src/Patch/Staging.antt =====
-- coding_tools_mcp/server.py, `_analyze_patch`: how the operations of a patch are staged. The paths are
-- resolved by parameters; modes, diffs, counts of lines and the risk are not modelled.
pub mod Moves
mod Tests
use devmcp_runtime.Base.Text.{text_eq}
use devmcp_runtime.Patch.Hunks.{patch_failed, Line, apply_update_hunks}
use devmcp_runtime.Base.Dict.{Dict, get, put}
use devmcp_runtime.Patch.Envelope.{PatchOperation, add, delete, update, move}
use devmcp_runtime.Base.{
  ℕ, zero, suc, ◌+◌, ◌-◌, ◌*◌, ◌/◌, ◌%◌, ◌≤◌, ◌<◌, min, max, String, ◌≡◌, refl, sym, ap, ◌∙◌, subst,
  subst₂, fun_ext, ◌≢◌, ◌↔◌, ◌⊎◌, inl, inr, Bool, true, false, not, ◌&&◌, ◌||◌, Option, none, some,
  List, [], ◌∷◌, ◌++◌, map, arith, eq_iff, ltb, leb, ◌==◌, str_eq, if◌then◌else◌, ltb→lt, lt→ltb,
  leb→le, str_eq_self, str_eq_ne, Bool-cases, Option-cases, if_both, length, take, drop, any, all,
  keep_if, All, length-append, take-append-drop, length-take, length-drop, length-keep_if,
  Exception, tool_failure, runtime_error, value_error, file_exists_error, os_error, Result, ok,
  raised, Exec, ◌>>=◌, ◌>>◌, guard, pure, raise, continue, bind, continue_state, bind_state,
  sequence_ok,
}

-- What is at a path, with the text where it is UTF-8.
pub data OnDisk : Type 0 where
  nothing directory binary_file : OnDisk
  text_file : List ℕ → OnDisk

-- An entry of `staged`; `content` is `none` for a file that goes.
pub record StagedText : Type 0 where
  pub content : Option (List ℕ)
  pub baseline : OnDisk

abbrev pub unsupported_encoding : Exception
unsupported_encoding = tool_failure "UNSUPPORTED_ENCODING" "validation" false

-- `FileBaseline.capture(path).text(display)`
abbrev pub text_of : OnDisk → Result (List ℕ)
text_of nothing = ok []
text_of directory = raised patch_failed
text_of binary_file = raised unsupported_encoding
text_of (text_file t) = ok t

abbrev pub is_directory : OnDisk → Bool
is_directory nothing = false
is_directory directory = true
is_directory binary_file = false
is_directory (text_file t) = false

-- The text that an update starts from: the staged one before that on the disk.
abbrev pub original : Option StagedText → OnDisk → Result (OnDisk × List ℕ)
original none there = text_of there >>= λ t. ok (there, t)
original (some prior) there = elim prior.content [
  | none ↦ raised patch_failed
  | some t ↦ ok (prior.baseline, t)
]

module _ (resolve_existing : List ℕ → Result String)
    (resolve_for_write : List ℕ → Result (String × Bool))
    (reject_write_symlink : List ℕ → Result (Unit {0})) (disk : String → OnDisk) where
  -- The tests before an operation.
  unfoldable pub validate_operation : PatchOperation → Result (Unit {0})
  validate_operation (add path content) = resolve_for_write path >>= λ t. reject_write_symlink path
  validate_operation (delete path) = resolve_existing path >>= λ s. reject_write_symlink path
  validate_operation (update path hunks) = resolve_existing path >>= λ s. reject_write_symlink path
  validate_operation (move path to) = resolve_for_write path >>= λ s.
      if text_eq to [] then ok tt else resolve_for_write to >>= λ t. reject_write_symlink to

  unfoldable pub stage_add : List ℕ → List ℕ → Dict StagedText → Result (Dict StagedText)
  stage_add path content staged = do
    target ← resolve_for_write path
    guard (not target.1) patch_failed
    ok (put target.0 record { content = some content; baseline = disk target.0 } staged)

  unfoldable pub stage_update :
      List ℕ → List (List Line) → Dict StagedText → Result (Dict StagedText)
  stage_update path hunks staged = do
    source ← resolve_existing path
    guard (not (is_directory (disk source))) patch_failed
    start ← original (get source staged) (disk source)
    updated ← apply_update_hunks start.1 hunks
    ok (put source record { content = some updated; baseline = start.0 } staged)

  unfoldable pub stage_delete : List ℕ → Dict StagedText → Result (Dict StagedText)
  stage_delete path staged = do
    source ← resolve_existing path
    guard (not (is_directory (disk source))) patch_failed
    ok (put source record { content = none; baseline = disk source } staged)

  unfoldable pub stage_move : List ℕ → List ℕ → Dict StagedText → Result (Dict StagedText)
  stage_move path to staged = do
    guard (not (text_eq to [])) patch_failed
    source ← resolve_existing path
    target ← resolve_for_write to
    guard (not (is_directory (disk source))) patch_failed
    guard (not target.1) patch_failed
    text ← text_of (disk source)
    let left = put source record { content = none; baseline = disk source } staged
    ok (put target.0 record { content = some text; baseline = disk target.0 } left)

  abbrev pub stage_operation : PatchOperation → Dict StagedText → Result (Dict StagedText)
  stage_operation (add path content) staged = stage_add path content staged
  stage_operation (delete path) staged = stage_delete path staged
  stage_operation (update path hunks) staged = stage_update path hunks staged
  stage_operation (move path to) staged = stage_move path to staged

  unfoldable pub stage_operations : List PatchOperation → Dict StagedText → Result (Dict StagedText)
  stage_operations [] staged = ok staged
  stage_operations (op ∷ ops) staged = validate_operation op >>= λ u.
      stage_operation op staged >>= λ staged'. stage_operations ops staged'
