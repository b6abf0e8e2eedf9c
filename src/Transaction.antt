-- ===== src/Transaction.antt =====
-- coding_tools_mcp/transactions.py: what a command changed in its snapshot, applied to the authoritative
-- tree. The two snapshots, as `capture_snapshot` reads them, and the bytes of the snapshot's files are
-- arguments; the text of the diff is not modelled.
pub mod Changes
pub mod Finish
mod Tests
use devmcp_runtime.Commit.Run.{commit}
use devmcp_runtime.Truncation.Utf8.{Bytes}
use devmcp_runtime.Base.Dict.{Dict, get}
use devmcp_runtime.Commit.{StagedFile, FileBaseline, World}
use devmcp_runtime.Base.{
  ℕ, zero, suc, ◌+◌, ◌-◌, ◌*◌, ◌/◌, ◌%◌, ◌≤◌, ◌<◌, min, max, String, ◌≡◌, refl, sym, ap, ◌∙◌, subst,
  subst₂, fun_ext, ◌≢◌, ◌↔◌, ◌⊎◌, inl, inr, Bool, true, false, not, ◌&&◌, ◌||◌, Option, none, some,
  List, [], ◌∷◌, ◌++◌, map, arith, eq_iff, ltb, leb, ◌==◌, str_eq, if◌then◌else◌, ltb→lt, lt→ltb,
  leb→le, str_eq_self, str_eq_ne, Bool-cases, Option-cases, if_both, length, take, drop, any, all,
  keep_if, All, length-append, take-append-drop, length-take, length-drop, length-keep_if,
  Exception, tool_failure, runtime_error, value_error, file_exists_error, os_error, Result, ok,
  raised, Exec, ◌>>=◌, ◌>>◌, guard, pure, raise, continue, bind, continue_state, bind_state,
  sequence_ok,
}
use Prim.Native.Nat.{Ordering}
use Prim.Native.String.{compare}

pub data Kind : Type 0 where
  a_file a_dir a_symlink : Kind

pub record SnapshotEntry : Type 0 where
  pub kind : Kind
  pub sha : Option String
  pub mode : ℕ
  pub size : ℕ
  pub link_target : Option String

abbrev pub max_transaction_changed_files : ℕ
max_transaction_changed_files = 2000

abbrev pub max_transaction_apply_bytes : ℕ
max_transaction_apply_bytes = 134217728

abbrev pub transaction_too_large : Exception
transaction_too_large = tool_failure "TRANSACTION_TOO_LARGE" "runtime" false

abbrev pub transaction_unsafe : Exception
transaction_unsafe = tool_failure "TRANSACTION_UNSAFE_CHANGE" "security" false

unfoldable pub kind_eq : Kind → Kind → Bool
kind_eq a_file a_file = true
kind_eq a_dir a_dir = true
kind_eq a_symlink a_symlink = true
kind_eq a b = false

abbrev pub text_option_eq : Option String → Option String → Bool
text_option_eq none none = true
text_option_eq none (some b) = false
text_option_eq (some a) none = false
text_option_eq (some a) (some b) = str_eq a b

-- `before == current`
unfoldable pub entry_eq : Option SnapshotEntry → Option SnapshotEntry → Bool
entry_eq none none = true
entry_eq none (some b) = false
entry_eq (some a) none = false
entry_eq (some a) (some b) =
    kind_eq a.kind b.kind
    && text_option_eq a.sha b.sha
    && a.mode == b.mode
    && a.size == b.size
    && text_option_eq a.link_target b.link_target

abbrev pub is_symlink : Option SnapshotEntry → Bool
is_symlink none = false
is_symlink (some e) = kind_eq e.kind a_symlink

-- `before is None or before.kind == "dir"`
abbrev pub holds_nothing : Option SnapshotEntry → Bool
holds_nothing none = true
holds_nothing (some e) = kind_eq e.kind a_dir

abbrev pub kinds_differ : Option SnapshotEntry → Option SnapshotEntry → Bool
kinds_differ none b = false
kinds_differ (some a) none = false
kinds_differ (some a) (some b) = not (kind_eq a.kind b.kind)

pub record RawChange : Type 0 where
  pub rel : String
  pub before : Option SnapshotEntry
  pub after : Option SnapshotEntry

-- One turn of the loop of `_diff_entries`: `true` where the change is kept.
unfoldable pub keeps_change : Option SnapshotEntry → Option SnapshotEntry → Result Bool
keeps_change before current =
    if entry_eq before current
    then ok false
    else if is_symlink before || is_symlink current
    then raised transaction_unsafe
    else if kinds_differ before current
    then raised transaction_unsafe
    else ok (not (holds_nothing before && holds_nothing current))

abbrev pub with_change : Bool → RawChange → List RawChange → List RawChange
with_change kept r rest = if kept then r ∷ rest else rest

unfoldable pub collect :
    Dict SnapshotEntry → Dict SnapshotEntry → List String → Result (List RawChange)
collect before after [] = ok []
collect before after (rel ∷ rels) = keeps_change (get rel before) (get rel after) >>= λ kept.
    collect before after rels >>= λ rest.
    ok (with_change kept record { rel = rel; before = get rel before; after = get rel after } rest)

abbrev pub keys : Dict SnapshotEntry → List String
keys [] = []
keys ((k, e) ∷ d) = k ∷ keys d

-- `sorted(set(…))`
unfoldable pub insert_key : String → List String → List String
insert_key k [] = k ∷ []
insert_key k (x ∷ xs) =
    let rest = insert_key k xs in
    elim (compare k x) [ Ordering.lt ↦ k ∷ x ∷ xs | Ordering.eq ↦ x ∷ xs | Ordering.gt ↦ x ∷ rest ]

unfoldable pub sorted_keys : List String → List String
sorted_keys [] = []
sorted_keys (k ∷ ks) = insert_key k (sorted_keys ks)

abbrev pub bounded : List RawChange → Result (List RawChange)
bounded raw =
    if ltb max_transaction_changed_files (length raw) then raised transaction_too_large else ok raw

unfoldable pub diff_entries : Dict SnapshotEntry → Dict SnapshotEntry → Result (List RawChange)
diff_entries before after =
    collect before after (sorted_keys (keys before ++ keys after)) >>= bounded

pub record TransactionChange : Type 0 where
  pub path : String
  pub operation : String
  pub bytes : ℕ
  pub mode : Option ℕ

-- The baseline that the authoritative file must match.
unfoldable pub baseline_of : Option SnapshotEntry → FileBaseline
baseline_of none = record { has_data = false; mode = 0; sha = "" }
baseline_of (some e) = record {
  has_data = true;
  mode = e.mode;
  sha = elim e.sha [ none ↦ "" | some s ↦ s ];
}

abbrev pub operation_of : Option SnapshotEntry → Option SnapshotEntry → String
operation_of none after = "create"
operation_of (some e) none = "delete"
operation_of (some e) (some a) = "update"

module _ (validate : String → Result (Unit {0})) (place : String → String)
    (read : String → Result Bytes) where
  -- The bytes so far, with those of this content.
  abbrev pub measured : ℕ → Bytes → Result (Option Bytes × ℕ)
  measured apply_bytes content =
      if ltb max_transaction_apply_bytes (apply_bytes + length content)
      then raised transaction_too_large
      else ok (some content, apply_bytes + length content)

  -- The content of a change, and the bytes.
  unfoldable pub content_of : Option SnapshotEntry → String → ℕ → Result (Option Bytes × ℕ)
  content_of none rel apply_bytes = ok (none, apply_bytes)
  content_of (some e) rel apply_bytes =
      if not (kind_eq e.kind a_file)
      then raised transaction_unsafe
      else read rel >>= measured apply_bytes

  abbrev pub stage : RawChange → Option Bytes → StagedFile × TransactionChange
  stage r content = (
    record {
      path = place r.rel;
      content = content;
      baseline = baseline_of r.before;
      mode = elim r.after [ none ↦ none | some e ↦ some e.mode ];
    },
    record {
      path = r.rel;
      operation = operation_of r.before r.after;
      bytes = elim content [ none ↦ 0 | some c ↦ length c ];
      mode = elim r.after [ none ↦ none | some e ↦ some e.mode ];
    },
  )

  -- The loop of `prepare`.
  unfoldable pub stage_all : List RawChange → ℕ → Result (List (StagedFile × TransactionChange))
  stage_all [] apply_bytes = ok []
  stage_all (r ∷ rs) apply_bytes = validate r.rel >>= λ u.
      content_of r.after r.rel apply_bytes >>= λ c.
      stage_all rs c.1 >>= λ rest. ok (stage r c.0 ∷ rest)

  unfoldable pub prepare :
      Dict SnapshotEntry → Dict SnapshotEntry → Result (List (StagedFile × TransactionChange))
  prepare before after = diff_entries before after >>= λ raw. stage_all raw 0

pub record Payload : Type 0 where
  pub status : String
  pub changed_files : List TransactionChange

-- What `finish` raises where the commit raises.
unfoldable pub as_transaction : Exception → Exception
as_transaction (tool_failure code category retryable) =
    if str_eq code "PATCH_CONFLICT" || str_eq code "PATCH_ROLLBACK_FAILED"
    then tool_failure "TRANSACTION_CONFLICT" "conflict" retryable
    else tool_failure code category retryable
as_transaction (runtime_error m) = runtime_error m
as_transaction (value_error m) = value_error m
as_transaction (file_exists_error m) = file_exists_error m
as_transaction os_error = os_error

abbrev pub applied : List TransactionChange → Result (Unit {0}) → Result Payload
applied summary (ok u) = ok record { status = "applied"; changed_files = summary }
applied summary (raised e) = raised (as_transaction e)

abbrev pub staged_of : List (StagedFile × TransactionChange) → List StagedFile
staged_of both = map (λ b. b.0) both

abbrev pub summary_of : List (StagedFile × TransactionChange) → List TransactionChange
summary_of both = map (λ b. b.1) both

module _ (parents : String → List String) (digest : Bytes → String) where
  abbrev pub apply_staged : Bool → List (StagedFile × TransactionChange) → Exec World Payload
  apply_staged false both w =
      (ok record { status = "discarded"; changed_files = summary_of both }, w)
  apply_staged true [] w = (ok record { status = "unchanged"; changed_files = [] }, w)
  apply_staged true (b ∷ both) w =
      let (r, w') = commit parents digest (staged_of (b ∷ both)) w in
      (applied (summary_of (b ∷ both)) r, w')

  unfoldable pub finish_transaction :
      Bool → Result (List (StagedFile × TransactionChange)) → Exec World Payload
  finish_transaction apply prepared = continue prepared (apply_staged apply)
