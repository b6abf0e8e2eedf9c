-- ===== src/Lease.antt =====
-- coding_tools_mcp/writer_lease.py, with `read_json` and `write_json` of
-- coding_tools_mcp/state_store.py: one writer at a time on a branch. The project lock makes each
-- function one step. Times are in whole seconds; `lease_path` is a parameter, since it is made by a
-- hash, and so are the test that a record fits into the bound of `write_json` and what the operating
-- system makes of a write.
pub mod Acquire
pub mod Release
use devmcp_runtime.Base.Dict.{Dict, get}
use devmcp_runtime.Base.{
  ℕ, zero, suc, ◌+◌, ◌-◌, ◌*◌, ◌/◌, ◌%◌, ◌≤◌, ◌<◌, min, max, String, ◌≡◌, refl, sym, ap, ◌∙◌, subst,
  subst₂, fun_ext, ◌≢◌, ◌↔◌, ◌⊎◌, inl, inr, Bool, true, false, not, ◌&&◌, ◌||◌, Option, none, some,
  List, [], ◌∷◌, ◌++◌, map, arith, eq_iff, ltb, leb, ◌==◌, str_eq, if◌then◌else◌, ltb→lt, lt→ltb,
  leb→le, str_eq_self, str_eq_ne, Bool-cases, Option-cases, if_both, length, take, drop, any, all,
  keep_if, All, length-append, take-append-drop, length-take, length-drop, length-keep_if,
  Exception, tool_failure, runtime_error, value_error, file_exists_error, os_error, Result, ok,
  raised, Exec, ◌>>=◌, ◌>>◌, guard, pure, raise, continue, bind, continue_state, bind_state,
  sequence_ok,
}
pub mod Calls
pub mod Exclusion
pub mod Granting
mod Tests

abbrev pub max_writer_ttl_seconds : ℕ
max_writer_ttl_seconds = 86400

-- What a recovered lease remembers of the one that had run out.
pub record Stale : Type 0 where
  pub owner : Option String
  pub logical_task : Option String
  pub expires_at : Option ℕ

-- A record on disk. A key that is missing, or that holds no text or number, is `none`.
pub record Lease : Type 0 where
  pub branch : Option String
  pub owner : Option String
  pub logical_task : Option String
  pub acquired_at : Option ℕ
  pub heartbeat_at : Option ℕ
  pub expires_at : Option ℕ
  pub expires_at_epoch : Option ℕ
  pub ttl_seconds : Option ℕ
  pub checkpoint_id : Option String
  pub recovered_stale_owner : Option Stale

-- A file under `leases`: a record, or one that `read_json` refuses with that code.
pub data Stored : Type 0 where
  lease : Lease → Stored
  refused : String → Stored

-- The lease directory, by path.
abbrev pub Leases : Type 0
Leases = Dict Stored

-- `read_json(path)`
unfoldable pub read_json : String → Leases → Result (Option Lease)
read_json path files = elim (get path files) [
  | none ↦ ok none
  | some stored ↦ elim stored [
    | lease l ↦ ok (some l)
    | refused code ↦ raised (tool_failure code "runtime" false)
  ]
]

-- What the operating system makes of the calls of `write_json`: the record is in place; one of the
-- calls before `os.replace` returns is refused; or `chmod` is, once the record is in place.
pub data WriteOutcome : Type 0 where
  stored refused_before refused_after : WriteOutcome

-- `float(record.get("expires_at_epoch", 0.0)) > now`
unfoldable pub active : Lease → ℕ → Bool
active l now = elim l.expires_at_epoch [ none ↦ false | some expiry ↦ ltb now expiry ]

-- `record.get("owner") == owner`
unfoldable pub owned_by : Lease → String → Bool
owned_by l owner = elim l.owner [ none ↦ false | some o ↦ str_eq o owner ]

-- `len(owner)`
abbrev pub text_length : String → ℕ
text_length String.[] = 0
text_length (String.◌∷◌ c s) = suc (text_length s)

abbrev pub invalid_argument : Exception
invalid_argument = tool_failure "INVALID_ARGUMENT" "validation" false

abbrev pub lease_conflict : Exception
lease_conflict = tool_failure "WRITER_LEASE_CONFLICT" "conflict" true

abbrev pub no_branch : Exception
no_branch = tool_failure "INVALID_STATE" "conflict" false

abbrev pub too_large : Exception
too_large = tool_failure "OUTPUT_TOO_LARGE" "runtime" false

-- `inspect_writer_lease`: the record, and whether it has run out.
unfoldable pub inspect_writer_lease :
    (String → String) → String → ℕ → Leases → Result (Option (Lease × Bool))
inspect_writer_lease lease_path branch now files = do
  found ← read_json (lease_path branch) files
  ok (elim found [ none ↦ none | some l ↦ some (l, not (active l now)) ])
