-- ===== src/Lease/Acquire.antt =====
-- `acquire_writer_leases` of coding_tools_mcp/writer_lease.py.
use Prim.Native.Nat.{Ordering}
use Prim.Native.String.{compare}
use devmcp_runtime.Base.Dict.{put}
use devmcp_runtime.Lease.{
  stored, refused_before, refused_after, WriteOutcome, Lease, max_writer_ttl_seconds, Stale, Leases,
  active, read_json, lease_conflict, invalid_argument, owned_by, text_length, lease, no_branch,
  too_large,
}
use devmcp_runtime.Base.{
  ℕ, ◌+◌, String, Bool, true, false, not, ◌&&◌, ◌||◌, Option, none, some, List, [], ◌∷◌, ltb, leb,
  str_eq, if◌then◌else◌, Result, ok, raised, Exec, ◌>>=◌, pure, continue, bind, os_error,
}

-- `sorted({branch for branch in branches if branch})`
unfoldable pub insert_branch : String → List String → List String
insert_branch b [] = b ∷ []
insert_branch b (x ∷ xs) =
    let rest = insert_branch b xs in
    elim (compare b x) [ Ordering.lt ↦ b ∷ x ∷ xs | Ordering.eq ↦ x ∷ xs | Ordering.gt ↦ x ∷ rest ]

unfoldable pub unique_branches : List String → List String
unique_branches [] = []
unique_branches (b ∷ bs) =
    let rest = unique_branches bs in if str_eq b "" then rest else insert_branch b rest

abbrev is_empty : List String → Bool
is_empty [] = true
is_empty (b ∷ bs) = false

-- What the caller asks for, beside the branches.
pub record Request : Type 0 where
  pub owner : String
  pub logical_task : Option String
  pub ttl_seconds : ℕ
  pub checkpoint_id : Option String
  pub now : ℕ

module _ (lease_path : String → String) (fits : Lease → Bool)
    (system : String → Lease → WriteOutcome) where
  -- `existing`, in the order of the branches
  unfoldable pub read_all : List String → Leases → Result (List (String × Option Lease))
  read_all [] files = ok []
  read_all (b ∷ bs) files = do
    l ← read_json (lease_path b) files
    rest ← read_all bs files
    ok ((b, l) ∷ rest)

  -- `record is not None and _active(record, current) and record.get("owner") != owner`
  unfoldable pub conflicting : Request → Option Lease → Bool
  conflicting q none = false
  conflicting q (some l) = active l q.now && not (owned_by l q.owner)

  unfoldable pub any_conflict : Request → List (String × Option Lease) → Bool
  any_conflict q [] = false
  any_conflict q ((b, l) ∷ rest) = conflicting q l || any_conflict q rest

  unfoldable pub same_owner : Request → Option Lease → Bool
  same_owner q none = false
  same_owner q (some l) = active l q.now && owned_by l q.owner

  abbrev acquired_of : Request → Option Lease → Option ℕ
  acquired_of q none = some q.now
  acquired_of q (some l) = if same_owner q (some l) then l.acquired_at else some q.now

  abbrev stale_of : Request → Option Lease → Option Stale
  stale_of q none = none
  stale_of q (some l) =
      if same_owner q (some l)
      then none
      else some
          (record { owner = l.owner; logical_task = l.logical_task; expires_at = l.expires_at })

  unfoldable pub new_lease : Request → String → Option Lease → Lease
  new_lease q b previous = record {
    branch = some b;
    owner = some q.owner;
    logical_task = q.logical_task;
    acquired_at = acquired_of q previous;
    heartbeat_at = some q.now;
    expires_at = some (q.now + q.ttl_seconds);
    expires_at_epoch = some (q.now + q.ttl_seconds);
    ttl_seconds = some q.ttl_seconds;
    checkpoint_id = q.checkpoint_id;
    recovered_stale_owner = stale_of q previous;
  }

  -- `write_json(path, record)`
  unfoldable pub write_json : String → Lease → Exec Leases (Unit {0})
  write_json path l files =
      if fits l
      then elim (system path l) [
        | stored ↦ (ok tt, put path (lease l) files)
        | refused_before ↦ (raised os_error, files)
        | refused_after ↦ (raised os_error, put path (lease l) files)
      ]
      else (raised too_large, files)

  -- The loop that writes; what it wrote before a refusal stays.
  unfoldable pub write_all : Request → List (String × Option Lease) → Exec Leases (List Lease)
  write_all q [] files = (ok [], files)
  write_all q ((b, previous) ∷ rest) files =
      let l = new_lease q b previous in
      bind (write_json (lease_path b) l) (λ _. bind (write_all q rest) (λ ls. pure (l ∷ ls))) files

  -- The checks of the arguments, in their order.
  unfoldable pub check_request : Request → List String → Result (Unit {0})
  check_request q branches =
      if not (leb 1 q.ttl_seconds && leb q.ttl_seconds max_writer_ttl_seconds)
      then raised invalid_argument
      else if str_eq q.owner "" || ltb 256 (text_length q.owner)
      then raised invalid_argument
      else if is_empty branches
      then raised no_branch
      else ok tt

  -- From the test of the conflicts on, with what the reading gave.
  abbrev pub acquire_read :
      Request → Result (List (String × Option Lease)) → Exec Leases (List Lease)
  acquire_read q (raised e) files = (raised e, files)
  acquire_read q (ok existing) files =
      if any_conflict q existing then (raised lease_conflict, files) else write_all q existing files

  unfoldable pub acquire_locked : Request → List String → Exec Leases (List Lease)
  acquire_locked q branches files = acquire_read q (read_all branches files) files

  unfoldable pub acquire_writer_leases : Request → List String → Exec Leases (List Lease)
  acquire_writer_leases q branches files =
      let unique = unique_branches branches in
      continue (check_request q unique) (λ _. acquire_locked q unique) files
