-- ===== src/Lease/Tests.antt =====
-- Runs of coding_tools_mcp/writer_lease.py on two branches, and the theorems at these runs.
use devmcp_runtime.Lease.Exclusion.{Held}
use devmcp_runtime.Lease.Release.{
  release_owner_leases, release_writer_lease, sweep_owner, task_fits, sorted, releases,
}
use devmcp_runtime.Base.Dict.{get, put}
use devmcp_runtime.Lease.Acquire.{
  Request, unique_branches, acquire_writer_leases, insert_branch, acquire_locked, check_request,
  read_all, any_conflict, conflicting, write_all, write_json, new_lease, same_owner,
}
use devmcp_runtime.Lease.Calls.{Call, acquire, run, run-Held, release, release_all}
use devmcp_runtime.Lease.{
  refused_before, lease, stored, WriteOutcome, Lease, Leases, read_json, active, owned_by,
  inspect_writer_lease, lease_conflict,
}
use devmcp_runtime.Base.{
  ℕ, String, ◌≡◌, refl, Bool, true, none, some, List, [], ◌∷◌, ltb→lt, Result, ok, raised, str_eq,
  if◌then◌else◌, os_error,
}

abbrev path_of : String → String
path_of b = b

abbrev any_size : Lease → Bool
any_size l = true

abbrev no_failure : String → Lease → WriteOutcome
no_failure path l = stored

abbrev request : String → ℕ → Request
request who at = record {
  owner = who;
  logical_task = none;
  ttl_seconds = 60;
  checkpoint_id = none;
  now = at;
}

abbrev first : Result (List Lease) × Leases
first =
    acquire_writer_leases path_of any_size no_failure (request "ann" 100)
      ("main" ∷ "dev" ∷ "" ∷ "main" ∷ []) []

branches_run : unique_branches ("main" ∷ "dev" ∷ "" ∷ "main" ∷ []) ≡ "dev" ∷ "main" ∷ []
unfolding unique_branches insert_branch
branches_run = refl

conflict_run :
    acquire_writer_leases path_of any_size no_failure (request "bob" 159) ("main" ∷ []) first.1
    ≡ (raised lease_conflict, first.1)
unfolding acquire_writer_leases acquire_locked check_request unique_branches insert_branch read_all
    read_json any_conflict conflicting active owned_by write_all write_json new_lease same_owner get
    put
conflict_run = refl

expired_run :
    inspect_writer_lease path_of "main" 160 first.1
    ≡ ok (some (new_lease path_of any_size no_failure (request "ann" 100) "main" none, true))
unfolding acquire_writer_leases acquire_locked check_request unique_branches insert_branch read_all
    read_json any_conflict conflicting active owned_by write_all write_json new_lease same_owner get
    put inspect_writer_lease
expired_run = refl

-- What runs of the two releases give.
release_run : (release_writer_lease path_of "main" "ann" none 120 first.1).0 ≡ ok true
unfolding acquire_writer_leases acquire_locked check_request unique_branches insert_branch read_all
    read_json any_conflict conflicting active owned_by write_all write_json new_lease same_owner get
    put release_writer_lease task_fits
release_run = refl

release_all_run : release_owner_leases "ann" none first.1 ≡ (ok ("dev" ∷ "main" ∷ []), [])
unfolding acquire_writer_leases acquire_locked check_request unique_branches insert_branch read_all
    read_json any_conflict conflicting active owned_by write_all write_json new_lease same_owner get
    put release_owner_leases sweep_owner sorted releases task_fits
release_all_run = refl

abbrev main_lease : Lease
main_lease = record {
  branch = some "main";
  owner = some "ann";
  logical_task = none;
  acquired_at = some 100;
  heartbeat_at = some 100;
  expires_at = some 160;
  expires_at_epoch = some 160;
  ttl_seconds = some 60;
  checkpoint_id = none;
  recovered_stale_owner = none;
}

first-Held : Held "ann" 160 "main" first.1
unfolding acquire_writer_leases acquire_locked check_request unique_branches insert_branch read_all
    read_json any_conflict conflicting active owned_by write_all write_json new_lease same_owner get
    put
first-Held = (main_lease, refl, refl, refl)

abbrev calls_of_bob : List Call
calls_of_bob =
    acquire (request "bob" 120) ("main" ∷ [])
    ∷ release "main" "bob" none 130
    ∷ release_all "bob" none 159
    ∷ []

run-Held_example :
    get "main" (run path_of any_size no_failure calls_of_bob first.1) ≡ get "main" first.1
run-Held_example =
    run-Held path_of any_size no_failure "ann" 160 "main" calls_of_bob first.1 first-Held (
      (refl, ltb→lt 120 160 refl),
      ((refl, ltb→lt 130 160 refl), ((refl, ltb→lt 159 160 refl), tt)),
    )

-- The disk is full at the second of the two branches.
abbrev full_at_main : String → Lease → WriteOutcome
full_at_main path l = if str_eq path "main" then refused_before else stored

half_run :
    (acquire_writer_leases path_of any_size full_at_main
      (request "ann" 100)
      ("main" ∷ "dev" ∷ [])
      [])
    ≡ (raised os_error, ("dev", lease (record main_lease { branch = some "dev" })) ∷ [])
unfolding acquire_writer_leases acquire_locked check_request unique_branches insert_branch read_all
    read_json any_conflict conflicting active owned_by write_all write_json new_lease same_owner get
    put
half_run = refl
