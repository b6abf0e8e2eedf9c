-- ===== src/Session/Jobs/Tests.antt =====
-- Runs of the shared job registry of coding_tools_mcp/session_state.py with one context and one job.
use devmcp_runtime.Session.Jobs.Leased.{Leased}
use devmcp_runtime.Session.Contexts.Traces.{prune_op, apply, retain_op, release_op}
use devmcp_runtime.Session.Jobs.Access.{register_raised, lookup_job_found_iff}
use devmcp_runtime.Session.Jobs.Counts.{owned, owned_in}
use devmcp_runtime.Session.Contexts.{
  Context, prune, retain, release, sweep, stale, notify_expired, write,
}
use devmcp_runtime.Base.Dict.{has, get, put, pop}
use devmcp_runtime.Session.Jobs.Traces.{
  ServerOp, AllAllowed, serve_all, register_op, serve, context_op, serve_all-owner, lookup_job_op,
  held_after,
}
use devmcp_runtime.Session.Jobs.{
  Server, Reading, Job, register, prune_jobs, max_shared_jobs, lookup_job, add_job, found,
  retain_owner, split_jobs, refresh_status, job_expired, drop_jobs, release_owner,
}
use devmcp_runtime.Base.{
  ℕ, ◌≤◌, String, ◌≡◌, refl, ◌↔◌, true, false, Option, none, some, List, [], ◌∷◌, arith, length,
  runtime_error, raised,
}

abbrev ctx : Context
ctx = record {
  context_id = "ctx_a";
  oid = 0;
  canonical_project_root = "/p";
  effective_workspace_root = "/p";
  default_cwd = "/p";
  created_at = 0;
  last_seen = 5;
  leases = 0;
  mutation_workspace_claimed = false;
}

abbrev server : Server
server = record {
  completed_ttl_seconds = 300;
  attached = true;
  jobs = [];
  closed = false;
  freed = [];
  contexts = record {
    ttl_seconds = 3600;
    has_callback = true;
    contexts = ("ctx_a", ctx) ∷ [];
    expired = [];
    next_oid = 1;
  };
}

-- Nobody holds a lease at first.
abbrev nobody : String → ℕ
nobody k = 0

server-Leased : Leased nobody server
unfolding owned owned_in get
server-Leased = record {
  attached = refl;
  contexts = record { distinct = (refl, tt); keyed = (refl, tt); bounded = omega arith };
  leased = λ k. omega arith;
  bounded = omega arith;
}

abbrev job : Job
job = record {
  session_id = "job_1";
  owner_context_id = "ctx_a";
  completed_at = none;
  created_at = 10;
  last_seen = 10;
}

abbrev busy : Reading
busy = record { wall = 1000; ended = λ h. false; released_at = λ h. 20 }

abbrev over : ℕ → Reading
over now = record { wall = now; ended = λ h. true; released_at = λ h. now }

abbrev registered : Server
registered = (register busy 10 11 job server).1

-- A tool call retains the context, registers a job and releases the context; the job keeps the
-- context alive past the time to live.
abbrev ops : List ServerOp
ops =
    context_op (retain_op 9 9 "ctx_a")
    ∷ register_op busy 10 11 job
    ∷ context_op (release_op 12 "ctx_a")
    ∷ context_op (prune_op 100000)
    ∷ lookup_job_op busy 100001 "job_1" "ctx_a"
    ∷ []

abbrev all_resolve : String → Option String
all_resolve p = some p

abbrev same_path : String → String
same_path p = p

ops-AllAllowed : AllAllowed all_resolve same_path ops server nobody
unfolding AllAllowed held_after retain get put prune sweep stale notify_expired write
ops-AllAllowed = (tt, (tt, (omega arith, (tt, (tt, tt)))))

ops-job :
    get "job_1" (serve_all all_resolve same_path ops server).jobs
    ≡ some (record job { last_seen = 100001 })
unfolding serve_all serve register add_job retain_owner lookup_job prune_jobs split_jobs
    refresh_status job_expired drop_jobs retain release get put prune sweep stale notify_expired
    write apply
ops-job = refl

serve_all-owner_example :
    (has "ctx_a" (serve_all all_resolve same_path ops server).contexts.contexts ≡ true)
    × (length (serve_all all_resolve same_path ops server).jobs ≤ max_shared_jobs)
serve_all-owner_example =
    serve_all-owner all_resolve same_path ops server nobody "job_1"
      (record job { last_seen = 100001 }) server-Leased ops-AllAllowed ops-job

-- 300 s after its end the job goes, and with it the lease.
gone_run : (prune_jobs (over 1301) (prune_jobs (over 1000) registered)).freed ≡ "job_1" ∷ []
unfolding register add_job retain_owner prune_jobs split_jobs refresh_status job_expired drop_jobs
    release_owner retain release get put prune sweep stale notify_expired write
gone_run = refl

lookup_job_found_iff_example :
    ((lookup_job busy 30 "job_1" "ctx_a" registered).0 ≡ found (record job { last_seen = 30 })) ↔ (
      (j : Job) × (get "job_1" (prune_jobs busy registered).jobs ≡ some j)
      × (j.owner_context_id ≡ "ctx_a")
      × (record job { last_seen = 30 } ≡ record j { last_seen = 30 }))
lookup_job_found_iff_example =
    lookup_job_found_iff busy 30 "job_1" "ctx_a" registered (record job { last_seen = 30 })

abbrev orphan : Job
orphan = record job { session_id = "job_2"; owner_context_id = "ctx_b" }

orphan_raises :
    (register busy 10 11 orphan registered).0
    ≡ raised (runtime_error "logical context expired while registering shared job")
unfolding register add_job retain_owner prune_jobs split_jobs refresh_status job_expired drop_jobs
    release_owner retain release get put pop prune sweep stale notify_expired write
orphan_raises = refl

register_raised_example :
    (register busy 10 11 orphan registered).1.jobs ≡ (prune_jobs busy registered).jobs
register_raised_example =
    register_raised busy 10 11 orphan registered
      (runtime_error "logical context expired while registering shared job") orphan_raises
