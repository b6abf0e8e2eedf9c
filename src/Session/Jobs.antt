-- ===== src/Session/Jobs.antt =====
-- coding_tools_mcp/session_state.py, `SharedJobRegistry`: the jobs that outlive a request, each
-- with a lease on the logical context that owns it. The state holds the context registry too, since
-- the methods call it. A method runs as one step: the code gives the lock of the jobs back between
-- storing a record and retaining its context, and what another thread sees then is not modelled.
-- The operating system answers `process.poll()` by an argument of the call; of a session only what
-- the registry reads is modelled, of `refresh_status` the time of completion.
-- `secrets.compare_digest` is equality.
pub mod Counts
pub mod Leased
pub mod Methods
pub mod Traces
pub mod Access
mod Tests
use devmcp_runtime.Session.Contexts.{release, retain, Registry, Context}
use devmcp_runtime.Base.Dict.{get, has, Dict, pop, put}
use devmcp_runtime.Base.{
  ℕ, ◌+◌, String, Bool, true, false, not, ◌&&◌, Option, none, some, List, [], ◌∷◌, ◌++◌, ltb, leb,
  str_eq, if◌then◌else◌, length, any, runtime_error, ok, raised, Exec, zero, suc, ◌-◌, ◌*◌, ◌/◌,
  ◌%◌, ◌≤◌, ◌<◌, min, max, ◌≡◌, refl, sym, ap, ◌∙◌, subst, subst₂, fun_ext, ◌≢◌, ◌↔◌, ◌⊎◌, inl, inr,
  ◌||◌, map, arith, eq_iff, ◌==◌, ltb→lt, lt→ltb, leb→le, str_eq_self, str_eq_ne, Bool-cases,
  Option-cases, if_both, take, drop, all, keep_if, All, length-append, take-append-drop,
  length-take, length-drop, length-keep_if, Exception, tool_failure, value_error, file_exists_error,
  os_error, Result, ◌>>=◌, ◌>>◌, guard, pure, raise, continue, bind, continue_state, bind_state,
  sequence_ok,
}

abbrev pub max_shared_jobs : ℕ
max_shared_jobs = 256

-- `SharedJobRecord` with its session.
pub record Job : Type 0 where
  pub session_id : String
  pub owner_context_id : String
  pub completed_at : Option ℕ
  pub created_at : ℕ
  pub last_seen : ℕ

pub record Server : Type 0 where
  pub completed_ttl_seconds : ℕ
  pub attached : Bool  -- `self.context_registry is not None`
  pub jobs : Dict Job
  pub closed : Bool
  pub freed : List String  -- the calls of `release_owned_resources`
  pub contexts : Registry

-- What a call reads: the wall clock, whether a session's process has ended, and the monotonic
-- clock, which each release of a context's lease reads by itself.
pub record Reading : Type 0 where
  pub wall : ℕ
  pub ended : String → Bool
  pub released_at : String → ℕ

-- `session.refresh_status()`
unfoldable pub refresh_status : Reading → Job → Job
refresh_status r j =
    if r.ended j.session_id
    then record j { completed_at = elim j.completed_at [ none ↦ some r.wall | some t ↦ some t ] }
    else j

abbrev pub refresh_all : Reading → Dict Job → Dict Job
refresh_all r [] = []
refresh_all r ((h, j) ∷ d) = (h, refresh_status r j) ∷ refresh_all r d

-- The test of the comprehension `expired`.
unfoldable pub job_expired : Reading → ℕ → Job → Bool
job_expired r ttl j =
    r.ended j.session_id && elim j.completed_at [ none ↦ false | some t ↦ ltb (t + ttl) r.wall ]

-- What stays, and what is popped.
unfoldable pub split_jobs : (Job → Bool) → Dict Job → Dict Job × List Job
split_jobs gone [] = ([], [])
split_jobs gone ((h, j) ∷ d) =
    let (kept, popped) = split_jobs gone d in
    if gone j then (kept, j ∷ popped) else ((h, j) ∷ kept, popped)

-- `if self.context_registry is not None: self.context_registry.release(owner_context_id)`
unfoldable pub release_owner : Reading → Job → Server → Server
release_owner r j s =
    if s.attached
    then record s { contexts = release (r.released_at j.session_id) j.owner_context_id s.contexts }
    else s

abbrev pub free : Job → Server → Server
free j s = record s { freed = s.freed ++ (j.session_id ∷ []) }

-- The loop over the popped records.
unfoldable pub drop_jobs : Reading → List Job → Server → Server
drop_jobs r [] s = s
drop_jobs r (j ∷ js) s = drop_jobs r js (free j (release_owner r j s))

unfoldable pub prune_jobs : Reading → Server → Server
prune_jobs r s =
    let (kept, popped) =
      split_jobs (job_expired r s.completed_ttl_seconds) (refresh_all r s.jobs) in
    drop_jobs r popped (record s { jobs = kept })

-- The end of `register`, with what `retain` gave: the lease is taken, or the record is popped again.
abbrev pub keep_or_pop : Job → Option Context × Registry → Exec Server (Unit {0})
keep_or_pop j (some c, contexts') s = (ok tt, record s { contexts = contexts' })
keep_or_pop j (none, contexts') s = (
  raised (runtime_error "logical context expired while registering shared job"),
  record s { jobs = pop j.session_id s.jobs; contexts = contexts' },
)

unfoldable pub retain_owner : ℕ → ℕ → Job → Exec Server (Unit {0})
retain_owner t0 t1 j s =
    if s.attached then keep_or_pop j (retain t0 t1 j.owner_context_id s.contexts) s else (ok tt, s)

-- The part of `register` under the lock, and the lease.
unfoldable pub add_job : ℕ → ℕ → Job → Exec Server (Unit {0})
add_job t0 t1 j s =
    if s.closed
    then (raised (runtime_error "shared job registry is closed"), s)
    else if leb max_shared_jobs (length s.jobs)
    then (raised (runtime_error "maximum shared job count reached"), s)
    else if has j.session_id s.jobs
    then (raised (runtime_error "duplicate shared job handle"), s)
    else retain_owner t0 t1 j (record s { jobs = put j.session_id j s.jobs })

-- The job is the `SharedJobRecord` that the method makes.
unfoldable pub register : Reading → ℕ → ℕ → Job → Exec Server (Unit {0})
register r t0 t1 j s = add_job t0 t1 j (prune_jobs r s)

pub data Found : Type 0 where
  missing forbidden : Found
  found : Job → Found

unfoldable pub lookup_job : Reading → ℕ → String → String → Server → Found × Server
lookup_job r now handle owner s =
    let s' = prune_jobs r s in
    elim (get handle s'.jobs) [
      | none ↦ (missing, s')
      | some j ↦
          if str_eq j.owner_context_id owner
          then (let j' = record j { last_seen = now } in
              (found j', record s' { jobs = put handle j' s'.jobs }))
          else (forbidden, s')
    ]

unfoldable pub touch_job : ℕ → String → Server → Server
touch_job now handle s = elim (get handle s.jobs) [
  | none ↦ s
  | some j ↦ record s { jobs = put handle (record j { last_seen = now }) s.jobs }
]

unfoldable pub remove_job : Reading → Bool → String → Server → Bool × Server
remove_job r release_resources handle s = elim (get handle s.jobs) [
  | none ↦ (false, s)
  | some j ↦
      let s' = release_owner r j (record s { jobs = pop handle s.jobs }) in
      (true, if release_resources then free j s' else s')
]

abbrev job_values : Dict Job → List Job
job_values [] = []
job_values ((h, j) ∷ d) = j ∷ job_values d

-- `close`, which also ends the processes.
unfoldable pub close_jobs : Reading → Server → Server
close_jobs r s = drop_jobs r (job_values s.jobs) (record s { jobs = []; closed = true })

-- `any(… for record in self._jobs.values())`, after a sweep
unfoldable pub has_running_jobs : Reading → String → Server → Bool × Server
has_running_jobs r owner s =
    let s' = prune_jobs r s in
    (
      any (λ j. str_eq j.owner_context_id owner && not (r.ended j.session_id)) (job_values s'.jobs),
      s',
    )
