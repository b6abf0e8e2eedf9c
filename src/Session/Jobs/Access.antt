-- ===== src/Session/Jobs/Access.antt =====
-- Who gets a job of coding_tools_mcp/session_state.py, `SharedJobRegistry`, and what a registration
-- that raises leaves.
use devmcp_runtime.Session.Jobs.Counts.{pop-put_new}
use devmcp_runtime.Session.Contexts.{Context, Registry, retain}
use devmcp_runtime.Base.Dict.{get, Dict, put, has}
use devmcp_runtime.Session.Jobs.{
  Reading, lookup_job, Server, Job, register, found, prune_jobs, add_job, retain_owner, keep_or_pop,
  max_shared_jobs,
}
use devmcp_runtime.Base.{
  ℕ, String, ◌≡◌, refl, ◌↔◌, inl, inr, Option, none, some, arith, eq_iff, leb, str_eq, Bool-cases,
  Option-cases, if_both, length, Exception, Result, raised, if_cases,
}

-- A job is handed out exactly where, after the sweep, its handle is in the table with the caller as
-- owner; what is handed out is that job with the time of the call as its last one.
pub lookup_job_found_iff :
    (r : Reading) (now : ℕ) (handle owner : String) (s : Server) (j' : Job)
    → ((lookup_job r now handle owner s).0 ≡ found j') ↔ (
        (j : Job) × (get handle (prune_jobs r s).jobs ≡ some j)
        × (j.owner_context_id ≡ owner)
        × (j' ≡ record j { last_seen = now }))
unfolding lookup_job
lookup_job_found_iff r now handle owner s j' =
    elim (Option-cases (get handle (prune_jobs r s).jobs)) [
      | inl e ↦
          rw (e, lookup_job)
            ((λ p. absurd (ground arith)), (λ (j, p, o, same). absurd (ground arith)))
      | inr (j, e) ↦
          rw (e, lookup_job)
            (elim (Bool-cases (str_eq j.owner_context_id owner)) [
              | inl same ↦
                  let owns : j.owner_context_id ≡ owner =
                    ground (arith, same, eq_iff j.owner_context_id owner) in
                  rw same ((λ p. (j, refl, owns, cc)), (λ (k, p, o, q). cc))
              | inr other ↦ rw other (
                (λ p. absurd (ground arith)),
                (λ (k, p, o, q). absurd (ground (arith, other, eq_iff j.owner_context_id owner))),
              )
            ])
    ]

-- What a step leaves of a table, if it raises.
abbrev Undone : Dict Job → Result (Unit {0}) × Server → Type 0
Undone d p = (e : Exception) → p.0 ≡ raised e → p.1.jobs ≡ d

keep_or_pop-Undone :
    (j : Job) (found : Option Context) (contexts' : Registry) (s : Server)
    → get j.session_id s.jobs ≡ none
    → Undone s.jobs
        (keep_or_pop j (found, contexts') (record s { jobs = put j.session_id j s.jobs }))
keep_or_pop-Undone j (some c) contexts' s new e p = absurd (ground arith)
keep_or_pop-Undone j none contexts' s new e p = pop-put_new j.session_id j s.jobs new

add_job-Undone : (t0 t1 : ℕ) (j : Job) (s : Server) → Undone s.jobs (add_job t0 t1 j s)
unfolding add_job retain_owner
add_job-Undone t0 t1 j s =
    let P : Result (Unit {0}) × Server → Type 0 = Undone s.jobs in
    let s' = record s { jobs = put j.session_id j s.jobs } in
    let tried = retain t0 t1 j.owner_context_id s.contexts in
    if_cases P s.closed (λ _ e p. refl)
      λ _.
        if_cases P (leb max_shared_jobs (length s.jobs)) (λ _ e p. refl)
          λ _.
            if_cases P (has j.session_id s.jobs) (λ _ e p. refl)
              λ new.
                if_both P s.attached (keep_or_pop-Undone j tried.0 tried.1 s (ground (arith, new)))
                  (λ e p. absurd (ground arith))

-- A registration that raises leaves the table as the sweep before it did, also where the lease was
-- refused after the record had been stored.
pub register_raised :
    (r : Reading) (t0 t1 : ℕ) (j : Job) (s : Server) (e : Exception)
    → (register r t0 t1 j s).0 ≡ raised e
    → (register r t0 t1 j s).1.jobs ≡ (prune_jobs r s).jobs
unfolding register
register_raised r t0 t1 j s = add_job-Undone t0 t1 j (prune_jobs r s)
