-- ===== src/Session/Jobs/Methods.antt =====
-- Each method of `SharedJobRegistry` of coding_tools_mcp/session_state.py keeps the leases of the
-- jobs.
use devmcp_runtime.Session.Contexts.Leases.Methods.{lease_count-retain}
use devmcp_runtime.Session.Contexts.Leases.{lease_count}
use devmcp_runtime.Base.Dict.Laws.{length-put}
use devmcp_runtime.Session.Contexts.Invariant.{Inv, retain-Inv}
use devmcp_runtime.Session.Jobs.Leased.{
  Leased, drop_jobs-Leased, Owing, prune_jobs-Leased, release_owner-Owing,
}
use devmcp_runtime.Base.Dict.{has, get, put, pop}
use devmcp_runtime.Session.Jobs.Counts.{
  owned_in, owned, owned-job_values, owned-put_found, owned-found, length-pop_jobs, owned-put_new,
  pop-put_new,
}
use devmcp_runtime.Session.Contexts.{retain, Context, Registry, prune}
use devmcp_runtime.Session.Jobs.{
  retain_owner, register, Job, close_jobs, add_job, touch_job, remove_job, lookup_job, Server,
  Reading, prune_jobs, max_shared_jobs, job_values, Found, keep_or_pop,
}
use devmcp_runtime.Base.{
  ℕ, ◌+◌, ◌<◌, String, ◌≡◌, refl, sym, subst, inl, inr, Bool, true, false, ◌&&◌, Option, none, some,
  [], ◌∷◌, arith, leb, str_eq, if◌then◌else◌, Option-cases, if_both, length, Result, ok, if_cases,
}

abbrev pub is_some {ℓ} : {A : Type ℓ} → Option A → Bool
is_some none = false
is_some (some x) = true

-- `retain` returns a context exactly where one is registered after its sweep.
pub is_some-retain :
    (t0 t1 : ℕ) (k : String) (s : Registry)
    → is_some (retain t0 t1 k s).0 ≡ has k (prune t0 s).contexts
unfolding retain
is_some-retain t0 t1 k s = elim (Option-cases (get k (prune t0 s).contexts)) [
  | inl e ↦ ground (arith, e)
  | inr (c, e) ↦ ground (arith, e)
]

module _ (others : String → ℕ) where
  -- The job stands in the table, and its owner lacks the lease for it.
  keep_or_pop-Leased :
      (j : Job) (found : Option Context) (contexts' : Registry) (s : Server)
      → Leased others s
      → get j.session_id s.jobs ≡ none
      → length s.jobs < max_shared_jobs
      → Inv contexts'
      → ((k : String)
          → lease_count k contexts' ≡ (
              if str_eq j.owner_context_id k && is_some found
              then lease_count k s.contexts + 1
              else lease_count k s.contexts))
      → Leased others
          (keep_or_pop j (found, contexts') (record s { jobs = put j.session_id j s.jobs })).1
  unfolding owned_in
  keep_or_pop-Leased j (some c) contexts' s h e room kept counts = record {
    attached = h.attached;
    contexts = kept;
    leased = λ k. ground (arith, h.leased k, counts k, owned-put_new k j.session_id j s.jobs e);
    bounded = ground (arith, length-put j.session_id j s.jobs);
  }
  keep_or_pop-Leased j none contexts' s h e room kept counts = record {
    attached = h.attached;
    contexts = kept;
    leased = λ k. ground (arith, h.leased k, counts k, pop-put_new j.session_id j s.jobs e);
    bounded = ground (arith, h.bounded, pop-put_new j.session_id j s.jobs e);
  }

  retain_owner-Leased :
      (t0 t1 : ℕ) (j : Job) (s : Server)
      → Leased others s
      → get j.session_id s.jobs ≡ none
      → length s.jobs < max_shared_jobs
      → Leased others (retain_owner t0 t1 j (record s { jobs = put j.session_id j s.jobs })).1
  unfolding retain_owner
  retain_owner-Leased t0 t1 j s h e room =
      let o = j.owner_context_id in
      subst
        (λ b.
          Leased others
            (if b
              then keep_or_pop j (retain t0 t1 o s.contexts)
                  (record s { jobs = put j.session_id j s.jobs })
              else (ok tt, record s { jobs = put j.session_id j s.jobs })).1)
        (sym h.attached)
        (keep_or_pop-Leased j (retain t0 t1 o s.contexts).0 (retain t0 t1 o s.contexts).1 s h e room
          (retain-Inv t0 t1 o s.contexts h.contexts)
          λ k. ground (
            arith,
            lease_count-retain k s.contexts h.contexts t0 t1 o,
            is_some-retain t0 t1 o s.contexts,
          ))

  add_job-Leased :
      (t0 t1 : ℕ) (j : Job) (s : Server) → Leased others s → Leased others (add_job t0 t1 j s).1
  unfolding add_job
  add_job-Leased t0 t1 j s h =
      let P : Result (Unit {0}) × Server → Type 0 = λ p. Leased others p.1 in
      if_cases P s.closed (λ _. h)
        λ _.
          if_cases P (leb max_shared_jobs (length s.jobs)) (λ _. h)
            λ room.
              if_cases P (has j.session_id s.jobs) (λ _. h)
                λ e. retain_owner-Leased t0 t1 j s h (ground (arith, e)) (ground (arith, room))

  pub register-Leased :
      (r : Reading) (t0 t1 : ℕ) (j : Job) (s : Server)
      → Leased others s
      → Leased others (register r t0 t1 j s).1
  unfolding register
  register-Leased r t0 t1 j s h =
      add_job-Leased t0 t1 j (prune_jobs r s) (prune_jobs-Leased others r s h)

  -- A record that is in the table is written anew, with the same owner.
  rewrite-Leased :
      (handle : String) (j j' : Job) (s : Server)
      → Leased others s
      → get handle s.jobs ≡ some j
      → j'.owner_context_id ≡ j.owner_context_id
      → Leased others (record s { jobs = put handle j' s.jobs })
  rewrite-Leased handle j j' s h e same = record {
    attached = h.attached;
    contexts = h.contexts;
    leased = λ k. ground (arith, h.leased k, owned-put_found k handle j j' s.jobs e same);
    bounded = ground (arith, h.bounded, length-put handle j' s.jobs, e);
  }

  pub lookup_job-Leased :
      (r : Reading) (now : ℕ) (handle owner : String) (s : Server)
      → Leased others s
      → Leased others (lookup_job r now handle owner s).1
  unfolding lookup_job
  lookup_job-Leased r now handle owner s h =
      let s' = prune_jobs r s in
      let kept = prune_jobs-Leased others r s h in
      elim (Option-cases (get handle s'.jobs)) [
        | inl e ↦ rw (e, lookup_job) kept
        | inr (j, e) ↦
            rw (e, lookup_job)
              (if_both {A = Found × Server} (λ p. Leased others p.1)
                (str_eq j.owner_context_id owner)
                (rewrite-Leased handle j (record j { last_seen = now }) s' kept e refl) kept)
      ]

  pub touch_job-Leased :
      (now : ℕ) (handle : String) (s : Server)
      → Leased others s
      → Leased others (touch_job now handle s)
  unfolding touch_job
  touch_job-Leased now handle s h = elim (Option-cases (get handle s.jobs)) [
    | inl e ↦ rw (e, touch_job) h
    | inr (j, e) ↦
        rw (e, touch_job) (rewrite-Leased handle j (record j { last_seen = now }) s h e refl)
  ]

  pub remove_job-Leased :
      (r : Reading) (free_too : Bool) (handle : String) (s : Server)
      → Leased others s
      → Leased others (remove_job r free_too handle s).1
  unfolding remove_job owned_in
  remove_job-Leased r free_too handle s h = elim (Option-cases (get handle s.jobs)) [
    | inl e ↦ rw (e, remove_job) h
    | inr (j, e) ↦
        let less : Owing others (j ∷ []) (record s { jobs = pop handle s.jobs }) = record {
          attached = h.attached;
          contexts = h.contexts;
          leased = λ k. omega (arith, h.leased k, owned-found k handle j s.jobs e);
          bounded = omega (arith, h.bounded, length-pop_jobs handle s.jobs);
        } in
        let done = release_owner-Owing others r j [] (record s { jobs = pop handle s.jobs }) less in
        rw (e, remove_job)
          (if_both (Leased others) free_too done record {
            attached = done.attached;
            contexts = done.contexts;
            leased = done.leased;
            bounded = done.bounded;
          })
  ]

  pub close_jobs-Leased :
      (r : Reading) (s : Server) → Leased others s → Leased others (close_jobs r s)
  unfolding close_jobs owned
  close_jobs-Leased r s h =
      drop_jobs-Leased others r (job_values s.jobs) (record s { jobs = []; closed = true })
        record {
          attached = h.attached;
          contexts = h.contexts;
          leased = λ k. omega (arith, h.leased k, owned-job_values k s.jobs);
          bounded = omega arith;
        }
