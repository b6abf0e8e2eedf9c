-- ===== src/Session/Jobs/Leased.antt =====
-- Every job of coding_tools_mcp/session_state.py, `SharedJobRegistry`, has a lease on the context
-- that owns it.
use devmcp_runtime.Session.Contexts.Leases.Methods.{lease_count-release}
use devmcp_runtime.Session.Contexts.Leases.{lease_count}
use devmcp_runtime.Session.Jobs.Counts.{
  owned_in, swept_jobs, owned, owned-swept_jobs, length-swept_jobs,
}
use devmcp_runtime.Session.Contexts.Invariant.{Inv, release-Inv}
use devmcp_runtime.Session.Jobs.{
  release_owner, Job, Server, drop_jobs, prune_jobs, Reading, max_shared_jobs, free,
}
use devmcp_runtime.Base.{◌+◌, ◌≤◌, String, ◌≡◌, refl, true, List, [], ◌∷◌, arith, length, ℕ}

-- `others` counts the leases that other parts of the server hold, by the name of the context.
module _ (others : String → ℕ) where
  -- Each context has a lease for every job that it owns in the table or among those still to be
  -- dropped, beside those that others hold; the table is within its capacity.
  pub record Owing (js : List Job) (s : Server) : Type 0 where
    pub attached : s.attached ≡ true
    pub contexts : Inv s.contexts
    pub leased :
        (k : String) → others k + (owned k s.jobs + owned_in k js) ≤ lease_count k s.contexts
    pub bounded : length s.jobs ≤ max_shared_jobs

  abbrev pub Leased : Server → Type 0
  Leased s = Owing [] s

  pub release_owner-Owing :
      (r : Reading) (j : Job) (js : List Job) (s : Server)
      → Owing (j ∷ js) s
      → Owing js (free j (release_owner r j s))
  unfolding release_owner owned_in
  release_owner-Owing r j js s h = rw h.attached record {
    attached = refl;
    contexts = release-Inv (r.released_at j.session_id) j.owner_context_id s.contexts h.contexts;
    leased = λ k. ground (
      arith,
      h.leased k,
      lease_count-release k s.contexts h.contexts (r.released_at j.session_id) j.owner_context_id,
    );
    bounded = h.bounded;
  }

  pub drop_jobs-Leased :
      (r : Reading) (js : List Job) (s : Server) → Owing js s → Leased (drop_jobs r js s)
  unfolding drop_jobs
  drop_jobs-Leased r [] s h = h
  drop_jobs-Leased r (j ∷ js) s h =
      drop_jobs-Leased r js (free j (release_owner r j s)) (release_owner-Owing r j js s h)

  pub prune_jobs-Leased : (r : Reading) (s : Server) → Leased s → Leased (prune_jobs r s)
  unfolding prune_jobs owned_in
  prune_jobs-Leased r s h =
      drop_jobs-Leased r (swept_jobs r s).1 (record s { jobs = (swept_jobs r s).0 })
        record {
          attached = h.attached;
          contexts = h.contexts;
          leased = λ k. omega (arith, h.leased k, owned-swept_jobs k r s);
          bounded = omega (arith, h.bounded, length-swept_jobs r s);
        }
