-- ===== src/Session/Jobs/Traces.antt =====
-- Sequences of calls of both registries of coding_tools_mcp/session_state.py.
use devmcp_runtime.Session.Contexts.Leases.Methods.{lease_count-retain, lease_count-release}
use devmcp_runtime.Session.Jobs.Counts.{owned-positive}
use devmcp_runtime.Session.Contexts.Leases.{lease_count, unused_lease_count}
use devmcp_runtime.Base.Dict.{get, has}
use devmcp_runtime.Session.Contexts.Invariant.{Inv}
use devmcp_runtime.Session.Jobs.Methods.{
  register-Leased, lookup_job-Leased, touch_job-Leased, remove_job-Leased, close_jobs-Leased,
  is_some, is_some-retain,
}
use devmcp_runtime.Session.Contexts.{Registry, retain}
use devmcp_runtime.Session.Jobs.Leased.{Leased, prune_jobs-Leased}
use devmcp_runtime.Session.Contexts.Traces.{
  close_op, Op, create_op, apply, release_op, has_of_leases, apply-leases, lookup_op, update_op,
  apply-Inv, claim_op, rollback_claim_op, claim_existing_op, rollback_existing_op, retain_op,
  prune_op,
}
use devmcp_runtime.Session.Jobs.{
  Server, Reading, register, Job, lookup_job, touch_job, remove_job, max_shared_jobs, prune_jobs,
  close_jobs,
}
use devmcp_runtime.Base.{
  ℕ, ◌≤◌, String, ◌≡◌, inl, inr, Bool, true, false, Option, some, List, [], ◌∷◌, arith, eq_iff,
  str_eq, Bool-cases, length, ◌+◌, ◌-◌, ◌<◌, ◌&&◌, if◌then◌else◌,
}

-- A call of the shared job registry, or one of the context registry by another part.
pub data ServerOp : Type 0 where
  register_op : Reading → ℕ → ℕ → Job → ServerOp
  lookup_job_op : Reading → ℕ → String → String → ServerOp
  touch_op : ℕ → String → ServerOp
  remove_op : Reading → Bool → String → ServerOp
  prune_jobs_op : Reading → ServerOp
  close_jobs_op : Reading → ServerOp
  context_op : Op → ServerOp

-- How many leases other parts hold on each context.
abbrev pub Others : Type 0
Others = String → ℕ

-- What other parts do to the contexts: they release only leases that they hold, do not close the
-- registry, and the random name of a new context is not in use.
abbrev pub Lawful : Op → Registry → Others → Type 0
Lawful (create_op t0 t1 t2 token root workspace cwd) s others = has token s.contexts ≡ false
Lawful (release_op t1 k) s others = 0 < others k
Lawful close_op s others = ⊥
Lawful op s others = Unit

-- What they hold after a call: a `retain` that finds its context gives a lease, a `release` takes one.
unfoldable pub held_after : Op → Registry → Others → Others
held_after (retain_op t0 t1 j) s others k =
    if str_eq j k && is_some (retain t0 t1 j s).0 then others k + 1 else others k
held_after (release_op t1 j) s others k = if str_eq j k then others k - 1 else others k
held_after op s others k = others k

module _ (resolve : String → Option String) (resolve_lax : String → String) where
  -- A lawful call takes away only leases of others.
  Lawful-leases :
      (op : Op) (s : Registry) (others : Others)
      → Inv s
      → Lawful op s others
      → (k : String)
      → held_after op s others k + lease_count k s
        ≤ others k + lease_count k (apply resolve resolve_lax op s)
  unfolding held_after
  Lawful-leases (create_op t0 t1 t2 token root workspace cwd) s others h free k =
      elim (Bool-cases (str_eq token k)) [
        | inl same ↦ omega (arith, unused_lease_count k s (ground (arith, eq_iff token k)))
        | inr other ↦ omega (
          arith,
          apply-leases resolve resolve_lax k (create_op t0 t1 t2 token root workspace cwd) [] s h
              (ground (arith, other, eq_iff token k)),
        )
      ]
  Lawful-leases (lookup_op t0 t1 j) s others h l k =
      omega (arith, apply-leases resolve resolve_lax k (lookup_op t0 t1 j) [] s h tt)
  Lawful-leases (update_op t1 t2 t3 r a b c) s others h l k =
      omega (arith, apply-leases resolve resolve_lax k (update_op t1 t2 t3 r a b c) [] s h tt)
  Lawful-leases (claim_op t0 t1 r) s others h l k =
      omega (arith, apply-leases resolve resolve_lax k (claim_op t0 t1 r) [] s h tt)
  Lawful-leases (rollback_claim_op t1 r) s others h l k =
      omega (arith, apply-leases resolve resolve_lax k (rollback_claim_op t1 r) [] s h tt)
  Lawful-leases (claim_existing_op t0 t1 r a b) s others h l k =
      omega (arith, apply-leases resolve resolve_lax k (claim_existing_op t0 t1 r a b) [] s h tt)
  Lawful-leases (rollback_existing_op t1 r a b) s others h l k =
      omega (arith, apply-leases resolve resolve_lax k (rollback_existing_op t1 r a b) [] s h tt)
  Lawful-leases (prune_op t) s others h l k =
      omega (arith, apply-leases resolve resolve_lax k (prune_op t) [] s h tt)
  Lawful-leases (retain_op t0 t1 j) s others h l k =
      unfold apply in ground (arith, lease_count-retain k s h t0 t1 j, is_some-retain t0 t1 j s)
  Lawful-leases (release_op t1 j) s others h l k =
      unfold apply in ground (arith, l, lease_count-release k s h t1 j, eq_iff j k)
  Lawful-leases close_op s others h l k = absurd l

  unfoldable pub serve : ServerOp → Server → Server
  serve (register_op r t0 t1 j) s = (register r t0 t1 j s).1
  serve (lookup_job_op r now handle owner) s = (lookup_job r now handle owner s).1
  serve (touch_op now handle) s = touch_job now handle s
  serve (remove_op r free_too handle) s = (remove_job r free_too handle s).1
  serve (prune_jobs_op r) s = prune_jobs r s
  serve (close_jobs_op r) s = close_jobs r s
  serve (context_op op) s = record s { contexts = apply resolve resolve_lax op s.contexts }

  abbrev pub Allowed : ServerOp → Server → Others → Type 0
  Allowed (context_op op) s others = Lawful op s.contexts others
  Allowed op s others = Unit

  -- What other parts hold after a call of either registry.
  abbrev pub others_after : ServerOp → Server → Others → Others
  others_after (context_op op) s others = held_after op s.contexts others
  others_after op s others = others

  unfoldable pub serve_all : List ServerOp → Server → Server
  serve_all [] s = s
  serve_all (op ∷ ops) s = serve_all ops (serve op s)

  unfoldable pub AllAllowed : List ServerOp → Server → Others → Type 0
  AllAllowed [] s others = Unit
  AllAllowed (op ∷ ops) s others =
      Allowed op s others × AllAllowed ops (serve op s) (others_after op s others)

  serve-Leased :
      (op : ServerOp) (s : Server) (others : Others)
      → Leased others s
      → Allowed op s others
      → Leased (others_after op s others) (serve op s)
  unfolding serve
  serve-Leased (register_op r t0 t1 j) s others h a = register-Leased others r t0 t1 j s h
  serve-Leased (lookup_job_op r now handle owner) s others h a =
      lookup_job-Leased others r now handle owner s h
  serve-Leased (touch_op now handle) s others h a = touch_job-Leased others now handle s h
  serve-Leased (remove_op r free_too handle) s others h a =
      remove_job-Leased others r free_too handle s h
  serve-Leased (prune_jobs_op r) s others h a = prune_jobs-Leased others r s h
  serve-Leased (close_jobs_op r) s others h a = close_jobs-Leased others r s h
  serve-Leased (context_op op) s others h a = record {
    attached = h.attached;
    contexts = apply-Inv resolve resolve_lax op s.contexts h.contexts;
    leased = λ k. omega (arith, h.leased k, Lawful-leases op s.contexts others h.contexts a k);
    bounded = h.bounded;
  }

  pub serve_all-Leased :
      (ops : List ServerOp) (s : Server) (others : Others)
      → Leased others s
      → AllAllowed ops s others
      → (others' : Others) × Leased others' (serve_all ops s)
  unfolding serve_all AllAllowed
  serve_all-Leased [] s others h a = (others, h)
  serve_all-Leased (op ∷ ops) s others h a =
      serve_all-Leased ops (serve op s) (others_after op s others) (serve-Leased op s others h a.0)
        a.1

  -- After any sequence of calls of both registries from a state in which every job has its lease, in
  -- which other parts release only leases that they hold, do not close the contexts and reuse no
  -- name, the context that owns a job of the table is registered, and the table has at most 256 jobs.
  pub serve_all-owner :
      (ops : List ServerOp) (s : Server) (others : Others) (handle : String) (j : Job)
      → Leased others s
      → AllAllowed ops s others
      → get handle (serve_all ops s).jobs ≡ some j
      → (has j.owner_context_id (serve_all ops s).contexts.contexts ≡ true)
        × (length (serve_all ops s).jobs ≤ max_shared_jobs)
  serve_all-owner ops s others handle j h a e =
      let (others', kept) = serve_all-Leased ops s others h a in
      (
        has_of_leases resolve resolve_lax j.owner_context_id (serve_all ops s).contexts (
            omega (
              arith,
              kept.leased j.owner_context_id,
              owned-positive handle j (serve_all ops s).jobs e,
            )),
        kept.bounded,
      )
