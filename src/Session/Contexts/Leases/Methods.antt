-- ===== src/Session/Contexts/Leases/Methods.antt =====
-- Each method's effect on the leases of every context.
use devmcp_runtime.Session.Contexts.Eviction.{oldest_from_cases}
use devmcp_runtime.Base.Dict.Laws.{get-pop, get-put}
use devmcp_runtime.Base.Dict.{has}
use devmcp_runtime.Session.Contexts.Leases.{
  lease_count, lease_count-missing, lease_count-write-held, lease_count-notify_expired,
  lease_count-write, lease_count-prune, lease_count-write_found, lease_count-found,
}
use devmcp_runtime.Session.Contexts.Creation.{
  make_room, move_context, store_new, oldest_from, fresh_context, abandoned_by,
}
use devmcp_runtime.Session.Contexts.Claiming.{
  claim_mutation_workspace, rollback_existing_workspace_claim, rollback_mutation_workspace_claim,
  bind_workspace, restore_binding, Binding,
}
use devmcp_runtime.Session.Contexts.Invariant.{Inv, get-keyed, prune-Inv}
use devmcp_runtime.Session.Contexts.{
  Registry, release, lookup, retain, Context, Ref, get, held, prune, write,
}
use devmcp_runtime.Base.{
  ℕ, ◌+◌, ◌-◌, String, ◌≡◌, refl, ◌∙◌, inl, inr, true, false, ◌&&◌, none, List, arith, eq_iff,
  str_eq, if◌then◌else◌, Option-cases,
}

module _ (k : String) (s : Registry) (h : Inv s) where
  pub lease_count-lookup :
      (t0 t1 : ℕ) (j : String) → lease_count k (lookup t0 t1 j s).1 ≡ lease_count k s
  unfolding lookup
  lease_count-lookup t0 t1 j = elim (Option-cases (get j (prune t0 s).contexts)) [
    | inl e ↦ rw (e, lookup) (lease_count-prune t0 k s h)
    | inr (c, e) ↦
        let c' : Context = record c { last_seen = t1 } in
        rw (e, lookup)
          (lease_count-write_found j c c' k (prune t0 s) (prune-Inv t0 s h) e refl refl
            ∙ lease_count-prune t0 k s h)
  ]

  -- One lease more, if the context is still there after the sweep.
  pub lease_count-retain :
      (t0 t1 : ℕ) (j : String)
      → lease_count k (retain t0 t1 j s).1 ≡ (
          if str_eq j k && has j (prune t0 s).contexts
          then lease_count k s + 1
          else lease_count k s)
  unfolding retain
  lease_count-retain t0 t1 j = elim (Option-cases (get j (prune t0 s).contexts)) [
    | inl e ↦ rw (e, retain) (ground (arith, lease_count-prune t0 k s h))
    | inr (c, e) ↦
        let c' : Context = record c { leases = c.leases + 1; last_seen = t1 } in
        rw (e, retain)
          (ground (
            arith,
            lease_count-write c' k (prune t0 s),
            get-keyed j c (prune t0 s) (prune-Inv t0 s h) e,
            lease_count-found j c (prune t0 s) e,
            lease_count-prune t0 k s h,
            eq_iff j k,
          ))
  ]

  -- One lease less, and never below 0.
  pub lease_count-release :
      (t1 : ℕ) (j : String)
      → lease_count k (release t1 j s)
        ≡ (if str_eq j k then lease_count k s - 1 else lease_count k s)
  unfolding release
  lease_count-release t1 j = elim (Option-cases (get j s.contexts)) [
    | inl e ↦ rw (e, release) (ground (arith, lease_count-missing j s e, eq_iff j k))
    | inr (c, e) ↦
        let c' : Context = record c { leases = c.leases - 1; last_seen = t1 } in
        rw (e, release)
          (ground (
            arith,
            lease_count-write c' k s,
            get-keyed j c s h e,
            lease_count-found j c s e,
            eq_iff j k,
          ))
  ]

  pub lease_count-claim_mutation :
      (t0 t1 : ℕ) (r : Ref) → lease_count k (claim_mutation_workspace t0 t1 r s).1 ≡ lease_count k s
  unfolding claim_mutation_workspace
  lease_count-claim_mutation t0 t1 r = elim (Option-cases (held r (prune t0 s))) [
    | inl e ↦ rw (e, claim_mutation_workspace) (lease_count-prune t0 k s h)
    | inr (c, e) ↦
        let c' : Context = record c { mutation_workspace_claimed = true; last_seen = t1 } in
        rw (e, claim_mutation_workspace)
          (ground (
            arith,
            lease_count-write-held r c c' k (prune t0 s) (prune-Inv t0 s h) e refl refl,
            lease_count-prune t0 k s h,
          ))
  ]

  pub lease_count-rollback_mutation :
      (t1 : ℕ) (r : Ref)
      → lease_count k (rollback_mutation_workspace_claim t1 r s) ≡ lease_count k s
  unfolding rollback_mutation_workspace_claim
  lease_count-rollback_mutation t1 r = elim (Option-cases (held r s)) [
    | inl e ↦ rw (e, rollback_mutation_workspace_claim)
    | inr (c, e) ↦
        let c' : Context = record c { mutation_workspace_claimed = false; last_seen = t1 } in
        rw (e, rollback_mutation_workspace_claim)
          (ground (arith, lease_count-write-held r c c' k s h e refl refl))
  ]

  pub lease_count-bind_workspace :
      (t1 : ℕ) (r : Ref) (target cwd : String)
      → lease_count k (bind_workspace t1 r target cwd s).1 ≡ lease_count k s
  unfolding bind_workspace
  lease_count-bind_workspace t1 r target cwd = elim (Option-cases (held r s)) [
    | inl e ↦ rw (e, bind_workspace)
    | inr (c, e) ↦
        let c' : Context = record c {
          effective_workspace_root = target;
          default_cwd = cwd;
          mutation_workspace_claimed = true;
          last_seen = t1;
        } in
        rw (e, bind_workspace) (ground (arith, lease_count-write-held r c c' k s h e refl refl))
  ]

  pub lease_count-rollback_existing :
      (lax : String → String) (t1 : ℕ) (r : Ref) (expected : String) (old : Binding)
      → lease_count k (rollback_existing_workspace_claim lax t1 r expected old s) ≡ lease_count k s
  unfolding rollback_existing_workspace_claim restore_binding
  lease_count-rollback_existing lax t1 r expected (workspace, cwd, claimed) =
      elim (Option-cases (held r s)) [
        | inl e ↦ rw (e, rollback_existing_workspace_claim)
        | inr (c, e) ↦
            let c' : Context = record c {
              effective_workspace_root = workspace;
              default_cwd = cwd;
              mutation_workspace_claimed = claimed;
              last_seen = t1;
            } in
            rw (e, rollback_existing_workspace_claim)
              (ground (arith, lease_count-write-held r c c' k s h e refl refl))
      ]

  pub lease_count-move_context :
      (t1 t2 t3 : ℕ) (r : Ref) (roots : String × String × String)
      → lease_count k (move_context t1 t2 t3 r roots s) ≡ lease_count k s
  unfolding move_context
  lease_count-move_context t1 t2 t3 r (root, workspace, cwd) = elim (Option-cases (held r s)) [
    | inl e ↦ rw (e, move_context)
    | inr (c, e) ↦
        let c' : Context = record c {
          canonical_project_root = root;
          effective_workspace_root = workspace;
          default_cwd = cwd;
          last_seen = t3;
          mutation_workspace_claimed =
              if str_eq c.canonical_project_root root then c.mutation_workspace_claimed else false;
        } in
        rw (e, move_context)
          (lease_count-notify_expired (abandoned_by t1 t2 c root) k (write c' s)
            ∙ lease_count-write-held r c c' k s h e refl refl)
  ]

  -- What is evicted has no lease.
  pub lease_count-make_room : (limit : ℕ) → lease_count k (make_room limit s).1 ≡ lease_count k s
  unfolding make_room lease_count
  lease_count-make_room limit = elim (Option-cases (oldest_from none s.contexts)) [
    | inl e ↦ rw (e, make_room) (ground arith)
    | inr ((j, c), e) ↦
        rw (e, make_room)
          (ground (
            arith,
            get-pop j k s.contexts h.distinct,
            oldest_from_cases none s.contexts j c h.distinct e,
            eq_iff j k,
          ))
  ]

  pub lease_count-store_new :
      (t1 t2 : ℕ) (token : String) (l : List Context) (roots : String × String × String)
      → lease_count k (store_new t1 t2 token l roots s).1
        ≡ (if str_eq token k then 0 else lease_count k s)
  unfolding store_new
  lease_count-store_new t1 t2 token l roots =
      let c = fresh_context t1 t2 token s.next_oid roots in
      lease_count-notify_expired l k _
      ∙ (unfold lease_count in ground (arith, get-put token k c s.contexts))
