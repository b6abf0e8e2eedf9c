-- ===== src/Session/Contexts/Invariant/Claiming.antt =====
-- The claims of a workspace keep the invariant.
use devmcp_runtime.Base.{
  ℕ, String, refl, inl, inr, Bool, true, false, Option, arith, Result, if_both, continue_state,
  Option-cases,
}
use devmcp_runtime.Session.Contexts.{Context, Ref, Registry, prune, held, resolved}
use devmcp_runtime.Session.Contexts.Claiming.{
  Binding, claim_mutation_workspace, rollback_mutation_workspace_claim, bind_workspace,
  restore_binding, claim_existing_workspace, rollback_existing_workspace_claim,
}
use devmcp_runtime.Session.Contexts.Invariant.{Inv, prune-Inv, write-held-Inv}

pub claim_mutation-Inv :
    (t0 t1 : ℕ) (r : Ref) (s : Registry) → Inv s → Inv (claim_mutation_workspace t0 t1 r s).1
unfolding claim_mutation_workspace
claim_mutation-Inv t0 t1 r s h = elim (Option-cases (held r (prune t0 s))) [
  | inl e ↦ rw (e, claim_mutation_workspace) (prune-Inv t0 s h)
  | inr (c, e) ↦
      let c' : Context = record c { mutation_workspace_claimed = true; last_seen = t1 } in
      let kept = prune-Inv t0 s h in
      rw (e, claim_mutation_workspace)
        (if_both (λ (m : Result Bool × Registry). Inv m.1) c.mutation_workspace_claimed kept
          (write-held-Inv r c c' (prune t0 s) kept e refl))
]

pub rollback_mutation-Inv :
    (t1 : ℕ) (r : Ref) (s : Registry) → Inv s → Inv (rollback_mutation_workspace_claim t1 r s)
unfolding rollback_mutation_workspace_claim
rollback_mutation-Inv t1 r s h = elim (Option-cases (held r s)) [
  | inl e ↦ rw (e, rollback_mutation_workspace_claim) h
  | inr (c, e) ↦
      let c' : Context = record c { mutation_workspace_claimed = false; last_seen = t1 } in
      rw (e, rollback_mutation_workspace_claim) (if_both Inv _ (write-held-Inv r c c' s h e refl) h)
]

bind_workspace-Inv :
    (t1 : ℕ) (r : Ref) (target cwd : String) (s : Registry)
    → Inv s
    → Inv (bind_workspace t1 r target cwd s).1
unfolding bind_workspace
bind_workspace-Inv t1 r target cwd s h = elim (Option-cases (held r s)) [
  | inl e ↦ rw (e, bind_workspace) h
  | inr (c, e) ↦
      let c' : Context = record c {
        effective_workspace_root = target;
        default_cwd = cwd;
        mutation_workspace_claimed = true;
        last_seen = t1;
      } in
      rw (e, bind_workspace) (ground (arith, h, write-held-Inv r c c' s h e refl))
]

pub rollback_existing-Inv :
    (lax : String → String) (t1 : ℕ) (r : Ref) (expected : String) (old : Binding) (s : Registry)
    → Inv s
    → Inv (rollback_existing_workspace_claim lax t1 r expected old s)
unfolding rollback_existing_workspace_claim restore_binding
rollback_existing-Inv lax t1 r expected (workspace, cwd, claimed) s h =
    elim (Option-cases (held r s)) [
      | inl e ↦ rw (e, rollback_existing_workspace_claim) h
      | inr (c, e) ↦
          let c' : Context = record c {
            effective_workspace_root = workspace;
            default_cwd = cwd;
            mutation_workspace_claimed = claimed;
            last_seen = t1;
          } in
          rw (e, rollback_existing_workspace_claim)
            (if_both Inv _ (write-held-Inv r c c' s h e refl) h)
    ]

module _ (resolve : String → Option String) where
  pub claim_existing-Inv :
      (t0 t1 : ℕ) (r : Ref) (target cwd : String) (s : Registry)
      → Inv s
      → Inv (claim_existing_workspace resolve t0 t1 r target cwd s).1
  unfolding claim_existing_workspace
  claim_existing-Inv t0 t1 r target cwd s h =
      let kept = prune-Inv t0 s h in
      continue_state Inv (resolved resolve target) _ (prune t0 s) kept λ target' _.
        continue_state Inv (resolved resolve cwd) (bind_workspace t1 r target') (prune t0 s) kept
          λ cwd' _. bind_workspace-Inv t1 r target' cwd' (prune t0 s) kept
