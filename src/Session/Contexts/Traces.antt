-- ===== src/Session/Contexts/Traces.antt =====
-- Every sequence of calls of the registry's methods, in any order and with any arguments.
use devmcp_runtime.Base.Dict.{has}
use devmcp_runtime.Session.Contexts.Invariant.Claiming.{
  claim_mutation-Inv, rollback_mutation-Inv, claim_existing-Inv, rollback_existing-Inv,
}
use devmcp_runtime.Session.Contexts.Leases.Methods.{
  lease_count-lookup, lease_count-claim_mutation, lease_count-rollback_mutation,
  lease_count-rollback_existing, lease_count-retain, lease_count-release,
  lease_count-bind_workspace, lease_count-move_context, lease_count-make_room,
  lease_count-store_new,
}
use devmcp_runtime.Session.Contexts.Leases.{lease_count, lease_count-prune}
use devmcp_runtime.Session.Contexts.Invariant.Creating.{create-Inv, update-Inv, make_room-Inv}
use devmcp_runtime.Session.Contexts.Invariant.{
  Inv, lookup-Inv, prune-Inv, retain-Inv, release-Inv, close-Inv,
}
use devmcp_runtime.Session.Contexts.Claiming.{
  Binding, claim_mutation_workspace, rollback_mutation_workspace_claim, claim_existing_workspace,
  rollback_existing_workspace_claim, bind_workspace,
}
use devmcp_runtime.Session.Contexts.Creation.{
  create, update, resolve_three, make_room, move_to, store_new,
}
use devmcp_runtime.Session.Contexts.{
  Registry, Ref, lookup, retain, release, prune, resolved, close, max_logical_contexts,
}
use devmcp_runtime.Base.{
  ℕ, ◌+◌, ◌≤◌, ◌<◌, String, ◌≡◌, refl, ◌∙◌, ◌≢◌, true, Option, List, [], ◌∷◌, arith, eq_iff, str_eq,
  if◌then◌else◌, All, continue_state, bind_state,
}

pub data Op : Type 0 where
  create_op : ℕ → ℕ → ℕ → String → String → String → String → Op
  lookup_op : ℕ → ℕ → String → Op
  update_op : ℕ → ℕ → ℕ → Ref → String → String → String → Op
  claim_op : ℕ → ℕ → Ref → Op
  rollback_claim_op : ℕ → Ref → Op
  claim_existing_op : ℕ → ℕ → Ref → String → String → Op
  rollback_existing_op : ℕ → Ref → String → Binding → Op
  retain_op : ℕ → ℕ → String → Op
  release_op : ℕ → String → Op
  prune_op : ℕ → Op
  close_op : Op

-- How many of the calls release that context.
abbrev pub releases : String → List Op → ℕ
releases k [] = 0
releases k (release_op t j ∷ ops) = if str_eq j k then releases k ops + 1 else releases k ops
releases k (op ∷ ops) = releases k ops

-- Neither closes the registry nor hands the name out anew.
abbrev pub Spares : String → Op → Type 0
Spares k (create_op t0 t1 t2 token root workspace cwd) = token ≢ k
Spares k close_op = ⊥
Spares k op = Unit

module _ (resolve : String → Option String) (resolve_lax : String → String) where
  unfoldable pub apply : Op → Registry → Registry
  apply (create_op t0 t1 t2 token root workspace cwd) s =
      (create resolve max_logical_contexts t0 t1 t2 token root workspace cwd s).1
  apply (lookup_op t0 t1 k) s = (lookup t0 t1 k s).1
  apply (update_op t1 t2 t3 r root workspace cwd) s =
      (update resolve t1 t2 t3 r root workspace cwd s).1
  apply (claim_op t0 t1 r) s = (claim_mutation_workspace t0 t1 r s).1
  apply (rollback_claim_op t1 r) s = rollback_mutation_workspace_claim t1 r s
  apply (claim_existing_op t0 t1 r target cwd) s =
      (claim_existing_workspace resolve t0 t1 r target cwd s).1
  apply (rollback_existing_op t1 r expected old) s =
      rollback_existing_workspace_claim resolve_lax t1 r expected old s
  apply (retain_op t0 t1 k) s = (retain t0 t1 k s).1
  apply (release_op t1 k) s = release t1 k s
  apply (prune_op now) s = prune now s
  apply close_op s = close s

  unfoldable pub run : List Op → Registry → Registry
  run [] s = s
  run (op ∷ ops) s = run ops (apply op s)

  pub apply-Inv : (op : Op) (s : Registry) → Inv s → Inv (apply op s)
  unfolding apply
  apply-Inv (create_op t0 t1 t2 token root workspace cwd) s h =
      create-Inv resolve t0 t1 t2 token root workspace cwd s h
  apply-Inv (lookup_op t0 t1 k) s h = lookup-Inv t0 t1 k s h
  apply-Inv (update_op t1 t2 t3 r root workspace cwd) s h =
      update-Inv resolve t1 t2 t3 r root workspace cwd s h
  apply-Inv (claim_op t0 t1 r) s h = claim_mutation-Inv t0 t1 r s h
  apply-Inv (rollback_claim_op t1 r) s h = rollback_mutation-Inv t1 r s h
  apply-Inv (claim_existing_op t0 t1 r target cwd) s h =
      claim_existing-Inv resolve t0 t1 r target cwd s h
  apply-Inv (rollback_existing_op t1 r expected old) s h =
      rollback_existing-Inv resolve_lax t1 r expected old s h
  apply-Inv (retain_op t0 t1 k) s h = retain-Inv t0 t1 k s h
  apply-Inv (release_op t1 k) s h = release-Inv t1 k s h
  apply-Inv (prune_op now) s h = prune-Inv now s h
  apply-Inv close_op s h = close-Inv s h

  -- From a registry whose contexts have distinct keys, stand under their own names and are at most
  -- 512, every sequence of calls, whether they return or raise, leads to one of which this holds.
  pub run-Inv : (ops : List Op) (s : Registry) → Inv s → Inv (run ops s)
  unfolding run
  run-Inv [] s h = h
  run-Inv (op ∷ ops) s h = run-Inv ops (apply op s) (apply-Inv op s h)

  lease_count-create :
      (k : String) (t0 t1 t2 : ℕ) (token root workspace cwd : String) (s : Registry)
      → Inv s
      → token ≢ k
      → lease_count k (create resolve max_logical_contexts t0 t1 t2 token root workspace cwd s).1
        ≡ lease_count k s
  unfolding create
  lease_count-create k t0 t1 t2 token root workspace cwd s h other =
      let p = prune-Inv t0 s h in
      let (kept, room) = make_room-Inv (prune t0 s) p in
      let same : lease_count k (make_room max_logical_contexts (prune t0 s)).1 ≡ lease_count k s =
        lease_count-make_room k (prune t0 s) p max_logical_contexts ∙ lease_count-prune t0 k s h in
      bind_state (λ t. lease_count k t ≡ lease_count k s) (make_room max_logical_contexts) _
        (prune t0 s) same
        λ l e.
          continue_state (λ t. lease_count k t ≡ lease_count k s)
            (resolve_three resolve root workspace cwd) (store_new t1 t2 token l)
            (make_room max_logical_contexts (prune t0 s)).1 same
            λ roots _. ground (
              arith,
              lease_count-store_new k (make_room max_logical_contexts (prune t0 s)).1 kept t1 t2
                  token l roots,
              eq_iff token k,
              same,
            )

  lease_count-update :
      (k : String) (t1 t2 t3 : ℕ) (r : Ref) (root workspace cwd : String) (s : Registry)
      → Inv s
      → lease_count k (update resolve t1 t2 t3 r root workspace cwd s).1 ≡ lease_count k s
  unfolding update
  lease_count-update k t1 t2 t3 r root workspace cwd s h =
      continue_state (λ t. lease_count k t ≡ lease_count k s)
        (resolve_three resolve root workspace cwd) (move_to resolve t1 t2 t3 r) s refl
        λ roots _. lease_count-move_context k s h t1 t2 t3 r roots

  lease_count-claim_existing :
      (k : String) (t0 t1 : ℕ) (r : Ref) (target cwd : String) (s : Registry)
      → Inv s
      → lease_count k (claim_existing_workspace resolve t0 t1 r target cwd s).1 ≡ lease_count k s
  unfolding claim_existing_workspace
  lease_count-claim_existing k t0 t1 r target cwd s h =
      let same = lease_count-prune t0 k s h in
      continue_state (λ t. lease_count k t ≡ lease_count k s) (resolved resolve target) _
        (prune t0 s) same
        λ target' _.
          continue_state (λ t. lease_count k t ≡ lease_count k s) (resolved resolve cwd)
            (bind_workspace t1 r target') (prune t0 s) same
            λ cwd' _.
              lease_count-bind_workspace k (prune t0 s) (prune-Inv t0 s h) t1 r target' cwd' ∙ same

  -- No call but a release takes a lease away.
  pub apply-leases :
      (k : String) (op : Op) (ops : List Op) (s : Registry)
      → Inv s
      → Spares k op
      → lease_count k s + releases k ops ≤ lease_count k (apply op s) + releases k (op ∷ ops)
  unfolding apply
  apply-leases k (create_op t0 t1 t2 token root workspace cwd) ops s h other =
      omega (arith, lease_count-create k t0 t1 t2 token root workspace cwd s h other)
  apply-leases k (lookup_op t0 t1 j) ops s h _ = omega (arith, lease_count-lookup k s h t0 t1 j)
  apply-leases k (update_op t1 t2 t3 r root workspace cwd) ops s h _ =
      omega (arith, lease_count-update k t1 t2 t3 r root workspace cwd s h)
  apply-leases k (claim_op t0 t1 r) ops s h _ =
      omega (arith, lease_count-claim_mutation k s h t0 t1 r)
  apply-leases k (rollback_claim_op t1 r) ops s h _ =
      omega (arith, lease_count-rollback_mutation k s h t1 r)
  apply-leases k (claim_existing_op t0 t1 r target cwd) ops s h _ =
      omega (arith, lease_count-claim_existing k t0 t1 r target cwd s h)
  apply-leases k (rollback_existing_op t1 r expected old) ops s h _ =
      omega (arith, lease_count-rollback_existing k s h resolve_lax t1 r expected old)
  apply-leases k (retain_op t0 t1 j) ops s h _ = ground (arith, lease_count-retain k s h t0 t1 j)
  apply-leases k (release_op t1 j) ops s h _ = ground (arith, lease_count-release k s h t1 j)
  apply-leases k (prune_op now) ops s h _ = omega (arith, lease_count-prune now k s h)
  apply-leases k close_op ops s h other = absurd other

  -- What a sequence of calls leaves of a context's leases.
  run-leases :
      (k : String) (ops : List Op) (s : Registry)
      → Inv s
      → All (Spares k) ops
      → lease_count k s ≤ lease_count k (run ops s) + releases k ops
  unfolding run
  run-leases k [] s h spared = omega arith
  run-leases k (op ∷ ops) s h spared = omega (
    arith,
    apply-leases k op ops s h spared.0,
    run-leases k ops (apply op s) (apply-Inv op s h) spared.1,
  )

  pub has_of_leases : (k : String) (s : Registry) → 0 < lease_count k s → has k s.contexts ≡ true
  unfolding lease_count
  has_of_leases k s h = ground arith

  -- A context that has more leases than a sequence of calls releases is still registered after it,
  -- whatever sweeps, evictions and claims the sequence makes, if it neither closes the registry nor
  -- hands out the context's name again.
  pub run-keeps_leased :
      (k : String) (ops : List Op) (s : Registry)
      → Inv s
      → All (Spares k) ops
      → releases k ops < lease_count k s
      → has k (run ops s).contexts ≡ true
  run-keeps_leased k ops s h spared more =
      has_of_leases k (run ops s) (omega (arith, run-leases k ops s h spared))
