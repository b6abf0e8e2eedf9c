-- ===== src/Session/Contexts/Claims/Existing.antt =====
-- `claim_existing_workspace` and its rollback.
use devmcp_runtime.Session.Contexts.Laws.{get-held}
use devmcp_runtime.Session.Contexts.Claims.{
  Claims, get-write-held, get-write_other, rival_iff, any_value-false,
}
use devmcp_runtime.Base.Dict.{get}
use devmcp_runtime.Session.Contexts.Invariant.{Inv, prune-Inv, write-held-Inv, get-keyed}
use devmcp_runtime.Session.Contexts.{Context, Ref, Registry, held, prune, write, or_os_error}
use devmcp_runtime.Session.Contexts.Claiming.{
  bind_workspace, claim_existing_workspace, Binding, binding, any_value, rival,
  rollback_existing_workspace_claim, restore_binding,
}
use devmcp_runtime.Base.{
  ℕ, String, ◌≡◌, refl, sym, subst, ◌≢◌, true, false, ◌&&◌, Option, none, some, arith, eq_iff,
  str_eq, if◌then◌else◌, str_eq_self, Exception, Result, ok, raised, continue, subst₂,
}

-- What the locked part writes when it returns.
abbrev pub bound : Context → String → String → ℕ → Context
bound c target cwd t1 = record c {
  effective_workspace_root = target;
  default_cwd = cwd;
  mutation_workspace_claimed = true;
  last_seen = t1;
}

-- What a locked claim that returns has checked and has written.
pub record Bound (t1 : ℕ) (r : Ref) (target cwd : String) (s s' : Registry) (c : Context)
    : Type 0 where
  pub here : held r s ≡ some c
  pub calm :
      any_value (λ o. rival c o && str_eq o.effective_workspace_root target) s.contexts ≡ false
  pub own : (c.mutation_workspace_claimed ≡ true) → c.effective_workspace_root ≡ target
  pub written : s' ≡ write (bound c target cwd t1) s

bind_workspace-Bound :
    (t1 : ℕ) (r : Ref) (target cwd : String) (s s' : Registry) (old : Binding) (c : Context)
    → held r s ≡ some c
    → bind_workspace t1 r target cwd s ≡ (ok old, s')
    → Bound t1 r target cwd s s' c × (old ≡ binding c)
unfolding bind_workspace
bind_workspace-Bound t1 r target cwd s s' old c here e =
    ground (arith, eq_iff c.effective_workspace_root target)

-- A claim that raises changes nothing.
bind_workspace_raised :
    (t1 : ℕ) (r : Ref) (target cwd : String) (s : Registry) (x : Exception)
    → (bind_workspace t1 r target cwd s).0 ≡ raised x
    → (bind_workspace t1 r target cwd s).1 ≡ s
unfolding bind_workspace
bind_workspace_raised t1 r target cwd s x e = ground arith

-- `claim_existing_workspace` after the sweep, over what the two paths resolve to.
abbrev claim_over : ℕ → Ref → Option String → Option String → Registry → Result Binding × Registry
claim_over t1 r target cwd =
    continue (or_os_error target)
      (λ target'. continue (or_os_error cwd) (bind_workspace t1 r target'))

claim_over_raised :
    (t1 : ℕ) (r : Ref) (a b : Option String) (s : Registry) (x : Exception)
    → (claim_over t1 r a b s).0 ≡ raised x
    → (claim_over t1 r a b s).1 ≡ s
claim_over_raised t1 r none b s x e = refl
claim_over_raised t1 r (some target) none s x e = refl
claim_over_raised t1 r (some target) (some cwd) s x e = bind_workspace_raised t1 r target cwd s x e

claim_over_ok :
    (t1 : ℕ) (r : Ref) (a b : Option String) (s s' : Registry) (old : Binding)
    → claim_over t1 r a b s ≡ (ok old, s')
    → (target : String) × (cwd : String) × (a ≡ some target)
      × (b ≡ some cwd)
      × (bind_workspace t1 r target cwd s ≡ (ok old, s'))
claim_over_ok t1 r none b s s' old e = absurd (ground arith)
claim_over_ok t1 r (some target) none s s' old e = absurd (ground arith)
claim_over_ok t1 r (some target) (some cwd) s s' old e = (target, cwd, refl, refl, e)

rival_there :
    (c o : Context) (k j target : String)
    → c.context_id ≡ k
    → o.context_id ≡ j
    → k ≢ j
    → Claims o c.canonical_project_root
    → o.effective_workspace_root ≡ target
    → (rival c o && str_eq o.effective_workspace_root target) ≢ false
rival_there c o k j target ck oj other claims same =
    ground (arith, rival_iff c o k j ck oj other, eq_iff o.effective_workspace_root target)

held-write :
    (r : Ref) (s : Registry) (c c' : Context)
    → Inv s
    → held r s ≡ some c
    → c'.context_id ≡ c.context_id
    → c'.oid ≡ c.oid
    → held r (write c' s) ≡ some c'
unfolding held
held-write r s c c' h here name oid =
    ground (arith, get-write-held r s c c' r.context_id h here name, str_eq_self r.context_id)

rollback_write :
    (lax : String → String) (t1 t2 : ℕ) (r : Ref) (s : Registry) (c : Context)
    (target cwd expected j : String)
    → Inv s
    → held r s ≡ some c
    → target ≡ lax expected
    → get j
        (rollback_existing_workspace_claim lax t2 r expected
          (binding c)
          (write (bound c target cwd t1) s)).contexts
      ≡ (if str_eq r.context_id j then some (record c { last_seen = t2 }) else get j s.contexts)
unfolding rollback_existing_workspace_claim restore_binding
rollback_write lax t1 t2 r s c target cwd expected j h here same =
    let c' = bound c target cwd t1 in
    let now = held-write r s c c' h here refl refl in
    let kept = write-held-Inv r c c' s h here refl in
    let c'' : Context = record c { last_seen = t2 } in
    rw (now, rollback_existing_workspace_claim)
      (ground (
        arith,
        eq_iff target (lax expected),
        get-write-held r (write c' s) c' c'' j kept now refl,
        get-write-held r s c c' j h here refl,
      ))

module _ (resolve : String → Option String) (t0 t1 : ℕ) (r : Ref) (target cwd : String)
    (s : Registry) where
  -- A claim of an existing workspace that raises, for whatever reason, leaves the registry as the
  -- sweep before it did: no field of any context is half written.
  pub claim_existing_raised :
      (x : Exception)
      → (claim_existing_workspace resolve t0 t1 r target cwd s).0 ≡ raised x
      → (claim_existing_workspace resolve t0 t1 r target cwd s).1 ≡ prune t0 s
  unfolding claim_existing_workspace
  claim_existing_raised x e = claim_over_raised t1 r (resolve target) (resolve cwd) (prune t0 s) x e

  module _ (s' : Registry) (old : Binding) (c : Context) (h : Inv s)
      (here : held r (prune t0 s) ≡ some c)
      (claimed : claim_existing_workspace resolve t0 t1 r target cwd s ≡ (ok old, s')) where
    claim_existing-Bound :
        (target' : String) × (cwd' : String) × (resolve target ≡ some target')
        × (resolve cwd ≡ some cwd')
        × Bound t1 r target' cwd' (prune t0 s) s' c
        × (old ≡ binding c)
    unfolding claim_existing_workspace
    claim_existing-Bound =
        let (target', cwd', e, e', run) =
          claim_over_ok t1 r (resolve target) (resolve cwd) (prune t0 s) s' old claimed in
        let (b, o) = bind_workspace-Bound t1 r target' cwd' (prune t0 s) s' old c here run in
        (target', cwd', e, e', b, o)

    -- A registered context whose claim of an existing workspace returns owns it afterwards, at the
    -- resolved path, and is the only context of its project that claims that workspace.
    pub claim_existing_exclusive :
        (target' : String) × (cwd' : String) × (resolve target ≡ some target')
        × (get r.context_id s'.contexts ≡ some (bound c target' cwd' t1))
        × ((j : String) (o : Context)
            → r.context_id ≢ j
            → get j s'.contexts ≡ some o
            → Claims o c.canonical_project_root
            → o.effective_workspace_root ≢ target')
    claim_existing_exclusive =
        let (target', cwd', e, e', b, o) = claim_existing-Bound in
        let h' = prune-Inv t0 s h in
        let c' = bound c target' cwd' t1 in
        (
          target',
          cwd',
          e,
          rw (b.written, get-write-held r (prune t0 s) c c' r.context_id h' here refl, str_eq_self)
              refl,
          λ j o other found claims same.
              let found' =
                get-write_other r (prune t0 s) c c' j o h' here refl other
                  (subst (λ u. get j u.contexts ≡ some o) b.written found) in
              rival_there c o r.context_id j target'
                (get-keyed r.context_id c (prune t0 s) h' (get-held r (prune t0 s) c here))
                (get-keyed j o (prune t0 s) h' found') other claims same
                (any_value-false _ j o (prune t0 s).contexts b.calm found'),
        )

    -- Rolling such a claim back, at any later time and with nothing in between, gives the context
    -- its workspace, directory and claim back, keeps its leases and its project, and leaves every
    -- other context as it was: only the time at which it was last seen is new.
    pub rollback_claim_existing :
        (lax : String → String) (t2 : ℕ) (j : String)
        → resolve target ≡ some (lax target)
        → get j (rollback_existing_workspace_claim lax t2 r target old s').contexts ≡ (
            if str_eq r.context_id j
            then some (record c { last_seen = t2 })
            else get j (prune t0 s).contexts)
    rollback_claim_existing lax t2 j agree =
        let (target', cwd', e, e', b, o) = claim_existing-Bound in
        let same : target' ≡ lax target = cc (e, agree) in
        subst₂
          (λ u v. get j (rollback_existing_workspace_claim lax t2 r target v u).contexts ≡ (
            if str_eq r.context_id j
            then some (record c { last_seen = t2 })
            else get j (prune t0 s).contexts))
          (sym b.written) (sym o)
          (rollback_write lax t1 t2 r (prune t0 s) c target' cwd' target j (prune-Inv t0 s h) here
            same)
