-- ===== src/Session/Contexts/Invariant.antt =====
-- The registry's invariant, and that every method keeps it, whether it returns or raises.
pub mod Creating
pub mod Claiming
use devmcp_runtime.Base.{
  ℕ, suc, ◌+◌, ◌-◌, ◌≤◌, ◌<◌, String, ◌≡◌, refl, sym, ap, subst, ◌⊎◌, inl, inr, Bool, true, false,
  Option, none, some, List, [], ◌∷◌, arith, eq_iff, ltb, leb, ◌==◌, str_eq, if◌then◌else◌, length,
  Result, ok, raised, bind, Bool-cases, if_both, bind_state, Option-cases,
}
use devmcp_runtime.Base.Dict.{Dict, get, put, pop, has, Distinct, Every}
use devmcp_runtime.Base.Dict.Laws.{
  get-put, length-put, length-pop, put-Distinct, pop-Distinct, Every-get, Every-put, Every-pop,
}
use devmcp_runtime.Session.Contexts.{
  Context, Ref, Registry, max_logical_contexts, notify_expired, stale, sweep, prune, held, write,
  lookup, retain, release, close, resolved,
}
use devmcp_runtime.Session.Contexts.Creation.{
  abandoned_by, oldest_from, make_room, store_new, move_context, create, update, resolve_three,
}
use devmcp_runtime.Session.Contexts.Claiming.{
  Binding, claim_mutation_workspace, rollback_mutation_workspace_claim, bind_workspace,
  restore_binding, claim_existing_workspace, rollback_existing_workspace_claim,
}
use devmcp_runtime.Session.Contexts.Eviction.{oldest_from_cases}
use devmcp_runtime.Session.Contexts.Laws.{
  sweep-Distinct, sweep-Every, length-sweep, contexts-prune, contexts-notify_expired, get-held,
}

-- The context stands under its own name.
abbrev pub KeyedBy : String → Context → Type 0
KeyedBy k c = c.context_id ≡ k

-- The keys are distinct and are the contexts' own names, and there are at most 512 contexts.
pub record Inv (s : Registry) : Type 0 where
  pub distinct : Distinct s.contexts
  pub keyed : Every KeyedBy s.contexts
  pub bounded : length s.contexts ≤ max_logical_contexts

-- `Inv` looks at the contexts alone.
pub Inv-of_eq : (s t : Registry) → s.contexts ≡ t.contexts → Inv t → Inv s
Inv-of_eq s t e h = record {
  distinct = subst Distinct (sym e) h.distinct;
  keyed = subst (Every KeyedBy) (sym e) h.keyed;
  bounded = rw e h.bounded;
}

pub notify_expired-Inv : (l : List Context) (s : Registry) → Inv s → Inv (notify_expired l s)
notify_expired-Inv l s h = Inv-of_eq (notify_expired l s) s (contexts-notify_expired l s) h

pub prune-Inv : (now : ℕ) (s : Registry) → Inv s → Inv (prune now s)
prune-Inv now s h = record {
  distinct = rw contexts-prune (sweep-Distinct (stale s.ttl_seconds now) s.contexts h.distinct);
  keyed = rw contexts-prune (sweep-Every (stale s.ttl_seconds now) KeyedBy s.contexts h.keyed);
  bounded =
      rw contexts-prune
        (omega (arith, length-sweep (stale s.ttl_seconds now) s.contexts, h.bounded));
}

-- A write to a context that is there.
pub write-Inv :
    (c c' : Context) (s : Registry)
    → Inv s
    → get c'.context_id s.contexts ≡ some c
    → Inv (write c' s)
unfolding write
write-Inv c c' s h e = record {
  distinct = put-Distinct c'.context_id c' s.contexts h.distinct;
  keyed = Every-put KeyedBy c'.context_id c' s.contexts h.keyed refl;
  bounded = ground (arith, length-put c'.context_id c' s.contexts, h.bounded);
}

-- A context read under a name has that name.
pub get-keyed :
    (k : String) (c : Context) (s : Registry) → Inv s → get k s.contexts ≡ some c → c.context_id ≡ k
get-keyed k c s h e = Every-get KeyedBy k s.contexts c h.keyed e

-- A write to a held context, whatever fields but its name it changes.
pub write-held-Inv :
    (r : Ref) (c c' : Context) (s : Registry)
    → Inv s
    → held r s ≡ some c
    → c'.context_id ≡ c.context_id
    → Inv (write c' s)
write-held-Inv r c c' s h e same =
    let found = get-held r s c e in
    write-Inv c c' s h (cc (same, get-keyed r.context_id c s h found, found))

pub write_found-Inv :
    (k : String) (c c' : Context) (s : Registry)
    → Inv s
    → get k s.contexts ≡ some c
    → c'.context_id ≡ c.context_id
    → Inv (write c' s)
write_found-Inv k c c' s h e same = write-Inv c c' s h (cc (same, get-keyed k c s h e, e))

pub lookup-Inv : (t0 t1 : ℕ) (k : String) (s : Registry) → Inv s → Inv (lookup t0 t1 k s).1
unfolding lookup
lookup-Inv t0 t1 k s h = elim (Option-cases (get k (prune t0 s).contexts)) [
  | inl e ↦ rw (e, lookup) (prune-Inv t0 s h)
  | inr (c, e) ↦
      rw (e, lookup)
        (write_found-Inv k c (record c { last_seen = t1 }) (prune t0 s) (prune-Inv t0 s h) e refl)
]

pub retain-Inv : (t0 t1 : ℕ) (k : String) (s : Registry) → Inv s → Inv (retain t0 t1 k s).1
unfolding retain
retain-Inv t0 t1 k s h = elim (Option-cases (get k (prune t0 s).contexts)) [
  | inl e ↦ rw (e, retain) (prune-Inv t0 s h)
  | inr (c, e) ↦
      let c' : Context = record c { leases = c.leases + 1; last_seen = t1 } in
      rw (e, retain) (write_found-Inv k c c' (prune t0 s) (prune-Inv t0 s h) e refl)
]

pub release-Inv : (t1 : ℕ) (k : String) (s : Registry) → Inv s → Inv (release t1 k s)
unfolding release
release-Inv t1 k s h = elim (Option-cases (get k s.contexts)) [
  | inl e ↦ rw (e, release) h
  | inr (c, e) ↦
      rw (e, release)
        (write_found-Inv k c (record c { leases = c.leases - 1; last_seen = t1 }) s h e refl)
]

pub close-Inv : (s : Registry) → Inv s → Inv (close s)
unfolding close
close-Inv s h =
    notify_expired-Inv _ (record s { contexts = [] })
      (record { distinct = tt; keyed = tt; bounded = omega arith })
