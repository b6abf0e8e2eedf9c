-- ===== src/Session/Contexts/Invariant/Creating.antt =====
-- `create` and `update` keep the invariant: an eviction makes room before a context is stored.
use devmcp_runtime.Base.{
  ℕ, ◌+◌, ◌<◌, String, ◌≡◌, refl, ◌⊎◌, inl, inr, false, Option, none, some, List, arith, leb,
  str_eq, if◌then◌else◌, length, ok, Bool-cases, bind_state, continue_state, Option-cases,
}
use devmcp_runtime.Base.Dict.{get, put, pop}
use devmcp_runtime.Base.Dict.Laws.{
  length-put, length-pop, put-Distinct, pop-Distinct, Every-put, Every-pop,
}
use devmcp_runtime.Session.Contexts.{
  Context, Ref, Registry, max_logical_contexts, prune, held, write,
}
use devmcp_runtime.Session.Contexts.Creation.{
  abandoned_by, fresh_context, oldest_from, make_room, store_new, move_context, create, update,
  resolve_three, move_to,
}
use devmcp_runtime.Session.Contexts.Eviction.{oldest_from_cases}
use devmcp_runtime.Session.Contexts.Invariant.{
  KeyedBy, Inv, notify_expired-Inv, prune-Inv, write-held-Inv,
}

move_context-Inv :
    (t1 t2 t3 : ℕ) (r : Ref) (roots : String × String × String) (s : Registry)
    → Inv s
    → Inv (move_context t1 t2 t3 r roots s)
unfolding move_context
move_context-Inv t1 t2 t3 r (root, workspace, cwd) s h = elim (Option-cases (held r s)) [
  | inl e ↦ rw (e, move_context) h
  | inr (c, e) ↦
      let c' : Context = record c {
        canonical_project_root = root;
        effective_workspace_root = workspace;
        default_cwd = cwd;
        last_seen = t3;
        mutation_workspace_claimed =
            if str_eq c.canonical_project_root root then c.mutation_workspace_claimed else false;
      } in
      rw (e, move_context)
        (notify_expired-Inv (abandoned_by t1 t2 c root) (write c' s)
          (write-held-Inv r c c' s h e refl))
]

-- A pop of a key that is there leaves room.
pop-Inv :
    (k : String) (c : Context) (s : Registry)
    → Inv s
    → get k s.contexts ≡ some c
    → Inv (record s { contexts = pop k s.contexts })
      × (length (pop k s.contexts) < max_logical_contexts)
pop-Inv k c s h e =
    let shorter : length (pop k s.contexts) < max_logical_contexts =
      ground (arith, length-pop k s.contexts, h.bounded) in
    (
      record {
        distinct = pop-Distinct k s.contexts h.distinct;
        keyed = Every-pop KeyedBy k s.contexts h.keyed;
        bounded = omega (arith, shorter);
      },
      shorter,
    )

popped_found :
    (k : String) (c : Context) (s : Registry)
    → (◌≡◌ {A = Option (String × Context)} none (some (k, c)))
      ⊎ ((get k s.contexts ≡ some c) × (c.leases ≡ 0))
    → get k s.contexts ≡ some c
popped_found k c s found = ground arith

-- After `make_room` the invariant holds, and where it returns there is room for one context.
pub make_room-Inv :
    (s : Registry)
    → Inv s
    → Inv (make_room max_logical_contexts s).1
      × ((l : List Context)
          → (make_room max_logical_contexts s).0 ≡ ok l
          → length (make_room max_logical_contexts s).1.contexts < max_logical_contexts)
unfolding make_room
make_room-Inv s h = elim (Bool-cases (leb max_logical_contexts (length s.contexts))) [
  | inr below ↦ rw (below, make_room) (h, λ l e. ground arith)
  | inl full ↦ elim (Option-cases (oldest_from none s.contexts)) [
    | inl e ↦ rw (full, e, make_room) (h, λ l e. cc)
    | inr ((k, c), e) ↦
        let found = oldest_from_cases none s.contexts k c h.distinct e in
        let popped = pop-Inv k c s h (popped_found k c s found) in
        rw (full, e, make_room) (popped.0, λ l _. popped.1)
  ]
]

store_new-Inv :
    (t1 t2 : ℕ) (token : String) (l : List Context) (roots : String × String × String)
    (s : Registry)
    → Inv s
    → length s.contexts < max_logical_contexts
    → Inv (store_new t1 t2 token l roots s).1
unfolding store_new
store_new-Inv t1 t2 token l roots s h room =
    let c = fresh_context t1 t2 token s.next_oid roots in
    let s' : Registry = record s { contexts = put token c s.contexts; next_oid = s.next_oid + 1 } in
    notify_expired-Inv l s' (record {
      distinct = put-Distinct token c s.contexts h.distinct;
      keyed = Every-put KeyedBy token c s.contexts h.keyed refl;
      bounded = ground (arith, length-put token c s.contexts);
    })

module _ (resolve : String → Option String) where
  pub create-Inv :
      (t0 t1 t2 : ℕ) (token root workspace cwd : String) (s : Registry)
      → Inv s
      → Inv (create resolve max_logical_contexts t0 t1 t2 token root workspace cwd s).1
  unfolding create
  create-Inv t0 t1 t2 token root workspace cwd s h =
      let (kept, room) = make_room-Inv (prune t0 s) (prune-Inv t0 s h) in
      bind_state Inv (make_room max_logical_contexts) _ (prune t0 s) kept λ l e.
        continue_state Inv (resolve_three resolve root workspace cwd) (store_new t1 t2 token l)
          (make_room max_logical_contexts (prune t0 s)).1 kept
          λ roots _.
            store_new-Inv t1 t2 token l roots (make_room max_logical_contexts (prune t0 s)).1 kept
              (room l e)

  pub update-Inv :
      (t1 t2 t3 : ℕ) (r : Ref) (root workspace cwd : String) (s : Registry)
      → Inv s
      → Inv (update resolve t1 t2 t3 r root workspace cwd s).1
  unfolding update
  update-Inv t1 t2 t3 r root workspace cwd s h =
      continue_state Inv (resolve_three resolve root workspace cwd) (move_to resolve t1 t2 t3 r) s h
        λ roots _. move_context-Inv t1 t2 t3 r roots s h
