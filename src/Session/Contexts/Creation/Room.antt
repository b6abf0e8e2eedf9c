-- ===== src/Session/Contexts/Creation/Room.antt =====
-- How `create` makes room.
use devmcp_runtime.Base.Dict.Laws.{get-pop}
use devmcp_runtime.Session.Contexts.Eviction.{
  oldest_from-least, oldest_from-none, oldest_from_cases,
}
use devmcp_runtime.Base.Dict.{get, pop}
use devmcp_runtime.Session.Contexts.Creation.{make_room, create, oldest_from, resolve_three}
use devmcp_runtime.Session.Contexts.Invariant.{Inv, prune-Inv, get-keyed}
use devmcp_runtime.Session.Contexts.{Registry, Context, prune}
use devmcp_runtime.Base.{
  ℕ, ◌≤◌, ◌<◌, String, ◌≡◌, refl, ◌↔◌, inl, inr, Option, none, some, [], ◌∷◌, arith, str_eq,
  if◌then◌else◌, str_eq_self, Option-cases, length, runtime_error, os_error, ok, raised, ◌⊎◌,
}

evicted_entry :
    (limit : ℕ) (s s' : Registry) (k : String) (c : Context)
    → Inv s
    → get k s.contexts ≡ some c
    → make_room limit s ≡ (ok (c ∷ []), s')
    → (oldest_from none s.contexts ≡ some (k, c)) × (s' ≡ record s { contexts = pop k s.contexts })
unfolding make_room
evicted_entry limit s s' k c h found e = elim (Option-cases (oldest_from none s.contexts)) [
  | inl nothing ↦ absurd (ground arith)
  | inr ((j, x), some_oldest) ↦ ground (
    arith,
    oldest_from_cases none s.contexts j x h.distinct some_oldest,
    get-keyed k c s h found,
    get-keyed j x s h,
  )
]

lease_free :
    (k : String) (c : Context) (s : Registry)
    → Inv s
    → oldest_from none s.contexts ≡ some (k, c)
    → c.leases ≡ 0
lease_free k c s h least = ground (arith, oldest_from_cases none s.contexts k c h.distinct)

-- What `create` evicts at the limit had no lease, and no registered context without a lease was
-- seen before it; it is gone from the registry, and every other context is still there.
pub make_room-lru :
    (limit : ℕ) (s s' : Registry) (k : String) (c : Context)
    → Inv s
    → get k s.contexts ≡ some c
    → make_room limit s ≡ (ok (c ∷ []), s')
    → (c.leases ≡ 0)
      × ((j : String) (x : Context)
          → get j s.contexts ≡ some x
          → x.leases ≡ 0
          → c.last_seen ≤ x.last_seen)
      × ((j : String) → get j s'.contexts ≡ (if str_eq k j then none else get j s.contexts))
make_room-lru limit s s' k c h found e =
    let (least, gone) = evicted_entry limit s s' k c h found e in
    (
      lease_free k c s h least,
      λ j x there free. oldest_from-least none s.contexts k c j x least there free,
      λ j. rw gone (get-pop k j s.contexts h.distinct),
    )

full_lem :
    (limit : ℕ) (s : Registry)
    → (make_room limit s).0 ≡ raised (runtime_error "maximum leased logical-context count reached")
    → (limit ≤ length s.contexts) × (oldest_from none s.contexts ≡ none)
unfolding make_room
full_lem limit s e = ground arith

no_room :
    (limit : ℕ) (s : Registry)
    → limit ≤ length s.contexts
    → oldest_from none s.contexts ≡ none
    → (make_room limit s).0 ≡ raised (runtime_error "maximum leased logical-context count reached")
unfolding make_room
no_room limit s full nothing = ground arith

all_leased :
    (s : Registry)
    → Inv s
    → ((j : String) (x : Context) → get j s.contexts ≡ some x → 0 < x.leases)
    → oldest_from none s.contexts ≡ none
all_leased s h leased = elim (Option-cases (oldest_from none s.contexts)) [
  | inl nothing ↦ nothing
  | inr ((k, c), e) ↦
      absurd (ground (arith, oldest_from_cases none s.contexts k c h.distinct e, leased k c))
]

-- `create` has no room exactly when the limit is reached and every one of them has a lease.
pub make_room-raised_iff :
    (limit : ℕ) (s : Registry)
    → Inv s
    → ((make_room limit s).0
        ≡ raised (runtime_error "maximum leased logical-context count reached"))
      ↔ ((limit ≤ length s.contexts)
          × ((j : String) (x : Context) → get j s.contexts ≡ some x → 0 < x.leases))
make_room-raised_iff limit s h = (
  λ e.
      let (full, nothing) = full_lem limit s e in
      (full, λ j x there. oldest_from-none s.contexts j x nothing there),
  λ full. no_room limit s full.0 (all_leased s h full.1),
)

-- One of the three paths of a new context does not resolve.
abbrev pub Unresolved : (String → Option String) → String → String → String → Type 0
Unresolved resolve root workspace cwd =
    (resolve root ≡ none) ⊎ ((resolve workspace ≡ none) ⊎ (resolve cwd ≡ none))

resolve_three_refused :
    (resolve : String → Option String) (root workspace cwd : String)
    → Unresolved resolve root workspace cwd
    → resolve_three resolve root workspace cwd ≡ raised os_error
unfolding resolve_three
resolve_three_refused resolve root workspace cwd h = ground (arith, h)

create_lost :
    (resolve : String → Option String) (t0 t1 t2 : ℕ) (token root workspace cwd : String)
    (limit : ℕ) (s s' : Registry) (c : Context)
    → make_room limit (prune t0 s) ≡ (ok (c ∷ []), s')
    → Unresolved resolve root workspace cwd
    → create resolve limit t0 t1 t2 token root workspace cwd s ≡ (raised os_error, s')
unfolding create
create_lost resolve t0 t1 t2 token root workspace cwd limit s s' c e missing =
    rw (e, create) (rw (resolve_three_refused resolve root workspace cwd missing) refl)

-- Where any of the three paths of the new context does not resolve after an eviction made room,
-- `create` raises; the evicted context is no longer registered, and the callback is not told of it.
pub create_unnotified :
    (resolve : String → Option String) (t0 t1 t2 : ℕ) (token root workspace cwd k : String)
    (limit : ℕ) (s s' : Registry) (c : Context)
    → Inv s
    → get k (prune t0 s).contexts ≡ some c
    → make_room limit (prune t0 s) ≡ (ok (c ∷ []), s')
    → Unresolved resolve root workspace cwd
    → ((create resolve limit t0 t1 t2 token root workspace cwd s).0 ≡ raised os_error)
      × (get k (create resolve limit t0 t1 t2 token root workspace cwd s).1.contexts ≡ none)
      × ((create resolve limit t0 t1 t2 token root workspace cwd s).1.expired
          ≡ (prune t0 s).expired)
create_unnotified resolve t0 t1 t2 token root workspace cwd k limit s s' c h found e missing =
    let (least, gone) = evicted_entry limit (prune t0 s) s' k c (prune-Inv t0 s h) found e in
    rw (create_lost resolve t0 t1 t2 token root workspace cwd limit s s' c e missing) (
      rw gone (
        refl,
        rw (get-pop k k (prune t0 s).contexts (prune-Inv t0 s h).distinct, str_eq_self) refl,
        refl,
      ))
