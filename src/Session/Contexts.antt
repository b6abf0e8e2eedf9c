-- ===== src/Session/Contexts.antt =====
-- `LogicalContextState` and `LogicalContextRegistry` of coding_tools_mcp/session_state.py.
-- A clock reading of `time.monotonic()` is an argument, in whole ticks: `t0` the one that `prune`
-- takes, `t1` the one that is stored. Each method is one step. In the code `prune` takes the lock for
-- itself before the rest of a method does; what another thread does in between is not modelled.
pub mod Creation
pub mod Claiming
pub mod Laws
pub mod Invariant
pub mod Eviction
pub mod Leases
pub mod Claims
pub mod Traces
mod Tests
use devmcp_runtime.Base.{
  ℕ, suc, ◌+◌, ◌-◌, String, Bool, true, false, not, ◌&&◌, ◌||◌, Option, none, some, List, [], ◌∷◌,
  ◌++◌, ltb, leb, ◌==◌, str_eq, if◌then◌else◌, length, Exception, runtime_error, value_error,
  file_exists_error, os_error, Result, ok, raised, Exec, bind, ◌>>=◌, zero, ◌*◌, ◌/◌, ◌%◌, ◌≤◌, ◌<◌,
  min, max, ◌≡◌, refl, sym, ap, ◌∙◌, subst, fun_ext, ◌≢◌, ◌↔◌, ◌⊎◌, inl, inr, map, arith, eq_iff,
  ltb→lt, lt→ltb, leb→le, str_eq_self, str_eq_ne, Bool-cases, Option-cases, if_both, take, drop,
  any, all, keep_if, All, length-append, take-append-drop, length-take, length-drop, length-keep_if,
  tool_failure, ◌>>◌, guard, pure, raise, continue, continue_state, bind_state,
}
use devmcp_runtime.Base.Dict
use devmcp_runtime.Base.Dict.{Dict, get, put, pop}

abbrev pub max_logical_contexts : ℕ
max_logical_contexts = 512

pub record Context : Type 0 where
  pub context_id : String
  pub oid : ℕ  -- which object it is, among those made with this `context_id`
  pub canonical_project_root : String
  pub effective_workspace_root : String
  pub default_cwd : String
  pub created_at : ℕ
  pub last_seen : ℕ
  pub leases : ℕ
  pub mutation_workspace_claimed : Bool

-- A reference that a client holds. The fields of its object are read only where the registry still
-- holds it (`current is state`).
pub record Ref : Type 0 where
  pub context_id : String
  pub oid : ℕ

pub record Registry : Type 0 where
  pub ttl_seconds : ℕ
  pub has_callback : Bool  -- `self._on_expire is not None`
  pub contexts : Dict Context
  pub expired : List Context  -- the calls of the callback, oldest first
  pub next_oid : ℕ

abbrev pub new : ℕ → Bool → Registry
new ttl has_callback = record {
  ttl_seconds = ttl;
  has_callback = has_callback;
  contexts = [];
  expired = [];
  next_oid = 0;
}

-- An exception of the callback is swallowed, so only the calls show.
unfoldable pub notify_expired : List Context → Registry → Registry
notify_expired states s = if s.has_callback then record s { expired = s.expired ++ states } else s

-- `state.leases == 0 and state.last_seen < cutoff`, with `cutoff = now - ttl_seconds`
unfoldable pub stale : ℕ → ℕ → Context → Bool
stale ttl now c = c.leases == 0 && ltb (c.last_seen + ttl) now

-- The entries that a sweep keeps, and the contexts that it pops.
unfoldable pub sweep : (Context → Bool) → Dict Context → Dict Context × List Context
sweep gone [] = ([], [])
sweep gone ((k, c) ∷ d) =
    let (kept, popped) = sweep gone d in
    if gone c then (kept, c ∷ popped) else ((k, c) ∷ kept, popped)

unfoldable pub prune : ℕ → Registry → Registry
prune now s =
    let (kept, popped) = sweep (stale s.ttl_seconds now) s.contexts in
    notify_expired popped (record s { contexts = kept })

-- The object that a reference names, if the registry still holds it: `current is state`.
unfoldable pub held : Ref → Registry → Option Context
held r s = elim (get r.context_id s.contexts) [
  | none ↦ none
  | some c ↦ if c.oid == r.oid then some c else none
]

-- A field of a registered object is assigned: the dict holds the object itself.
unfoldable pub write : Context → Registry → Registry
write c s = record s { contexts = put c.context_id c s.contexts }

unfoldable pub lookup : ℕ → ℕ → String → Registry → Option Context × Registry
lookup t0 t1 context_id s =
    let s' = prune t0 s in
    elim (get context_id s'.contexts) [
      | none ↦ (none, s')
      | some c ↦ let c' = record c { last_seen = t1 } in (some c', write c' s')
    ]

unfoldable pub retain : ℕ → ℕ → String → Registry → Option Context × Registry
retain t0 t1 context_id s =
    let s' = prune t0 s in
    elim (get context_id s'.contexts) [
      | none ↦ (none, s')
      | some c ↦
          let c' = record c { leases = c.leases + 1; last_seen = t1 } in (some c', write c' s')
    ]

-- `max(0, state.leases - 1)` is the truncated subtraction.
unfoldable pub release : ℕ → String → Registry → Registry
release t1 context_id s = elim (get context_id s.contexts) [
  | none ↦ s
  | some c ↦ write (record c { leases = c.leases - 1; last_seen = t1 }) s
]

abbrev values : Dict Context → List Context
values [] = []
values ((k, c) ∷ d) = c ∷ values d

unfoldable pub close : Registry → Registry
close s = notify_expired (values s.contexts) (record s { contexts = [] })

-- `path.resolve(strict=True)` reads the file system: `none` where it raises an `OSError`.
abbrev pub or_os_error : Option String → Result String
or_os_error none = raised os_error
or_os_error (some q) = ok q

abbrev pub resolved : (String → Option String) → String → Result String
resolved resolve p = or_os_error (resolve p)
