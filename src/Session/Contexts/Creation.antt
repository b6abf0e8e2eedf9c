-- ===== src/Session/Contexts/Creation.antt =====
-- `create` and `update` of `LogicalContextRegistry` (coding_tools_mcp/session_state.py).
pub mod Room
use devmcp_runtime.Base.{
  ℕ, ◌+◌, String, true, false, not, ◌&&◌, Option, none, some, List, [], ◌∷◌, ltb, leb, ◌==◌, str_eq,
  if◌then◌else◌, length, runtime_error, Result, ok, raised, Exec, bind, continue, ◌>>=◌, zero, suc,
  ◌-◌, ◌*◌, ◌/◌, ◌%◌, ◌≤◌, ◌<◌, min, max, ◌≡◌, refl, sym, ap, ◌∙◌, subst, subst₂, fun_ext, ◌≢◌, ◌↔◌,
  ◌⊎◌, inl, inr, Bool, ◌||◌, ◌++◌, map, arith, eq_iff, ltb→lt, lt→ltb, leb→le, str_eq_self,
  str_eq_ne, Bool-cases, Option-cases, if_both, take, drop, any, all, keep_if, All, length-append,
  take-append-drop, length-take, length-drop, length-keep_if, Exception, tool_failure, value_error,
  file_exists_error, os_error, ◌>>◌, guard, pure, raise, continue_state, bind_state, sequence_ok,
}
use devmcp_runtime.Base.Dict.{Dict, put, pop}
use devmcp_runtime.Session.Contexts.{
  Context, Ref, Registry, max_logical_contexts, notify_expired, prune, held, write, resolved,
}

-- `min(evictable, key=last_seen)`: the first of the least, among the contexts with no lease.
unfoldable pub older : Option (String × Context) → String → Context → Option (String × Context)
older none k c = some (k, c)
older (some (j, best)) k c = if ltb c.last_seen best.last_seen then some (k, c) else some (j, best)

unfoldable pub oldest_from : Option (String × Context) → Dict Context → Option (String × Context)
unfolding older
oldest_from best [] = best
oldest_from best ((k, c) ∷ d) = oldest_from (if c.leases == 0 then older best k c else best) d

-- `limit` is `MAX_LOGICAL_CONTEXTS`.
-- What `create` does to make room: nothing below the limit, else it pops the least recently seen
-- context with no lease.
unfoldable pub make_room : ℕ → Exec Registry (List Context)
make_room limit s =
    if leb limit (length s.contexts)
    then elim (oldest_from none s.contexts) [
      | none ↦ (raised (runtime_error "maximum leased logical-context count reached"), s)
      | some (k, c) ↦ (ok (c ∷ []), record s { contexts = pop k s.contexts })
    ]
    else (ok [], s)

-- The object is made and stored; `t1` and `t2` are the defaults of its two clock fields.
abbrev pub fresh_context : ℕ → ℕ → String → ℕ → String × String × String → Context
fresh_context t1 t2 token oid (root, workspace, cwd) = record {
  context_id = token;
  oid = oid;
  canonical_project_root = root;
  effective_workspace_root = workspace;
  default_cwd = cwd;
  created_at = t1;
  last_seen = t2;
  leases = 0;
  mutation_workspace_claimed = false;
}

unfoldable pub store_new :
    ℕ → ℕ → String → List Context → String × String × String → Exec Registry Context
store_new t1 t2 token evicted roots s =
    let c = fresh_context t1 t2 token s.next_oid roots in
    let s' : Registry = record s { contexts = put token c s.contexts; next_oid = s.next_oid + 1 } in
    (ok c, notify_expired evicted s')

-- The copy of a context that `update` hands to the callback when an isolated workspace is left.
abbrev pub abandoned : ℕ → ℕ → Context → Context
abandoned t1 t2 c = record c {
  created_at = t1;
  last_seen = t2;
  leases = 0;
  mutation_workspace_claimed = true;
}

abbrev pub abandoned_by : ℕ → ℕ → Context → String → List Context
abandoned_by t1 t2 c root =
    if not (str_eq c.canonical_project_root root)
      && not (str_eq c.effective_workspace_root c.canonical_project_root)
    then abandoned t1 t2 c ∷ []
    else []

-- The locked part of `update`, over resolved paths, and the notice after it.
unfoldable pub move_context : ℕ → ℕ → ℕ → Ref → String × String × String → Registry → Registry
move_context t1 t2 t3 r (root, workspace, cwd) s = elim (held r s) [
  | none ↦ s
  | some c ↦ notify_expired (abandoned_by t1 t2 c root) (
      write
        (record c {
          canonical_project_root = root;
          effective_workspace_root = workspace;
          default_cwd = cwd;
          last_seen = t3;
          mutation_workspace_claimed =
              if str_eq c.canonical_project_root root then c.mutation_workspace_claimed else false;
        })
        s)
]

module _ (resolve : String → Option String) where
  -- Three paths, in the order of the source.
  unfoldable pub resolve_three : String → String → String → Result (String × String × String)
  resolve_three a b c = do
    a' ← resolved resolve a
    b' ← resolved resolve b
    c' ← resolved resolve c
    ok (a', b', c')

  -- The paths are resolved after the eviction, as in the source.
  unfoldable pub create : ℕ → ℕ → ℕ → ℕ → String → String → String → String → Exec Registry Context
  create limit t0 t1 t2 token root workspace cwd s =
      bind (make_room limit)
        (λ evicted. continue (resolve_three root workspace cwd) (store_new t1 t2 token evicted))
        (prune t0 s)

  abbrev pub move_to : ℕ → ℕ → ℕ → Ref → String × String × String → Exec Registry (Unit {0})
  move_to t1 t2 t3 r roots s = (ok tt, move_context t1 t2 t3 r roots s)

  unfoldable pub update : ℕ → ℕ → ℕ → Ref → String → String → String → Exec Registry (Unit {0})
  update t1 t2 t3 r root workspace cwd =
      continue (resolve_three root workspace cwd) (move_to t1 t2 t3 r)
