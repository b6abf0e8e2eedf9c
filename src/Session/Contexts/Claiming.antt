-- ===== src/Session/Contexts/Claiming.antt =====
-- The workspace claims of `LogicalContextRegistry` (coding_tools_mcp/session_state.py).
use devmcp_runtime.Base.{
  ℕ, String, Bool, true, false, not, ◌&&◌, ◌||◌, Option, none, some, [], ◌∷◌, ◌==◌, str_eq,
  if◌then◌else◌, runtime_error, value_error, file_exists_error, ok, raised, Exec, continue,
}
use devmcp_runtime.Base.Dict.{Dict}
use devmcp_runtime.Session.Contexts.{Context, Ref, Registry, prune, held, write, resolved}

-- `other is not state and other.mutation_workspace_claimed and
-- other.canonical_project_root == state.canonical_project_root`
unfoldable pub rival : Context → Context → Bool
rival c other =
    not (str_eq other.context_id c.context_id && other.oid == c.oid)
    && other.mutation_workspace_claimed
    && str_eq other.canonical_project_root c.canonical_project_root

-- `any(… for other in self._contexts.values())`
unfoldable pub any_value : (Context → Bool) → Dict Context → Bool
any_value p [] = false
any_value p ((k, c) ∷ d) = p c || any_value p d

unfoldable pub claim_mutation_workspace : ℕ → ℕ → Ref → Exec Registry Bool
claim_mutation_workspace t0 t1 r s =
    let s' = prune t0 s in
    elim (held r s') [
      | none ↦ (raised (runtime_error "logical context is no longer registered"), s')
      | some c ↦
          if c.mutation_workspace_claimed
          then (ok (not (str_eq c.effective_workspace_root c.canonical_project_root)), s')
          else (
            ok (any_value (rival c) s'.contexts),
            write (record c { mutation_workspace_claimed = true; last_seen = t1 }) s',
          )
    ]

unfoldable pub rollback_mutation_workspace_claim : ℕ → Ref → Registry → Registry
rollback_mutation_workspace_claim t1 r s = elim (held r s) [
  | none ↦ s
  | some c ↦
      if str_eq c.effective_workspace_root c.canonical_project_root
      then write (record c { mutation_workspace_claimed = false; last_seen = t1 }) s
      else s
]

-- The three fields that a claim overwrites.
abbrev pub Binding : Type 0
Binding = String × String × Bool

abbrev pub binding : Context → Binding
binding c = (c.effective_workspace_root, c.default_cwd, c.mutation_workspace_claimed)

-- The locked part of `claim_existing_workspace`, over resolved paths.
unfoldable pub bind_workspace : ℕ → Ref → String → String → Exec Registry Binding
bind_workspace t1 r target cwd s = elim (held r s) [
  | none ↦ (raised (runtime_error "logical context is no longer registered"), s)
  | some c ↦
      if c.mutation_workspace_claimed && not (str_eq c.effective_workspace_root target)
      then (raised (value_error "context already owns a conflicting workspace"), s)
      else if any_value (λ o. rival c o && str_eq o.effective_workspace_root target) s.contexts
      then (raised (file_exists_error "workspace already owned by another live context"), s)
      else (
        ok (binding c),
        write
            (record c {
              effective_workspace_root = target;
              default_cwd = cwd;
              mutation_workspace_claimed = true;
              last_seen = t1;
            })
            s,
      )
]

unfoldable pub restore_binding : ℕ → Context → Binding → Registry → Registry
restore_binding t1 c (workspace, cwd, claimed) s =
    write
      (record c {
        effective_workspace_root = workspace;
        default_cwd = cwd;
        mutation_workspace_claimed = claimed;
        last_seen = t1;
      })
      s

-- `path.resolve(strict=False)` is `resolve_lax`.
unfoldable pub rollback_existing_workspace_claim :
    (String → String) → ℕ → Ref → String → Binding → Registry → Registry
rollback_existing_workspace_claim resolve_lax t1 r expected previous s = elim (held r s) [
  | none ↦ s
  | some c ↦
      if str_eq c.effective_workspace_root (resolve_lax expected)
      then restore_binding t1 c previous s
      else s
]

module _ (resolve : String → Option String) where
  unfoldable pub claim_existing_workspace : ℕ → ℕ → Ref → String → String → Exec Registry Binding
  claim_existing_workspace t0 t1 r target cwd s =
      continue (resolved resolve target)
        (λ target'. continue (resolved resolve cwd) (bind_workspace t1 r target')) (prune t0 s)
