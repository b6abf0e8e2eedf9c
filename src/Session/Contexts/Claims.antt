-- ===== src/Session/Contexts/Claims.antt =====
-- Who owns a workspace after a claim, and what a rolled back claim restores.
pub mod Existing
use devmcp_runtime.Base.Dict.Laws.{get-put}
use devmcp_runtime.Session.Contexts.Laws.{get-held}
use devmcp_runtime.Base.Dict.{Distinct, get, Dict}
use devmcp_runtime.Session.Contexts.Invariant.{Inv, prune-Inv, get-keyed}
use devmcp_runtime.Session.Contexts.{Ref, Context, Registry, held, prune, write}
use devmcp_runtime.Session.Contexts.Claiming.{rival, any_value, claim_mutation_workspace}
use devmcp_runtime.Base.{
  ℕ, String, ◌≡◌, refl, sym, ◌∙◌, subst, ◌≢◌, ◌↔◌, inl, inr, Bool, true, false, none, some, [], ◌∷◌,
  arith, eq_iff, str_eq, if◌then◌else◌, str_eq_self, Bool-cases, ok,
}

module _ (p : Context → Bool) where
  pub any_value-false :
      (k : String) (c : Context) (d : Dict Context)
      → any_value p d ≡ false
      → get k d ≡ some c
      → p c ≡ false
  unfolding any_value get
  any_value-false k c [] h e = absurd (ground arith)
  any_value-false k c ((i, x) ∷ d) h e = ground (arith, any_value-false k c d)

get_tail :
    (i k : String) (x c : Context) (d : Dict Context)
    → get i d ≡ none
    → get k d ≡ some c
    → get k ((i, x) ∷ d) ≡ some c
unfolding get
get_tail i k x c d h e = ground (arith, eq_iff i k)

get_head : (i : String) (x : Context) (d : Dict Context) → get i ((i, x) ∷ d) ≡ some x
unfolding get
get_head i x d = rw str_eq_self

-- Where the test holds of some context, it holds of one that a key names.
any_value-true :
    (p : Context → Bool) (d : Dict Context)
    → Distinct d
    → any_value p d ≡ true
    → (k : String) × (c : Context) × (get k d ≡ some c) × (p c ≡ true)
unfolding any_value
any_value-true p [] h e = absurd (ground arith)
any_value-true p ((i, x) ∷ d) h e = elim (Bool-cases (p x)) [
  | inl here ↦ (i, x, get_head i x d, here)
  | inr there ↦
      let (k, c, found, holds) = any_value-true p d h.1 (ground arith) in
      (k, c, get_tail i k x c d h.0 found, holds)
]

-- The context claims the project.
abbrev pub Claims : Context → String → Type 0
Claims o root = (o.mutation_workspace_claimed ≡ true) × (o.canonical_project_root ≡ root)

pub rival_iff :
    (c o : Context) (k j : String)
    → c.context_id ≡ k
    → o.context_id ≡ j
    → k ≢ j
    → (rival c o ≡ true) ↔ Claims o c.canonical_project_root
unfolding rival
rival_iff c o k j ck oj other = ground (
  arith,
  eq_iff o.context_id c.context_id,
  eq_iff o.canonical_project_root c.canonical_project_root,
)

claim_mutation_free :
    (t0 t1 : ℕ) (r : Ref) (s : Registry) (c : Context)
    → held r (prune t0 s) ≡ some c
    → c.mutation_workspace_claimed ≡ false
    → claim_mutation_workspace t0 t1 r s ≡ (
      ok (any_value (rival c) (prune t0 s).contexts),
      write (record c { mutation_workspace_claimed = true; last_seen = t1 }) (prune t0 s),
    )
unfolding claim_mutation_workspace
claim_mutation_free t0 t1 r s c here free = ground arith

-- What is read after a write to a held context.
pub get-write-held :
    (r : Ref) (s : Registry) (c c' : Context) (j : String)
    → Inv s
    → held r s ≡ some c
    → c'.context_id ≡ c.context_id
    → get j (write c' s).contexts ≡ (if str_eq r.context_id j then some c' else get j s.contexts)
unfolding write
get-write-held r s c c' j h here same =
    let name : c'.context_id ≡ r.context_id =
      same ∙ get-keyed r.context_id c s h (get-held r s c here) in
    rw (get-put c'.context_id j c' s.contexts) (simp name)

-- A context read elsewhere after a write to a held one stood there before.
pub get-write_other :
    (r : Ref) (s : Registry) (c c' : Context) (j : String) (o : Context)
    → Inv s
    → held r s ≡ some c
    → c'.context_id ≡ c.context_id
    → r.context_id ≢ j
    → get j (write c' s).contexts ≡ some o
    → get j s.contexts ≡ some o
get-write_other r s c c' j o h here same other found =
    ground (arith, get-write-held r s c c' j h here same, eq_iff r.context_id j)

-- Where no registered context is a rival, no other one claims the project.
pub not_claimed :
    (s : Registry) (c : Context)
    → Inv s
    → (r : Ref) → held r s ≡ some c
    → any_value (rival c) s.contexts ≡ false
    → (j : String) (o : Context) → r.context_id ≢ j
    → get j s.contexts ≡ some o
    → ¬ Claims o c.canonical_project_root
not_claimed s c h r here calm j o other found claims =
    let ck = get-keyed r.context_id c s h (get-held r s c here) in
    let oj = get-keyed j o s h found in
    cc (
      any_value-false (rival c) j o s.contexts calm found,
      (rival_iff c o r.context_id j ck oj other).1 claims,
    )

-- A rival is another object, so it stands under another name.
rival_elsewhere :
    (c o : Context) (r : Ref) (s : Registry) (j : String)
    → held r s ≡ some c
    → get j s.contexts ≡ some o
    → rival c o ≡ true
    → r.context_id ≢ j
unfolding rival held
rival_elsewhere c o r s j here found rivals same =
    let found' = subst (λ k. get k s.contexts ≡ some o) (sym same) found in
    ground (arith, eq_iff o.context_id c.context_id)

module _ (t0 t1 : ℕ) (r : Ref) (s s' : Registry) (c : Context) (h : Inv s) where
  -- A context that the claim does not send into isolation is the only one that claims its project:
  -- if a registered context that had no claim claims its project and is told that nothing is
  -- contended, then it holds its claim afterwards and no other context claims that project.
  pub claim_mutation_exclusive :
      held r (prune t0 s) ≡ some c
      → c.mutation_workspace_claimed ≡ false
      → claim_mutation_workspace t0 t1 r s ≡ (ok false, s')
      → (get r.context_id s'.contexts
          ≡ some (record c { mutation_workspace_claimed = true; last_seen = t1 }))
        × ((j : String) (o : Context)
            → r.context_id ≢ j
            → get j s'.contexts ≡ some o
            → ¬ Claims o c.canonical_project_root)
  claim_mutation_exclusive here free claimed =
      let t = prune t0 s in
      let h' = prune-Inv t0 s h in
      let c' : Context = record c { mutation_workspace_claimed = true; last_seen = t1 } in
      let e = claim_mutation_free t0 t1 r s c here free in
      let after : s' ≡ write c' t = cc (e, claimed) in
      let calm : any_value (rival c) t.contexts ≡ false = cc (e, claimed) in
      (
        rw (after, get-write-held r t c c' r.context_id (prune-Inv t0 s h) here refl, str_eq_self)
            refl,
        λ j o other found claims.
            not_claimed t c h' r here calm j o other
              (get-write_other r t c c' j o h' here refl other
                (subst (λ u. get j u.contexts ≡ some o) after found))
              claims,
      )

  -- A registered context that had no claim is told to isolate only where another registered context
  -- claims its project.
  pub claim_mutation_contended :
      held r (prune t0 s) ≡ some c
      → c.mutation_workspace_claimed ≡ false
      → claim_mutation_workspace t0 t1 r s ≡ (ok true, s')
      → (j : String) × (o : Context) × (r.context_id ≢ j)
        × (get j (prune t0 s).contexts ≡ some o)
        × Claims o c.canonical_project_root
  claim_mutation_contended here free claimed =
      let t = prune t0 s in
      let h' = prune-Inv t0 s h in
      let e = claim_mutation_free t0 t1 r s c here free in
      let busy : any_value (rival c) t.contexts ≡ true = cc (e, claimed) in
      let (j, o, found, rivals) = any_value-true (rival c) t.contexts h'.distinct busy in
      let ck = get-keyed r.context_id c t h' (get-held r t c here) in
      let oj = get-keyed j o t h' found in
      let other = rival_elsewhere c o r t j here found rivals in
      (j, o, other, found, (rival_iff c o r.context_id j ck oj other).0 rivals)
