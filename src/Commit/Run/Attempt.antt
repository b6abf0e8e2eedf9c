-- ===== src/Commit/Run/Attempt.antt =====
-- What the phases of a commit of coding_tools_mcp/patching.py do at one path.
use devmcp_runtime.Commit.Run.{is_file, make_dir, is_dir, to_place, put_temp, to_backup}
use devmcp_runtime.Commit.{
  Node, World, perform, system_call, dir, each, Act, set_node, member, exists,
}
use devmcp_runtime.Base.{
  ◌≡◌, ◌⊎◌, Bool, true, false, Option, none, some, List, [], ◌∷◌, ok, continue_state, bind_state,
  String, refl, sym, ap, subst, arith, eq_iff, str_eq,
}

-- The node of a path is the one it had, or it is a directory where there was nothing.
abbrev pub Same : Option Node → Option Node → Type 0
Same orig n = (n ≡ orig) ⊎ ((orig ≡ none) × (n ≡ some dir))

-- Where the original of a path is, by whether it was moved away and whether a new file is in place.
abbrev pub Stage : Option Node → Bool → Bool → Option Node → Option Node → Type 0
Stage orig false false here kept = Same orig here
Stage orig true false here kept = (here ≡ none) × (kept ≡ orig)
Stage orig true true here kept = (is_file here ≡ true) × (kept ≡ orig)
Stage orig false true here kept = (is_file here ≡ true) × (orig ≡ none)

module _ {ℓ} {A : Type 0} (P : World → Type ℓ) where
  -- A loop keeps what each round keeps.
  pub each_state :
      (f : A → Act) (as' : List A) (w : World)
      → P w
      → ((a : A) (v : World) → P v → P (f a v).1)
      → P (each f as' w).1
  unfolding each
  each_state f [] w p q = p
  each_state f (a ∷ rest) w p q =
      continue_state P (f a w).0 (λ _. each f rest) (f a w).1 (q a w p)
        λ _ _. each_state f rest (f a w).1 (q a w p) q

-- A call changes no more than the answers that are left.
system_call_from :
    (l : List Bool) (w : World)
    → w.answers ≡ l
    → (l' : List Bool) × ((system_call w).1 ≡ record w { answers = l' })
unfolding system_call
system_call_from [] w e =
    ([], rw (e, system_call) (ap (λ (l : List Bool). record w { answers = l }) e))
system_call_from (a ∷ rest) w e = (rest, rw (e, system_call) refl)

module _ {ℓ} (P : World → Type ℓ) where
  -- What holds whatever the answers are holds after a call.
  pub system_call_state :
      (w : World) → ((l : List Bool) → P (record w { answers = l })) → P (system_call w).1
  system_call_state w p = let (l, e) = system_call_from w.answers w refl in subst P (sym e) (p l)

  pub perform_state :
      (change : World → World) (w : World)
      → ((l : List Bool) → P (record w { answers = l }))
      → ((l : List Bool) → P (change (record w { answers = l })))
      → P (perform change w).1
  perform_state change w p q =
      bind_state P system_call (λ _ v. (ok tt, change v)) w (system_call_state w p)
        λ _ _.
          let (l, e) = system_call_from w.answers w refl in subst (λ v. P (change v)) (sym e) (q l)

module _ (q : String) (orig : Option Node) where
  abbrev pub Safe : World → Type 0
  Safe w =
      Stage orig (member q w.backups) (member q w.installed) (w.files q) (w.saved q)
      × (is_dir (w.temps q) ≡ false)
      × (member q w.created_dirs ≡ true → orig ≡ none)

  -- Nothing was moved at the path yet.
  abbrev pub Pristine : World → Type 0
  Pristine w =
      (member q w.backups ≡ false)
      × (member q w.installed ≡ false)
      × Same orig (w.files q)
      × (is_dir (w.temps q) ≡ false)
      × (member q w.created_dirs ≡ true → orig ≡ none)

  pub Pristine-Safe : (w : World) → Pristine w → Safe w
  Pristine-Safe w h = ground arith

  pub make_dir-Pristine :
      (d : String) (w : World)
      → (str_eq d q ≡ true → orig ≡ none)
      → Pristine w
      → Pristine (make_dir d w).1
  unfolding make_dir set_node
  make_dir-Pristine d w new h =
      perform_state Pristine (λ v. record v { files = set_node d (some dir) v.files }) w (λ l. h)
        (λ l. ground arith)

  pub put_temp-Pristine :
      (p : String) (n : Option Node) (w : World)
      → is_dir n ≡ false
      → Pristine w
      → Pristine (put_temp p n w)
  unfolding set_node
  put_temp-Pristine p n w e h = ground arith

  -- The rename to the backup.
  pub to_backup-Safe :
      (p : String) (w : World)
      → Safe w
      → member q w.installed ≡ false
      → is_dir (w.files p) ≡ false
      → exists p w.files ≡ true
      → Safe (to_backup p w)
  unfolding set_node member
  to_backup-Safe p w h i e x = ground (arith, eq_iff p q)

  pub to_place-Safe :
      (p : String) (n : Node) (w : World)
      → Safe w
      → w.temps p ≡ some n
      → ((str_eq p q ≡ true) → (member q w.backups ≡ false) → (orig ≡ none))
      → Safe (to_place p n w)
  unfolding set_node member
  to_place-Safe p n w h t new = ground (arith, eq_iff p q)
