-- ===== src/Commit/Run/Recovery.antt =====
-- The rollback of a commit of coding_tools_mcp/patching.py, at one path.
use devmcp_runtime.Commit.Run.Attempt.{Same, Safe, perform_state}
use devmcp_runtime.Commit.Run.{
  failed, unlink_installed, restore_backup, is_file, recover, recover_all, restore_from, is_dir,
  from_backup,
}
use devmcp_runtime.Commit.{Node, system_call, World, perform, member, set_node}
use devmcp_runtime.Base.{
  String, ◌≡◌, refl, sym, ap, ◌∙◌, subst, ◌⊎◌, inl, inr, Bool, true, false, ◌&&◌, Option, none,
  some, List, [], ◌∷◌, arith, str_eq, str_eq_self, if_both, os_error, Result, ok, raised, if_cases,
}

-- A call is refused and changes nothing, or it makes its change.
perform_from :
    (change : World → World) (l : List Bool) (w : World)
    → w.answers ≡ l
    → (l' : List Bool) × ((perform change w ≡ (raised os_error, record w { answers = l' }))
        ⊎ (perform change w ≡ (ok tt, change (record w { answers = l' }))))
unfolding system_call
perform_from change [] w e = (
  [],
  inr (rw (e, system_call) (ap (λ (l : List Bool). (ok tt, change (record w { answers = l }))) e)),
)
perform_from change (true ∷ l) w e = (l, inr (rw (e, system_call) refl))
perform_from change (false ∷ l) w e = (l, inl (rw (e, system_call) refl))

perform_result {ℓ} :
    (R : Result (Unit {0}) × World → Type ℓ) (change : World → World) (w : World)
    → ((l : List Bool) → R (raised os_error, record w { answers = l }))
    → ((l : List Bool) → R (ok tt, change (record w { answers = l })))
    → R (perform change w)
perform_result R change w p q =
    let (l, c) = perform_from change w.answers w refl in
    elim c [ inl e ↦ subst R (sym e) (p l) | inr e ↦ subst R (sym e) (q l) ]

module _ (q : String) (orig : Option Node) where
  -- The original, if there was one, is in its place or in the backup.
  abbrev pub Lossless : World → Type 0
  Lossless w = (orig ≡ none) ⊎ ((w.files q ≡ orig) ⊎ (w.saved q ≡ orig))

  abbrev pub NewDirs : World → Type 0
  NewDirs w = member q w.created_dirs ≡ true → orig ≡ none

  -- What is left to do at the path once the new file is gone.
  abbrev Unlinked : World → Type 0
  Unlinked w =
      (member q w.backups ≡ true → (w.files q ≡ none) × (w.saved q ≡ orig))
      × (member q w.backups ≡ false → Same orig (w.files q))

  abbrev Unlinking : Result (Unit {0}) × World → Type 0
  Unlinking r = (failed r.0 ≡ false → Unlinked r.1) × Lossless r.1 × NewDirs r.1

  -- Without an error the path is as it was; with one the original is not lost.
  abbrev pub Recovered : Bool × World → Type 0
  Recovered r = (r.0 ≡ false → Same orig (r.1.files q)) × Lossless r.1 × NewDirs r.1

  unlink_installed-Unlinking : (w : World) → Safe q orig w → Unlinking (unlink_installed q w)
  unfolding unlink_installed set_node
  unlink_installed-Unlinking w h =
      if_cases {A = Result (Unit {0}) × World} Unlinking
        (member q w.installed && is_file (w.files q))
        (λ e.
          perform_result Unlinking (λ w'. record w' { files = set_node q none w'.files }) w
            (λ l. ground (arith, e, h)) (λ l. ground (arith, e, h, str_eq_self q)))
        (λ e. ground (arith, e, h))

  restore_from-Recovered :
      (kept : Option Node) (w : World)
      → w.saved q ≡ kept
      → (w.files q ≡ none) × (w.saved q ≡ orig)
      → Lossless w
      → NewDirs w
      → Recovered (restore_from q kept w)
  unfolding set_node
  restore_from-Recovered none w e u l d = ground (arith, u, l, d)
  restore_from-Recovered (some n) w e u l d =
      if_cases {A = Bool × World} Recovered (is_dir (w.files q)) (λ x. ground (arith, u, x, l, d))
        (λ x.
          perform_result (λ r. Recovered (failed r.0, r.1)) (from_backup q n) w
            (λ a. ground (arith, u, l, d)) (λ a. ground (arith, e, u, l, d, str_eq_self q)))

  restore_backup-Recovered :
      (w : World) → Unlinked w → Lossless w → NewDirs w → Recovered (restore_backup q w)
  unfolding restore_backup
  restore_backup-Recovered w u l d =
      if_cases {A = Bool × World} Recovered (member q w.backups)
        (λ b. restore_from-Recovered (w.saved q) w refl (u.0 b) l d) (λ b. ((λ _. u.1 b), l, d))

  pub recover-Recovered : (w : World) → Safe q orig w → Recovered (recover q w)
  unfolding recover
  recover-Recovered w h =
      let done = unlink_installed-Unlinking w h in
      if_cases {A = Bool × World} Recovered (failed (unlink_installed q w).0)
        (λ b. ((λ e. absurd (cc)), done.1, done.2))
        (λ b. restore_backup-Recovered (unlink_installed q w).1 (done.0 b) done.1 done.2)

  -- A path is recovered by its own step alone.
  abbrev pub Fixed : World → World → Type 0
  Fixed w v =
      (v.files q ≡ w.files q)
      × (v.saved q ≡ w.saved q)
      × (v.temps q ≡ w.temps q)
      × (v.backups ≡ w.backups)
      × (v.installed ≡ w.installed)
      × (v.created_dirs ≡ w.created_dirs)

  unlink_installed-Fixed :
      (p : String) (w : World) → str_eq p q ≡ false → Fixed w (unlink_installed p w).1
  unfolding unlink_installed set_node
  unlink_installed-Fixed p w n =
      if_both {A = Result (Unit {0}) × World} (λ r. Fixed w r.1)
        (member p w.installed && is_file (w.files p))
        (perform_state (Fixed w) (λ w'. record w' { files = set_node p none w'.files }) w
          (λ l. (refl, refl, refl, refl, refl, refl)) (λ l. ground (arith, n)))
        (refl, refl, refl, refl, refl, refl)

  restore_from-Fixed :
      (p : String) (kept : Option Node) (w : World)
      → str_eq p q ≡ false
      → Fixed w (restore_from p kept w).1
  unfolding set_node
  restore_from-Fixed p none w n = (refl, refl, refl, refl, refl, refl)
  restore_from-Fixed p (some m) w n =
      if_both {A = Bool × World} (λ r. Fixed w r.1) (is_dir (w.files p))
        (refl, refl, refl, refl, refl, refl)
        (perform_state (Fixed w) (from_backup p m) w (λ l. (refl, refl, refl, refl, refl, refl))
          (λ l. ground (arith, n)))

  pub recover-Fixed : (p : String) (w : World) → str_eq p q ≡ false → Fixed w (recover p w).1
  unfolding recover restore_backup
  recover-Fixed p w n =
      let v = (unlink_installed p w).1 in
      let f = unlink_installed-Fixed p w n in
      let g = restore_from-Fixed p (v.saved p) v n in
      if_both {A = Bool × World} (λ r. Fixed w r.1) (failed (unlink_installed p w).0) f
        (if_both {A = Bool × World} (λ r. Fixed w r.1) (member p v.backups)
          (g.0 ∙ f.0, g.1 ∙ f.1, g.2 ∙ f.2, g.3 ∙ f.3, g.4 ∙ f.4, g.5 ∙ f.5) f)

  pub recover_all-Fixed :
      (ps : List String) (w : World) → member q ps ≡ false → Fixed w (recover_all ps w).1
  unfolding recover_all member
  recover_all-Fixed [] w m = (refl, refl, refl, refl, refl, refl)
  recover_all-Fixed (p ∷ ps) w m =
      let f = recover-Fixed p w (ground (arith, m)) in
      let g = recover_all-Fixed ps (recover p w).1 (ground (arith, m)) in
      (g.0 ∙ f.0, g.1 ∙ f.1, g.2 ∙ f.2, g.3 ∙ f.3, g.4 ∙ f.4, g.5 ∙ f.5)
