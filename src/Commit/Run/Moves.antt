-- ===== src/Commit/Run/Moves.antt =====
-- The loops of a commit of coding_tools_mcp/patching.py that test the baselines, move the originals
-- away and put the new files in place, at one path.
use devmcp_runtime.Commit.Run.{move_away, is_dir, to_backup, backup_change, paths}
use devmcp_runtime.Commit.Run.Attempt.{
  Safe, system_call_state, perform_state, to_backup-Safe, each_state,
}
use devmcp_runtime.Commit.{
  dir, file, World, Bytes, assert_baseline, perform, Node, system_call, StagedFile, same_file,
  member, is_read, exists, patch_conflict, Act, FileBaseline, set_node, each, file,
}
use devmcp_runtime.Base.{
  String, ◌≡◌, refl, sym, ap, ◌∙◌, ◌⊎◌, inl, inr, Bool, true, false, Option, none, some, List, [],
  ◌∷◌, arith, eq_iff, str_eq, if◌then◌else◌, Bool-cases, if_both, Result, ok, raised, Exec,
  continue, continue_state, bind_state, if_cases,
}

-- Where a sequence returns, its first part did.
pub continue_returns :
    {A B : Type 0} (r : Result A) (f : A → Exec World B) (w : World) {b : B}
    → (continue r f w).0 ≡ ok b
    → (a : A) × (r ≡ ok a) × (continue r f w ≡ f a w)
continue_returns (ok a) f w e = (a, refl, refl)
continue_returns (raised x) f w e = absurd (cc)

-- A call that returns makes its change.
pub perform_returns :
    (change : World → World) (w : World) {u : Unit {0}}
    → (perform change w).0 ≡ ok u
    → (perform change w).1 ≡ change (system_call w).1
perform_returns change w e =
    let (a, r, same) =
      continue_returns (system_call w).0 (λ _ v. (ok tt, change v)) (system_call w).1 e in
    ap (λ r. r.1) same

module _ (parents : String → List String) (digest : Bytes → String) where
  -- An assertion reads only, and where it returns the baseline is that of the file.
  pub assert_baseline_state {ℓ} :
      (P : World → Type ℓ) (c : StagedFile) (w : World)
      → ((l : List Bool) → P (record w { answers = l }))
      → P (assert_baseline digest c w).1
  unfolding assert_baseline
  assert_baseline_state P c w h =
      let called = system_call_state P w h in
      let read = if_both P (is_read digest c.baseline (w.files c.path)) called (h w.answers) in
      continue_state P _ (λ _ w'. (_, w')) _ read (λ _ _. read)

  pub assert_baseline_returns :
      (c : StagedFile) (w : World) {u : Unit {0}}
      → (assert_baseline digest c w).0 ≡ ok u
      → same_file digest c.baseline (w.files c.path) ≡ true
  unfolding assert_baseline
  assert_baseline_returns c w e =
      let there = w.files c.path in
      let f : Unit {0} → Act =
        λ _ w'. (if same_file digest c.baseline there then ok tt else raised patch_conflict, w') in
      let (a, r, same) =
        continue_returns (if is_read digest c.baseline there then (system_call w).0 else ok tt) f
          (if is_read digest c.baseline there then (system_call w).1 else w) e in
      matched there (sym (ap (λ r. r.0) same) ∙ e)
    where
      matched :
          (there : Option Node) {u : Unit {0}}
          → (if same_file digest c.baseline there then ok tt else raised patch_conflict) ≡ ok u
          → same_file digest c.baseline there ≡ true
      matched there e = ground (arith, e)

  pub same_file-is_dir :
      (b : FileBaseline) (n : Option Node) → same_file digest b n ≡ true → is_dir n ≡ false
  same_file-is_dir b none e = refl
  same_file-is_dir b (some dir) e = absurd (cc)
  same_file-is_dir b (some (file bytes mode)) e = refl

  module _ (q : String) (orig : Option Node) where
    -- The originals are being moved away.
    abbrev pub Moving : World → Type 0
    Moving w = Safe q orig w × (member q w.installed ≡ false)

    move_away-Moving :
        (p : String) (w : World) → is_dir (w.files p) ≡ false → Moving w → Moving (move_away p w).1
    unfolding move_away
    move_away-Moving p w e h =
        if_cases {A = Result (Unit {0}) × World} (λ r. Moving r.1) (exists p w.files)
          (λ x.
            bind_state Moving system_call (λ _. perform (to_backup p)) w
              (system_call_state Moving w (λ l. h))
              λ _ _.
                system_call_state (λ v. Moving (perform (to_backup p) v).1) w
                  (λ l.
                    perform_state Moving (to_backup p) (record w { answers = l }) (λ l'. h)
                      (λ l'.
                        (to_backup-Safe q orig p (record w { answers = l' }) h.0 h.1 e x, h.1))))
          (λ x. h)

    -- One round of the third loop: the assertion leaves no directory at the path.
    backup_change-Moving :
        (c : StagedFile) (w : World) → Moving w → Moving (backup_change parents digest c w).1
    unfolding backup_change
    backup_change-Moving c w h =
        let P : World → Type 0 = λ v. Moving v × (v.files c.path ≡ w.files c.path) in
        let read = assert_baseline_state P c w (λ l. (h, refl)) in
        continue_state Moving (assert_baseline digest c w).0 (λ _. move_away c.path)
          (assert_baseline digest c w).1 read.0
          λ u e.
            move_away-Moving c.path (assert_baseline digest c w).1
              (ap is_dir read.1
                ∙ same_file-is_dir c.baseline (w.files c.path) (assert_baseline_returns c w e))
              read.0

    move_away_clears :
        (p : String) (w : World) {u : Unit {0}}
        → (str_eq p q ≡ true) ⊎ (w.files q ≡ none)
        → (move_away p w).0 ≡ ok u
        → (move_away p w).1.files q ≡ none
    unfolding move_away set_node
    move_away_clears p w {u} h =
        if_cases {A = Result (Unit {0}) × World} (λ r. r.0 ≡ ok u → r.1.files q ≡ none)
          (exists p w.files)
          (λ x e.
            let (a, r, same) =
              continue_returns (system_call w).0 (λ _. perform (to_backup p)) (system_call w).1 e in
            let v = (system_call w).1 in
            let moved = perform_returns (to_backup p) v (sym (ap (λ r. r.0) same) ∙ e) in
            let kept = system_call_state (λ v'. v'.files q ≡ v.files q) v (λ l. refl) in
            let kept' = system_call_state (λ v'. v'.files q ≡ w.files q) w (λ l. refl) in
            ap (λ r. r.1.files q) same
            ∙ ap (λ v'. v'.files q) moved
            ∙ ground (arith, h, kept, kept'))
          (λ x e. ground (arith, h, x, eq_iff p q))

    -- A round that returns leaves nothing at its path, and nothing appears where there is nothing.
    backup_change_clears :
        (c : StagedFile) (w : World) {u : Unit {0}}
        → (str_eq c.path q ≡ true) ⊎ (w.files q ≡ none)
        → (backup_change parents digest c w).0 ≡ ok u
        → (backup_change parents digest c w).1.files q ≡ none
    unfolding backup_change
    backup_change_clears c w h e =
        let v = (assert_baseline digest c w).1 in
        let (a, r, same) =
          continue_returns (assert_baseline digest c w).0 (λ _. move_away c.path) v e in
        let kept = assert_baseline_state (λ v'. v'.files q ≡ w.files q) c w (λ l. refl) in
        ap (λ r. r.1.files q) same
        ∙ move_away_clears c.path v (ground (arith, h, kept)) (sym (ap (λ r. r.0) same) ∙ e)

    pub backup_all-Moving :
        (cs : List StagedFile) (w : World)
        → Moving w
        → Moving (each (backup_change parents digest) cs w).1
    backup_all-Moving cs w h =
        each_state Moving (backup_change parents digest) cs w h
          (λ c v g. backup_change-Moving c v g)

    pub backup_all_clears :
        (cs : List StagedFile) (w : World) {u : Unit {0}}
        → (member q (paths cs) ≡ true) ⊎ (w.files q ≡ none)
        → (each (backup_change parents digest) cs w).0 ≡ ok u
        → (each (backup_change parents digest) cs w).1.files q ≡ none
    unfolding each member
    backup_all_clears [] w h e = ground (arith, h)
    backup_all_clears (c ∷ cs) w h e =
        let f = backup_change parents digest in
        let (a, r, same) = continue_returns (f c w).0 (λ _. each f cs) (f c w).1 e in
        let next : (member q (paths cs) ≡ true) ⊎ ((f c w).1.files q ≡ none) = elim h [
          | inl m ↦ elim (Bool-cases (str_eq c.path q)) [
            | inl s ↦ inr (backup_change_clears c w (inl s) r)
            | inr n ↦ inl (ground (arith, m, n))
          ]
          | inr n ↦ inr (backup_change_clears c w (inr n) r)
        ] in
        ap (λ r. r.1.files q) same
        ∙ backup_all_clears cs (f c w).1 next (sym (ap (λ r. r.0) same) ∙ e)
