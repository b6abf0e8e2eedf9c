-- ===== src/Commit/Run/Places.antt =====
-- The last loop of a commit of coding_tools_mcp/patching.py, and the whole `try` block, at one path.
use devmcp_runtime.Commit.Run.Phases.{prepare_all-Pristine}
use devmcp_runtime.Commit.Run.Moves.{
  assert_baseline_state, assert_baseline_returns, backup_all-Moving, backup_all_clears,
}
use devmcp_runtime.Commit.Run.Attempt.{
  Safe, to_place-Safe, perform_state, Pristine, each_state, Pristine-Safe,
}
use devmcp_runtime.Commit.Run.{
  put_in_place, install_change, attempt, to_place, is_dir, paths, prepare_change, backup_change,
}
use devmcp_runtime.Commit.{
  Bytes, Node, set_node, StagedFile, World, member, same_file, Act, each, assert_baseline,
}
use devmcp_runtime.Base.{
  String, ◌≡◌, refl, sym, ap, ◌∙◌, inl, inr, true, false, Option, none, some, List, arith, eq_iff,
  str_eq, Bool-cases, Option-cases, if_both, Result, bind, continue_state, bind_state, if_cases,
}

module _ (parents : String → List String) (digest : Bytes → String) where
  module _ (q : String) (orig : Option Node) where
    -- The new files are being put in place, where every original at a path of the changes is away.
    abbrev Placing : World → Type 0
    Placing w = Safe q orig w × (member q w.installed ≡ false → w.files q ≡ none)

    to_place-Placing :
        (p : String) (n : Node) (w : World)
        → Placing w
        → w.temps p ≡ some n
        → (str_eq p q ≡ true → member q w.backups ≡ false → orig ≡ none)
        → Placing (to_place p n w)
    unfolding set_node member
    to_place-Placing p n w h t new = (to_place-Safe q orig p n w h.0 t new, ground (arith, h.1))

    put_in_place-Placing :
        (p : String) (w : World)
        → (str_eq p q ≡ true → member q w.backups ≡ false → orig ≡ none)
        → Placing w
        → Placing (put_in_place p w).1
    unfolding put_in_place
    put_in_place-Placing p w new h = elim (Option-cases (w.temps p)) [
      | inl e ↦ rw (e, put_in_place) h
      | inr (n, e) ↦
          rw (e, put_in_place)
            (if_both {A = Result (Unit {0}) × World} (λ r. Placing r.1) (is_dir (w.files p)) h
              (perform_state Placing (to_place p n) w (λ l. h)
                (λ l. to_place-Placing p n (record w { answers = l }) h e new)))
    ]

    -- A file that is put in place without a backup stands where nothing was.
    nothing_was_there :
        (c : StagedFile) (w : World)
        → Placing w
        → same_file digest c.baseline (w.files c.path) ≡ true
        → str_eq c.path q ≡ true
        → member q w.backups ≡ false
        → orig ≡ none
    nothing_was_there c w h e s b = elim (Bool-cases (member q w.installed)) [
      | inl i ↦ ground (arith, h.0.0, b, i)
      | inr i ↦ ground (arith, h.0.0, h.1, b, i)
    ]

    install_change-Placing :
        (c : StagedFile) (w : World) → Placing w → Placing (install_change parents digest c w).1
    unfolding install_change
    install_change-Placing c w h =
        if_both {A = Result (Unit {0}) × World} (λ r. Placing r.1) (member c.path w.prepared)
          (if_cases {A = Act} (λ m. Placing (bind m (λ _. put_in_place c.path) w).1)
            (member c.path w.backups)
            (λ b.
              put_in_place-Placing c.path w
                (λ s n. absurd (ground (arith, eq_iff c.path q, b, s, n))) h)
            (λ b.
              let P : World → Type 0 = λ v. Placing v × (v.backups ≡ w.backups) in
              let read = assert_baseline_state parents digest P c w (λ l. (h, refl)) in
              continue_state Placing (assert_baseline digest c w).0 (λ _. put_in_place c.path)
                (assert_baseline digest c w).1 read.0
                λ u e.
                  put_in_place-Placing c.path (assert_baseline digest c w).1
                    (λ s n.
                      nothing_was_there c w h (assert_baseline_returns parents digest c w e) s
                        (sym (ap (member q) read.1) ∙ n))
                    read.0))
          h

    -- Wherever the `try` block ends, the path of a change is in one of the four stages.
    pub attempt-Safe :
        (cs : List StagedFile) (w : World)
        → member q (paths cs) ≡ true
        → Pristine q orig w
        → Safe q orig (attempt parents digest cs w).1
    unfolding attempt
    attempt-Safe cs w m h =
        let S = Safe q orig in
        let w1 = (each (prepare_change parents digest) cs w).1 in
        let w2 = (each (assert_baseline digest) cs w1).1 in
        let w3 = (each (backup_change parents digest) cs w2).1 in
        let h1 = prepare_all-Pristine q orig parents digest cs w h in
        let h2 =
          each_state (Pristine q orig) (assert_baseline digest) cs w1 h1
            λ c v g. assert_baseline_state parents digest (Pristine q orig) c v (λ l. g) in
        let h3 = backup_all-Moving parents digest q orig cs w2 (Pristine-Safe q orig w2 h2, h2.1) in
        bind_state S (each (prepare_change parents digest) cs) _ w (Pristine-Safe q orig w1 h1)
          λ _ _.
            bind_state S (each (assert_baseline digest) cs) _ w1 (Pristine-Safe q orig w2 h2) λ _ _.
              bind_state S (each (backup_change parents digest) cs)
                (λ _. each (install_change parents digest) cs) w2 h3.0
                λ _ e.
                  let away = backup_all_clears parents digest q orig cs w2 (inl m) e in
                  (each_state Placing (install_change parents digest) cs w3 (h3.0, λ _. away)
                    (λ c v g. install_change-Placing c v g)).0
