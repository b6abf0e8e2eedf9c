-- ===== src/Commit/Run/Others.antt =====
-- The `try` block of a commit of coding_tools_mcp/patching.py at a path that no change names.
use devmcp_runtime.Commit.Run.Phases.{prepare_all-Pristine}
use devmcp_runtime.Commit.Run.Moves.{assert_baseline_state}
use devmcp_runtime.Commit.Run.Attempt.{Pristine, system_call_state, perform_state, each_state}
use devmcp_runtime.Commit.Run.{
  move_away, put_in_place, attempt, backup_change, install_change, paths, to_backup, to_place,
  is_dir, prepare_change,
}
use devmcp_runtime.Commit.{
  Bytes, Node, each, set_node, StagedFile, member, World, Act, system_call, assert_baseline, exists,
  perform,
}
use devmcp_runtime.Base.{
  String, ◌≡◌, inl, inr, false, Option, List, [], ◌∷◌, arith, str_eq, Option-cases, if_both, Result,
  bind, continue_state, bind_state,
}

module _ (parents : String → List String) (digest : Bytes → String) where
  module _ (q : String) (orig : Option Node) where
    each_other :
        (f : StagedFile → Act) (cs : List StagedFile) (w : World)
        → member q (paths cs) ≡ false
        → Pristine q orig w
        → ((c : StagedFile) (v : World)
            → str_eq c.path q ≡ false
            → Pristine q orig v
            → Pristine q orig (f c v).1)
        → Pristine q orig (each f cs w).1
    unfolding each member
    each_other f [] w m h step = h
    each_other f (c ∷ cs) w m h step =
        let first = step c w (ground (arith, m)) h in
        continue_state (Pristine q orig) (f c w).0 (λ _. each f cs) (f c w).1 first
          λ _ _. each_other f cs (f c w).1 (ground (arith, m)) first step

    to_backup-Pristine :
        (p : String) (w : World)
        → str_eq p q ≡ false
        → Pristine q orig w
        → Pristine q orig (to_backup p w)
    unfolding set_node member
    to_backup-Pristine p w n h = ground (arith, n)

    to_place-Pristine :
        (p : String) (m : Node) (w : World)
        → str_eq p q ≡ false
        → Pristine q orig w
        → Pristine q orig (to_place p m w)
    unfolding set_node member
    to_place-Pristine p m w n h = ground (arith, n)

    move_away-Pristine :
        (p : String) (w : World)
        → str_eq p q ≡ false
        → Pristine q orig w
        → Pristine q orig (move_away p w).1
    unfolding move_away
    move_away-Pristine p w n h =
        let P = Pristine q orig in
        let v = (system_call w).1 in
        let called = system_call_state P w (λ l. h) in
        if_both {A = Result (Unit {0}) × World} (λ r. P r.1) (exists p w.files)
          (bind_state P system_call (λ _. perform (to_backup p)) w called
            λ _ _.
              perform_state P (to_backup p) v (λ l. called)
                (λ l. to_backup-Pristine p (record v { answers = l }) n called))
          h

    put_in_place-Pristine :
        (p : String) (w : World)
        → str_eq p q ≡ false
        → Pristine q orig w
        → Pristine q orig (put_in_place p w).1
    unfolding put_in_place
    put_in_place-Pristine p w n h = elim (Option-cases (w.temps p)) [
      | inl e ↦ rw (e, put_in_place) h
      | inr (m, e) ↦
          rw (e, put_in_place)
            (if_both {A = Result (Unit {0}) × World} (λ r. Pristine q orig r.1) (is_dir (w.files p))
              h
              (perform_state (Pristine q orig) (to_place p m) w (λ l. h)
                (λ l. to_place-Pristine p m (record w { answers = l }) n h)))
    ]

    assert_baseline-Pristine :
        (c : StagedFile) (w : World)
        → Pristine q orig w
        → Pristine q orig (assert_baseline digest c w).1
    assert_baseline-Pristine c w h =
        assert_baseline_state parents digest (Pristine q orig) c w (λ l. h)

    pub attempt-Pristine :
        (cs : List StagedFile) (w : World)
        → member q (paths cs) ≡ false
        → Pristine q orig w
        → Pristine q orig (attempt parents digest cs w).1
    unfolding attempt backup_change install_change
    attempt-Pristine cs w m h =
        let P = Pristine q orig in
        let w1 = (each (prepare_change parents digest) cs w).1 in
        let w2 = (each (assert_baseline digest) cs w1).1 in
        let w3 = (each (backup_change parents digest) cs w2).1 in
        let h1 = prepare_all-Pristine q orig parents digest cs w h in
        let h2 = each_state P (assert_baseline digest) cs w1 h1 assert_baseline-Pristine in
        let h3 : P w3 = each_other (backup_change parents digest) cs w2 m h2 λ c v n g.
          bind_state P (assert_baseline digest c) (λ _. move_away c.path) v
            (assert_baseline-Pristine c v g)
            λ _ _. move_away-Pristine c.path _ n (assert_baseline-Pristine c v g) in
        bind_state P (each (prepare_change parents digest) cs) _ w h1 λ _ _.
          bind_state P (each (assert_baseline digest) cs) _ w1 h2 λ _ _.
            bind_state P (each (backup_change parents digest) cs)
              (λ _. each (install_change parents digest) cs) w2 h3
              λ _ _. each_other (install_change parents digest) cs w3 m h3 λ c v n g.
                if_both {A = Result (Unit {0}) × World} (λ r. P r.1) (member c.path v.prepared)
                  (if_both {A = Act} (λ t. P (bind t (λ _. put_in_place c.path) v).1)
                    (member c.path v.backups) (put_in_place-Pristine c.path v n g)
                    (bind_state P (assert_baseline digest c) (λ _. put_in_place c.path) v
                      (assert_baseline-Pristine c v g)
                      λ _ _. put_in_place-Pristine c.path _ n (assert_baseline-Pristine c v g)))
                  g
