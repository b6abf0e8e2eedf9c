-- ===== src/Commit/Run/Outcome.antt =====
-- What a commit of coding_tools_mcp/patching.py that raises leaves, whatever calls were refused.
use devmcp_runtime.Commit.Run.Others.{attempt-Pristine}
use devmcp_runtime.Commit.Run.Places.{attempt-Safe}
use devmcp_runtime.Commit.Run.Phases.{member-reverse}
use mathlib.Core.List.{reverse, reverse_aux}
use devmcp_runtime.Commit.Run.Recovery.{
  Fixed, Recovered, recover_all-Fixed, recover-Fixed, recover-Recovered, Lossless,
}
use devmcp_runtime.Commit.Run.Attempt.{Safe, perform_state, Same, Pristine}
use devmcp_runtime.Commit.Run.{
  all_distinct, recover_all, recover, remove_dirs, unlink_temps, unlink_backups, rollback, is_dir,
  paths, put_temp, clean_up, settle, commit, attempt, fresh,
}
use devmcp_runtime.Commit.{
  member, Node, World, StagedFile, perform, set_node, Bytes, rollback_failed,
}
use devmcp_runtime.Base.{
  ℕ, ◌+◌, ◌≤◌, String, ◌≡◌, refl, sym, ap, ◌∙◌, subst, ◌≢◌, ◌⊎◌, inl, inr, Bool, true, false, ◌||◌,
  Option, none, some, List, [], ◌∷◌, arith, eq_iff, ltb, str_eq, if◌then◌else◌, Bool-cases, if_both,
  Exception, Result, ok, raised, if_cases,
}

abbrev pub count : String → List String → ℕ
count q [] = 0
count q (p ∷ ps) = (if str_eq p q then 1 else 0) + count q ps

count-reverse_aux :
    (q : String) (xs acc : List String) → count q (reverse_aux xs acc) ≡ count q xs + count q acc
count-reverse_aux q [] acc = omega arith
count-reverse_aux q (x ∷ xs) acc = ground (arith, count-reverse_aux q xs (x ∷ acc))

member-count : (q : String) (ps : List String) → member q ps ≡ ltb 0 (count q ps)
unfolding member
member-count q [] = ground arith
member-count q (p ∷ ps) = ground (arith, member-count q ps)

count-all_distinct : (q : String) (ps : List String) → all_distinct ps ≡ true → count q ps ≤ 1
unfolding all_distinct
count-all_distinct q [] h = omega arith
count-all_distinct q (p ∷ ps) h =
    ground (arith, count-all_distinct q ps, member-count p ps, eq_iff p q, member-count q ps)

module _ (parents : String → List String) (digest : Bytes → String) (q : String)
    (orig : Option Node) where
  Fixed-Safe : (w v : World) → Fixed q orig w v → Safe q orig w → Safe q orig v
  Fixed-Safe w v f h = ground (arith, f, h)

  Fixed-Recovered :
      (w v : World) (b : Bool)
      → Fixed q orig w v
      → Recovered q orig (b, w)
      → Recovered q orig (b, v)
  Fixed-Recovered w v b f h = ground (arith, f, h)

  recover_all-Recovered :
      (ps : List String) (w : World)
      → count q ps ≡ 1
      → Safe q orig w
      → Recovered q orig (recover_all ps w)
  unfolding recover_all
  recover_all-Recovered [] w m h = absurd (omega arith)
  recover_all-Recovered (p ∷ ps) w m h =
      let v = (recover p w).1 in
      elim (Bool-cases (str_eq p q)) [
        | inl s ↦
            let here : Recovered q orig (recover p w) =
              let same : p ≡ q = ground (arith, s, eq_iff p q) in
              subst (λ x. Recovered q orig (recover x w)) (sym same)
                (recover-Recovered q orig w h) in
            let rest = recover_all-Fixed q orig ps v (ground (arith, m, s, member-count q ps)) in
            let done = Fixed-Recovered v (recover_all ps v).1 (recover p w).0 rest here in
            ((λ e. done.0 (ground (arith, e))), done.1, done.2)
        | inr n ↦
            let done =
              recover_all-Recovered ps v (ground (arith, m, n))
                (Fixed-Safe w v (recover-Fixed q orig p w n) h) in
            ((λ e. done.0 (ground (arith, e))), done.1, done.2)
      ]

  -- What the last calls leave alone.
  abbrev Unmoved : World → World → Type 0
  Unmoved w v =
      (v.files ≡ w.files)
      × (v.saved ≡ w.saved)
      × (v.backups ≡ w.backups)
      × (v.created_dirs ≡ w.created_dirs)

  unlink_temps-Unmoved : (ps : List String) (w : World) → Unmoved w (unlink_temps ps w).1
  unfolding unlink_temps
  unlink_temps-Unmoved [] w = (refl, refl, refl, refl)
  unlink_temps-Unmoved (p ∷ ps) w =
      let v = (perform (put_temp p none) w).1 in
      let f : Unmoved w v =
        perform_state (Unmoved w) (put_temp p none) w (λ l. (refl, refl, refl, refl))
          (λ l. (refl, refl, refl, refl)) in
      let g = unlink_temps-Unmoved ps v in (g.0 ∙ f.0, g.1 ∙ f.1, g.2 ∙ f.2, g.3 ∙ f.3)

  unlink_backups_files : (ps : List String) (w : World) → (unlink_backups ps w).files ≡ w.files
  unfolding unlink_backups
  unlink_backups_files [] w = refl
  unlink_backups_files (p ∷ ps) w =
      unlink_backups_files ps (perform (λ w'. record w' { saved = set_node p none w'.saved }) w).1
      ∙ perform_state (λ v. v.files ≡ w.files)
          (λ w'. record w' { saved = set_node p none w'.saved }) w (λ l. refl) (λ l. refl)

  remove_dirs-Recovered :
      (bad : Bool) (ds : List String) (w : World)
      → (member q ds ≡ true → orig ≡ none)
      → Recovered q orig (bad, w)
      → Recovered q orig (bad, remove_dirs ds w)
  unfolding remove_dirs member
  remove_dirs-Recovered bad [] w new h = h
  remove_dirs-Recovered bad (d ∷ ds) w new h =
      remove_dirs-Recovered bad ds _ (λ e. ground (arith, new, e))
        (if_both {A = World} (λ v. Recovered q orig (bad, v)) (is_dir (w.files d))
          (perform_state (λ v. Recovered q orig (bad, v))
            (λ w'. record w' { files = set_node d none w'.files }) w (λ l. h)
            (λ l. unfold set_node in ground (arith, h, new, eq_iff d q)))
          h)

  Unmoved-Recovered :
      (w v : World) (a b : Bool)
      → Unmoved w v
      → Recovered q orig (a, w)
      → Recovered q orig (a || b, v)
  Unmoved-Recovered w v a b f h =
      let here = ap (λ t. t q) f.0 in
      let kept = ap (λ t. t q) f.1 in
      let dirs = ap (member q) f.3 in ground (arith, h, here, kept, dirs)

  rollback-Recovered :
      (cs : List StagedFile) (w : World)
      → Recovered q orig (recover_all (reverse (paths cs)) w)
      → Recovered q orig (rollback cs w)
  unfolding rollback
  rollback-Recovered cs w h =
      let (bad, w1) = recover_all (reverse (paths cs)) w in
      let (worse, w2) = unlink_temps w1.prepared w1 in
      let f = unlink_temps-Unmoved w1.prepared w1 in
      let here : Recovered q orig (bad || worse, w2) = Unmoved-Recovered w1 w2 bad worse f h in
      remove_dirs-Recovered (bad || worse) (reverse w2.created_dirs) w2
        (λ e. here.2 (sym (member-reverse q w2.created_dirs) ∙ e)) here

  -- The end of a commit that raises.
  abbrev Settled : Result (Unit {0}) × World → Type 0
  Settled r =
      ((e : Exception) → r.0 ≡ raised e → e ≢ rollback_failed → Same orig (r.1.files q))
      × ((e : Exception) → r.0 ≡ raised e → Lossless q orig r.1)

  clean_up-Settled :
      (bad : Bool) (x : Exception) (v : World)
      → Recovered q orig (bad, v)
      → Settled (raised (if bad then rollback_failed else x), clean_up bad v)
  unfolding clean_up
  clean_up-Settled true x v h =
      let f = unlink_temps-Unmoved v.prepared v in
      let kept = Unmoved-Recovered v (unlink_temps v.prepared v).1 true false f h in
      ((λ e p ne. absurd (ground (arith, p, ne))), (λ e p. kept.1))
  clean_up-Settled false x v h =
      let w1 = (unlink_temps v.prepared v).1 in
      let f = unlink_temps-Unmoved v.prepared v in
      let here : (unlink_backups w1.backups w1).files q ≡ v.files q =
        ap (λ t. t q) (unlink_backups_files w1.backups w1 ∙ f.0) in
      let same : Same orig ((unlink_backups w1.backups w1).files q) =
        subst (Same orig) (sym here) (h.0 refl) in
      ((λ e p ne. same), (λ e p. ground (arith, same)))

  settle-Settled :
      (cs : List StagedFile) (r : Result (Unit {0}) × World)
      → Recovered q orig (recover_all (reverse (paths cs)) r.1)
      → Settled (settle parents digest cs r)
  settle-Settled cs (ok u, w) h = ((λ e p. absurd (cc)), (λ e p. absurd (cc)))
  settle-Settled cs (raised x, w) h =
      clean_up-Settled (rollback cs w).0 x (rollback cs w).1 (rollback-Recovered cs w h)

  -- What the rollback finds: the original in its stage, or a path that no change names.
  attempt-Recovered :
      (cs : List StagedFile) (w : World)
      → all_distinct (paths cs) ≡ true
      → Pristine q orig w
      → Recovered q orig (recover_all (reverse (paths cs)) (attempt parents digest cs w).1)
  attempt-Recovered cs w distinct h =
      let v = (attempt parents digest cs w).1 in
      let ps = reverse (paths cs) in
      elim (Bool-cases (member q (paths cs))) [
        | inl m ↦
            recover_all-Recovered ps v
              (ground (
                arith,
                m,
                member-count q (paths cs),
                count-reverse_aux q (paths cs) [],
                count-all_distinct q (paths cs) distinct,
              ))
              (attempt-Safe parents digest q orig cs w m h)
        | inr m ↦
            let g = attempt-Pristine parents digest q orig cs w m h in
            let same : Recovered q orig (false, v) = ((λ e. g.2), ground (arith, g.2), g.4) in
            let f = recover_all-Fixed q orig ps v (member-reverse q (paths cs) ∙ m) in
            let done = Fixed-Recovered v (recover_all ps v).1 false f same in
            ((λ e. done.0 refl), done.1, done.2)
      ]

  commit-Settled :
      (cs : List StagedFile) (w : World) → w.files q ≡ orig → Settled (commit parents digest cs w)
  unfolding commit
  commit-Settled [] w h = ((λ e p. absurd (cc)), (λ e p. absurd (cc)))
  commit-Settled (c ∷ cs) w h =
      if_cases {A = Result (Unit {0}) × World} Settled (all_distinct (paths (c ∷ cs)))
        (λ d. settle-Settled (c ∷ cs) (attempt parents digest (c ∷ cs) (fresh parents digest w)) (
          attempt-Recovered (c ∷ cs) (fresh parents digest w) d
            (unfold member in (refl, refl, inl h, refl, (λ e. absurd (cc))))))
        (λ d. ((λ e p ne. inl h), (λ e p. inr (inl h))))

module _ (parents : String → List String) (digest : Bytes → String) where
  -- Whatever calls the operating system refuses: a commit that raises, other than with
  -- PATCH_ROLLBACK_FAILED, leaves at every path the node that was there; only where there was
  -- nothing there may be a directory.
  pub commit_undone :
      (cs : List StagedFile) (w : World) (q : String) (e : Exception)
      → (commit parents digest cs w).0 ≡ raised e
      → e ≢ rollback_failed
      → Same (w.files q) ((commit parents digest cs w).1.files q)
  commit_undone cs w q = (commit-Settled parents digest q (w.files q) cs w refl).0

  -- Whatever calls the operating system refuses: after a commit that raises, each node that was
  -- there is in its place or in the backup of its path.
  pub commit_lossless :
      (cs : List StagedFile) (w : World) (q : String) (n : Node) (e : Exception)
      → w.files q ≡ some n
      → (commit parents digest cs w).0 ≡ raised e
      → ((commit parents digest cs w).1.files q ≡ some n)
        ⊎ ((commit parents digest cs w).1.saved q ≡ some n)
  commit_lossless cs w q n e h r =
      ground (arith, h, (commit-Settled parents digest q (w.files q) cs w refl).1 e r)
