-- ===== src/Commit/Run/Phases.antt =====
-- The four loops of a commit of coding_tools_mcp/patching.py, at one path.
use mathlib.Core.List.{reverse, reverse_aux}
use devmcp_runtime.Commit.Run.Attempt.{
  Pristine, perform_state, make_dir-Pristine, put_temp-Pristine, system_call_state, each_state,
}
use devmcp_runtime.Commit.Run.{
  missing_dirs, ensure_parent, prepare_file, reverse, make_dir, or_unlink, base_is_dir, mode_of,
  put_temp, prepare_content, prepare_change, mark_prepared,
}
use devmcp_runtime.Commit.{
  Node, member, each, World, StagedFile, Tree, Bytes, file, system_call, perform,
}
use devmcp_runtime.Base.{
  String, ◌≡◌, refl, true, ◌||◌, Option, none, some, List, [], ◌∷◌, ◌++◌, arith, eq_iff, if_both,
  Result, ok, raised, continue_state, bind_state,
}

member-append :
    (q : String) (xs ys : List String) → member q (xs ++ ys) ≡ (member q xs || member q ys)
unfolding member
member-append q [] ys = refl
member-append q (x ∷ xs) ys = ground (arith, member-append q xs ys)

member-reverse_aux :
    (q : String) (xs acc : List String)
    → member q (reverse_aux xs acc) ≡ (member q xs || member q acc)
unfolding member
member-reverse_aux q [] acc = refl
member-reverse_aux q (x ∷ xs) acc = ground (arith, member-reverse_aux q xs (x ∷ acc))

pub member-reverse : (q : String) (xs : List String) → member q (reverse xs) ≡ member q xs
unfolding member
member-reverse q xs = ground (arith, member-reverse_aux q xs [])

-- A missing directory is not there.
member-missing_dirs :
    (q : String) (ds : List String) (t : Tree) → member q (missing_dirs ds t) ≡ true → t q ≡ none
unfolding member missing_dirs
member-missing_dirs q [] t h = absurd (ground arith)
member-missing_dirs q (d ∷ ds) t h = ground (arith, eq_iff d q, member-missing_dirs q ds t)

module _ (q : String) (orig : Option Node) where
  make_dirs-Pristine :
      (ds : List String) (w : World)
      → (member q ds ≡ true → orig ≡ none)
      → Pristine q orig w
      → Pristine q orig (each make_dir ds w).1
  unfolding each member
  make_dirs-Pristine [] w new h = h
  make_dirs-Pristine (d ∷ ds) w new h =
      let made = make_dir-Pristine q orig d w (λ e. ground (arith, new)) h in
      continue_state (Pristine q orig) (make_dir d w).0 (λ _. each make_dir ds) (make_dir d w).1
        made λ _ _. make_dirs-Pristine ds (make_dir d w).1 (λ e. ground (arith, new)) made

  -- A directory that is missing has no original.
  missing_has_no_original :
      (ds : List String) (w : World)
      → Pristine q orig w
      → member q (reverse (missing_dirs ds w.files)) ≡ true
      → orig ≡ none
  missing_has_no_original ds w h e =
      ground (arith, member-reverse q (missing_dirs ds w.files), member-missing_dirs q ds w.files)

  ensure_parent-Pristine :
      (ds : List String) (w : World) → Pristine q orig w → Pristine q orig (ensure_parent ds w).1
  unfolding ensure_parent
  ensure_parent-Pristine ds w h =
      let missing = reverse (missing_dirs ds w.files) in
      let new = missing_has_no_original ds w h in
      let made = make_dirs-Pristine missing w new h in
      if_both {A = Result (Unit {0}) × World} (λ r. Pristine q orig r.1) (base_is_dir ds w.files)
        (continue_state (Pristine q orig) (each make_dir missing w).0
          (λ _ w'. (ok tt, record w' { created_dirs = w'.created_dirs ++ missing }))
          (each make_dir missing w).1 made
          (λ _ _. (
            made.0,
            made.1,
            made.2,
            made.3,
            λ e. ground (
              arith,
              member-append q (each make_dir missing w).1.created_dirs missing,
              made.4,
              new,
            ),
          )))
        h

  or_unlink-Pristine :
      (p : String) (r : Result (Unit {0}) × World)
      → Pristine q orig r.1
      → Pristine q orig (or_unlink p r).1
  or_unlink-Pristine p (ok u, w) h = h
  or_unlink-Pristine p (raised e, w) h =
      perform_state (Pristine q orig) (put_temp p none) w (λ l. h)
        (λ l. put_temp-Pristine q orig p none (record w { answers = l }) refl h)

  prepare_file-Pristine :
      (c : StagedFile) (bytes : Bytes) (w : World)
      → Pristine q orig w
      → Pristine q orig (prepare_file c bytes w).1
  unfolding prepare_file
  prepare_file-Pristine c bytes w h =
      let P = Pristine q orig in
      let full = file bytes (mode_of c.mode) in
      let called = system_call_state P w (λ l. h) in
      let v = put_temp c.path (some (file [] 384)) (system_call w).1 in
      let begun =
        put_temp-Pristine q orig c.path (some (file [] 384)) (system_call w).1 refl called in
      let called' = system_call_state P v (λ l. begun) in
      bind_state P system_call _ w called λ _ _. or_unlink-Pristine c.path _ (
        bind_state P system_call (λ _. perform (put_temp c.path (some full))) v called'
          λ _ _.
            perform_state P (put_temp c.path (some full)) (system_call v).1 (λ l. called')
              (λ l.
                put_temp-Pristine q orig c.path (some full)
                  (record (system_call v).1 { answers = l }) refl called'))

  module _ (parents : String → List String) (digest : Bytes → String) where
    prepare_content-Pristine :
        (c : StagedFile) (content : Option Bytes) (w : World)
        → Pristine q orig w
        → Pristine q orig (prepare_content c content w).1
    prepare_content-Pristine c none w h = h
    prepare_content-Pristine c (some bytes) w h =
        let done = prepare_file-Pristine c bytes w h in
        bind_state (Pristine q orig) (prepare_file c bytes) (λ _. mark_prepared c.path) w done
          λ _ _. unfold mark_prepared in done

    -- The first loop moves nothing.
    pub prepare_all-Pristine :
        (cs : List StagedFile) (w : World)
        → Pristine q orig w
        → Pristine q orig (each (prepare_change parents digest) cs w).1
    unfolding prepare_change
    prepare_all-Pristine cs w h =
        each_state (Pristine q orig) (prepare_change parents digest) cs w h λ c v g.
          let above = ensure_parent-Pristine (parents c.path) v g in
          bind_state (Pristine q orig) (ensure_parent (parents c.path)) _ v above
            λ _ _. prepare_content-Pristine c c.content _ above
