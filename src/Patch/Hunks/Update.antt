-- ===== src/Patch/Hunks/Update.antt =====
-- What `apply_update_hunks` does to the lines.
use devmcp_runtime.Patch.Hunks.Splice.{splice, replace_back-splice}
use devmcp_runtime.Patch.Hunks.Order.{
  InLines, DifferentStarts, overlap-LaidOut, sort_up-FromStart, sort_up-DifferentStarts,
  sort_up-All, replace_all-sort_down,
}
use devmcp_runtime.Patch.Hunks.{
  match_hunk, Line, only, ParsedHunk, matches_of, MatchedHunk, find_subsequence_all, match_hunks,
  update_lines, parse_hunks, overlap, sort_up, hunks_overlap,
}
use devmcp_runtime.Patch.Hunks.Search.{Member, StandsAt, found_iff}
use devmcp_runtime.Base.{
  ℕ, ◌+◌, ◌≡◌, refl, sym, ap, ◌∙◌, subst, ◌≢◌, inl, inr, List, [], ◌∷◌, arith, if◌then◌else◌,
  Bool-cases, length, All, ok, raised, sequence_ok,
}

-- Where a hunk was matched: its old lines stand there and nowhere else, and it takes up as many
-- lines as they are. A hunk without old lines goes to the front.
pub record IsMatch (lines : List Line) (hunk : ParsedHunk) (m : MatchedHunk) : Type 0 where
  pub stands : StandsAt lines hunk.old m.start
  pub alone : (j : ℕ) → hunk.old ≢ [] → StandsAt lines hunk.old j → j ≡ m.start
  pub front : hunk.old ≡ [] → m.start ≡ 0
  pub extent : m.end ≡ m.start + length hunk.old
  pub same_new : m.new ≡ hunk.new

only_ok : (l : List ℕ) (i : ℕ) → only l ≡ ok i → l ≡ i ∷ []
only_ok [] i e = absurd (ground arith)
only_ok (a ∷ []) i e = ground arith
only_ok (a ∷ b ∷ l) i e = absurd (ground arith)

Member-single : (j i : ℕ) (l : List ℕ) → l ≡ i ∷ [] → Member j l → j ≡ i
Member-single j i l e h = single (subst (Member j) e h)
  where
    single : Member j (i ∷ []) → j ≡ i
    single (inl same) = same
    single (inr none_left) = absurd none_left

match_at :
    (lines old : List Line) (i : ℕ)
    → only (matches_of lines old) ≡ ok i
    → StandsAt lines old i
      × ((j : ℕ) → old ≢ [] → StandsAt lines old j → j ≡ i)
      × (old ≡ [] → i ≡ 0)
match_at lines [] i e = (ground arith, λ j ne _. absurd (ne refl), λ _. ground arith)
match_at lines (first ∷ more) i e =
    let all_found = find_subsequence_all lines (first ∷ more) in
    let one : all_found ≡ i ∷ [] = only_ok all_found i e in
    (
      (found_iff lines first more i).0 (subst (Member i) (sym one) (inl refl)),
      λ j _ there. Member-single j i all_found one ((found_iff lines first more j).1 there),
      λ none_there. absurd (ground arith),
    )

-- A hunk is matched only at the one place where all its old lines stand.
pub match_hunk-IsMatch :
    (lines : List Line) (index : ℕ) (hunk : ParsedHunk) (m : MatchedHunk)
    → match_hunk lines index hunk ≡ ok m
    → IsMatch lines hunk m
unfolding match_hunk
match_hunk-IsMatch lines index hunk m e =
    let (i, found, made) = sequence_ok _ (only (matches_of lines hunk.old)) e in
    let (there, alone, front) = match_at lines hunk.old i found in
    let start : m.start ≡ i = ground arith in
    record {
      stands = subst (StandsAt lines hunk.old) (sym start) there;
      alone = λ j ne at_j. alone j ne at_j ∙ sym start;
      front = λ empty. start ∙ front empty;
      extent = ground arith;
      same_new = ground arith;
    }

IsMatch-InLines :
    (lines : List Line) (hunk : ParsedHunk) (m : MatchedHunk)
    → IsMatch lines hunk m
    → InLines (length lines) m
IsMatch-InLines lines hunk m h = omega (arith, h.stands.0, h.extent)

match_hunks-InLines :
    (lines : List Line) (index : ℕ) (hunks : List ParsedHunk) (ms : List MatchedHunk)
    → match_hunks lines index hunks ≡ ok ms
    → All (InLines (length lines)) ms
unfolding match_hunks
match_hunks-InLines lines index [] [] e = tt
match_hunks-InLines lines index [] (m ∷ ms) e = absurd (ground arith)
match_hunks-InLines lines index (hunk ∷ hunks) ms e =
    let (m, one, rest) = sequence_ok _ (match_hunk lines index hunk) e in
    let (others, more, made) = sequence_ok _ (match_hunks lines (index + 1) hunks) rest in
    let all_of : All (InLines (length lines)) (m ∷ others) = (
      IsMatch-InLines lines hunk m (match_hunk-IsMatch lines index hunk m one),
      match_hunks-InLines lines (index + 1) hunks others more,
    ) in
    let same : m ∷ others ≡ ms = ground arith in subst (All (InLines (length lines))) same all_of

-- Where the hunks parse, are matched, and begin at different lines, the update of the lines refuses
-- exactly when two neighbours overlap, and else returns the lines with all hunks put in, in one pass
-- from the first to the last: between the hunks nothing changes.
pub update_lines-splice :
    (lines : List Line) (hunks : List (List Line)) (parsed : List ParsedHunk)
    (found : List MatchedHunk)
    → parse_hunks hunks ≡ ok parsed
    → match_hunks lines 0 parsed ≡ ok found
    → DifferentStarts found
    → update_lines lines hunks ≡ (
        if overlap (sort_up found)
        then raised hunks_overlap
        else ok (splice 0 (sort_up found) lines))
unfolding update_lines
update_lines-splice lines hunks parsed found p m d =
    rw (p, update_lines)
      (rw m (elim (Bool-cases (overlap (sort_up found))) [
        | inl o ↦ rw o refl
        | inr o ↦
            let laid =
              overlap-LaidOut 0 (length lines) (sort_up found) (sort_up-FromStart found)
                (sort_up-DifferentStarts found d)
                (sort_up-All (InLines (length lines)) found
                  (match_hunks-InLines lines 0 parsed found m))
                o in
            rw o (
              ap ok (
                replace_all-sort_down 0 (length lines) lines (sort_up found) laid
                ∙ replace_back-splice 0 0 (sort_up found) lines (omega arith) laid))
      ]))
