-- ===== src/Patch/Hunks/Order.antt =====
-- The two sorts of `apply_update_hunks` and its overlap test.
use devmcp_runtime.Patch.Hunks.Splice.{LaidOut, replace_back}
use devmcp_runtime.Patch.Hunks.{
  sort_up, MatchedHunk, insert_up, overlap, sort_down, insert_down, replace_all, Line,
  replace_lines,
}
use devmcp_runtime.Base.{
  ℕ, suc, ◌≤◌, max, ◌≡◌, refl, sym, ap, ◌∙◌, ◌≢◌, false, List, [], ◌∷◌, ◌++◌, arith, leb, if_both,
  All,
}

abbrev pub FromStart : ℕ → List MatchedHunk → Type 0
FromStart lo [] = Unit
FromStart lo (m ∷ ms) = (lo ≤ m.start) × FromStart m.start ms

insert_up-FromStart :
    (m : MatchedHunk) (ns : List MatchedHunk) (lo : ℕ)
    → lo ≤ m.start
    → FromStart lo ns
    → FromStart lo (insert_up m ns)
unfolding insert_up
insert_up-FromStart m [] lo le h = (le, tt)
insert_up-FromStart m (n ∷ ns) lo le h = ground (arith, insert_up-FromStart m ns n.start)

-- The sort puts the hunks in the order of their starts.
pub sort_up-FromStart : (ms : List MatchedHunk) → FromStart 0 (sort_up ms)
unfolding sort_up
sort_up-FromStart [] = tt
sort_up-FromStart (m ∷ ms) =
    insert_up-FromStart m (sort_up ms) 0 (omega arith) (sort_up-FromStart ms)

module _ (P : MatchedHunk → Type 0) where
  insert_up-All :
      (m : MatchedHunk) (ns : List MatchedHunk) → P m → All P ns → All P (insert_up m ns)
  unfolding insert_up
  insert_up-All m [] p h = (p, tt)
  insert_up-All m (n ∷ ns) p h =
      if_both (All P) (leb m.start n.start) (p, h) (h.0, insert_up-All m ns p h.1)

  pub sort_up-All : (ms : List MatchedHunk) → All P ms → All P (sort_up ms)
  unfolding sort_up
  sort_up-All [] h = tt
  sort_up-All (m ∷ ms) h = insert_up-All m (sort_up ms) h.0 (sort_up-All ms h.1)

  insert_down-All :
      (m : MatchedHunk) (ns : List MatchedHunk) → P m → All P ns → All P (insert_down m ns)
  unfolding insert_down
  insert_down-All m [] p h = (p, tt)
  insert_down-All m (n ∷ ns) p h =
      if_both (All P) (leb n.start m.start) (p, h) (h.0, insert_down-All m ns p h.1)

  sort_down-All : (ms : List MatchedHunk) → All P ms → All P (sort_down ms)
  unfolding sort_down
  sort_down-All [] h = tt
  sort_down-All (m ∷ ms) h = insert_down-All m (sort_down ms) h.0 (sort_down-All ms h.1)

-- No two of the hunks begin at the same line.
abbrev pub DifferentStarts : List MatchedHunk → Type 0
DifferentStarts [] = Unit
DifferentStarts (m ∷ ms) = All (λ n. n.start ≢ m.start) ms × DifferentStarts ms

insert_up-DifferentStarts :
    (m : MatchedHunk) (ns : List MatchedHunk)
    → All (λ n. n.start ≢ m.start) ns
    → DifferentStarts ns
    → DifferentStarts (insert_up m ns)
unfolding insert_up
insert_up-DifferentStarts m [] p h = (tt, tt)
insert_up-DifferentStarts m (n ∷ ns) p h =
    if_both DifferentStarts (leb m.start n.start) (p, h)
      (
        insert_up-All (λ k. k.start ≢ n.start) m ns (λ e. p.0 (sym e)) h.0,
        insert_up-DifferentStarts m ns p.1 h.1,
      )

pub sort_up-DifferentStarts :
    (ms : List MatchedHunk) → DifferentStarts ms → DifferentStarts (sort_up ms)
unfolding sort_up
sort_up-DifferentStarts [] h = tt
sort_up-DifferentStarts (m ∷ ms) h =
    insert_up-DifferentStarts m (sort_up ms) (sort_up-All (λ n. n.start ≢ m.start) ms h.0)
      (sort_up-DifferentStarts ms h.1)

-- The hunk lies within `n` lines.
abbrev pub InLines : ℕ → MatchedHunk → Type 0
InLines n m = (m.start ≤ m.end) × (m.end ≤ n)

-- Sorted, apart by the overlap test, at different starts and within the lines: laid out.
pub overlap-LaidOut :
    (lo n : ℕ) (ms : List MatchedHunk)
    → FromStart lo ms
    → DifferentStarts ms
    → All (InLines n) ms
    → overlap ms ≡ false
    → LaidOut lo n ms
unfolding overlap
overlap-LaidOut lo n [] s d r o = tt
overlap-LaidOut lo n (m ∷ []) s d r o = omega arith
overlap-LaidOut lo n (m ∷ k ∷ ms) s d r o =
    let apart : max m.end (suc m.start) ≤ k.start = ground arith in
    let later : overlap (k ∷ ms) ≡ false = ground arith in
    (
      s.0,
      r.0.0,
      r.0.1,
      overlap-LaidOut (max m.end (suc m.start)) n (k ∷ ms) (apart, s.1.1) d.1 r.1 later,
    )

-- Strictly ascending hunks come out of the second sort in the reverse order.
starts_after :
    (lo k n : ℕ) (ms : List MatchedHunk) → k ≤ lo → LaidOut lo n ms → All (λ m. k ≤ m.start) ms
starts_after lo k n [] le h = tt
starts_after lo k n (m ∷ ms) le h =
    (omega (arith, h), starts_after (max m.end (suc m.start)) k n ms (omega (arith, h)) h.3)

insert_down_last :
    (m : MatchedHunk) (ns : List MatchedHunk)
    → All (λ k. suc m.start ≤ k.start) ns
    → insert_down m ns ≡ ns ++ m ∷ []
unfolding insert_down
insert_down_last m [] h = refl
insert_down_last m (n ∷ ns) h = ground (arith, insert_down_last m ns h.1)

replace_all-append :
    (lines : List Line) (ms : List MatchedHunk) (m : MatchedHunk)
    → replace_all lines (ms ++ m ∷ []) ≡ replace_lines (replace_all lines ms) m
unfolding replace_all
replace_all-append lines [] m = refl
replace_all-append lines (k ∷ ms) m = replace_all-append (replace_lines lines k) ms m

-- Laid out hunks come out of the second sort in the reverse order.
pub replace_all-sort_down :
    (lo n : ℕ) (lines : List Line) (ms : List MatchedHunk)
    → LaidOut lo n ms
    → replace_all lines (sort_down ms) ≡ replace_back ms lines
unfolding sort_down
replace_all-sort_down lo n lines [] h = unfold replace_all in refl
replace_all-sort_down lo n lines (m ∷ ms) h =
    let later = max m.end (suc m.start) in
    let after = starts_after later (suc m.start) n ms (omega arith) h.3 in
    ap (replace_all lines)
      (insert_down_last m (sort_down ms) (sort_down-All (λ k. suc m.start ≤ k.start) ms after))
    ∙ replace_all-append lines (sort_down ms) m
    ∙ ap (λ l. replace_lines l m) (replace_all-sort_down later n lines ms h.3)
