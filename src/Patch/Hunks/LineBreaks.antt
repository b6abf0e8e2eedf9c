-- ===== src/Patch/Hunks/LineBreaks.antt =====
-- The line breaks that `str.splitlines` knows beside the line feed, in `apply_update_hunks`.
use devmcp_runtime.Patch.Newlines.Laws.{NoCr, normalize_of_NoCr, detect_of_NoCr}
use devmcp_runtime.Patch.Hunks.{Line, apply_parts, apply_update_hunks, is_empty}
use devmcp_runtime.Patch.Newlines.{
  split_lines, splitlines, is_break, cons_head, ends_with_lf, strip_bom,
}
use devmcp_runtime.Base.{
  ℕ, ◌≡◌, refl, sym, ap, ◌≢◌, inl, inr, true, false, List, [], ◌∷◌, arith, ◌==◌, if◌then◌else◌,
  Bool-cases, ◌∙◌,
}

-- Every line break made a line feed.
abbrev pub as_line_feeds : List ℕ → List ℕ
as_line_feeds [] = []
as_line_feeds (c ∷ s) = (if is_break c then 10 else c) ∷ as_line_feeds s

line_feed-is_break : is_break 10 ≡ true
unfolding is_break
line_feed-is_break = refl

ne-cr : (c : ℕ) → c ≢ 13 → (c == 13) ≡ false
ne-cr c h = ground (arith, h)

-- One step of the split, where the character is no carriage return.
split_lines-step :
    (c : ℕ) (s : List ℕ)
    → c ≢ 13
    → split_lines false (c ∷ s)
      ≡ (if is_break c then [] ∷ split_lines false s else cons_head c (split_lines false s))
unfolding split_lines
split_lines-step c s h = rw (ne-cr c h) refl

split_lines-as_line_feeds :
    (s : List ℕ) → NoCr s → split_lines false (as_line_feeds s) ≡ split_lines false s
unfolding split_lines
split_lines-as_line_feeds [] h = refl
split_lines-as_line_feeds (c ∷ s) h = elim (Bool-cases (is_break c)) [
  | inl e ↦ rw (e, line_feed-is_break, ne-cr c h.0, split_lines-as_line_feeds s h.1) refl
  | inr e ↦ rw (e, ne-cr c h.0, split_lines-as_line_feeds s h.1, e) refl
]

as_line_feeds-NoCr : (s : List ℕ) → NoCr s → NoCr (as_line_feeds s)
as_line_feeds-NoCr [] h = tt
as_line_feeds-NoCr (c ∷ s) h = ground (arith, h.0, as_line_feeds-NoCr s h.1)

ends_with_lf-as_line_feeds :
    (s : List ℕ) → ends_with_lf s ≡ true → ends_with_lf (as_line_feeds s) ≡ true
unfolding ends_with_lf
ends_with_lf-as_line_feeds [] h = absurd (ground (arith, h))
ends_with_lf-as_line_feeds (c ∷ []) h = ground (arith, h, line_feed-is_break)
ends_with_lf-as_line_feeds (c ∷ d ∷ s) h = ends_with_lf-as_line_feeds (d ∷ s) h

-- The byte order mark is no line break.
strip_bom-as_line_feeds :
    (s : List ℕ) → strip_bom (as_line_feeds s) ≡ ((strip_bom s).0, as_line_feeds (strip_bom s).1)
unfolding strip_bom is_break
strip_bom-as_line_feeds [] = refl
strip_bom-as_line_feeds (c ∷ s) = ground arith

strip_bom-NoCr : (s : List ℕ) → NoCr s → NoCr (strip_bom s).1
unfolding strip_bom
strip_bom-NoCr [] h = tt
strip_bom-NoCr (c ∷ s) h = ground (arith, h.0, h.1)

strip_bom-ends : (s : List ℕ) → ends_with_lf s ≡ true → ends_with_lf (strip_bom s).1 ≡ true
unfolding strip_bom ends_with_lf
strip_bom-ends [] h = absurd (ground (arith, h))
strip_bom-ends (c ∷ []) h = ground (arith, h)
strip_bom-ends (c ∷ d ∷ s) h = ground (arith, h)

is_empty-as_line_feeds : (s : List ℕ) → is_empty (as_line_feeds s) ≡ is_empty s
is_empty-as_line_feeds [] = refl
is_empty-as_line_feeds (c ∷ s) = refl

apply_parts-as_line_feeds :
    (mark text : List ℕ) (hunks : List (List Line))
    → NoCr text
    → ends_with_lf text ≡ true
    → apply_parts (mark, text) hunks ≡ apply_parts (mark, as_line_feeds text) hunks
unfolding apply_parts splitlines
apply_parts-as_line_feeds mark text hunks h e =
    let h' = as_line_feeds-NoCr text h in
    rw
      (
        normalize_of_NoCr text h,
        normalize_of_NoCr (as_line_feeds text) h',
        detect_of_NoCr text h,
        detect_of_NoCr (as_line_feeds text) h',
        split_lines-as_line_feeds text h,
        is_empty-as_line_feeds text,
        e,
        ends_with_lf-as_line_feeds text e,
      )
      refl

-- An update with a hunk cannot tell a form feed, or any other line break, from a line feed: a text
-- with no carriage return that ends in a line feed is updated, or refused, like the text in which
-- all line breaks are line feeds.
pub line_breaks_lost :
    (text : List ℕ) (hunk : List Line) (hunks : List (List Line))
    → NoCr text
    → ends_with_lf text ≡ true
    → apply_update_hunks text (hunk ∷ hunks)
      ≡ apply_update_hunks (as_line_feeds text) (hunk ∷ hunks)
unfolding apply_update_hunks
line_breaks_lost text hunk hunks h e =
    let (mark, rest) = strip_bom text in
    apply_parts-as_line_feeds mark rest (hunk ∷ hunks) (strip_bom-NoCr text h)
      (strip_bom-ends text e)
    ∙ ap (λ parts. apply_parts parts (hunk ∷ hunks)) (sym (strip_bom-as_line_feeds text))
