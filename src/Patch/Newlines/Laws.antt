-- ===== src/Patch/Newlines/Laws.antt =====
-- What the newline helpers keep, and what they lose.
use devmcp_runtime.Patch.Newlines.{
  replace_cr, replace_crlf, normalize_to_lf, replace_lf, restore_line_endings, starts_with_lf,
  detect_line_ending, find_lf, find_crlf, next_index,
}
use devmcp_runtime.Base.{
  ℕ, ◌≡◌, refl, ◌≢◌, Bool, true, false, List, [], ◌∷◌, arith, All, ◌⊎◌, inl, inr, not, ◌&&◌, none,
  some, ◌==◌, if◌then◌else◌, Option-cases,
}

-- No carriage return in the text.
abbrev pub NoCr : List ℕ → Type 0
NoCr s = All (λ c. c ≢ 13) s

replace_cr-NoCr : (s : List ℕ) → NoCr (replace_cr s)
unfolding replace_cr
replace_cr-NoCr [] = tt
replace_cr-NoCr (c ∷ s) = ground (arith, replace_cr-NoCr s)

-- A normalized text holds no carriage return.
pub normalize_to_lf-NoCr : (s : List ℕ) → NoCr (normalize_to_lf s)
unfolding normalize_to_lf
normalize_to_lf-NoCr s = replace_cr-NoCr (replace_crlf s)

replace_cr_of_NoCr : (s : List ℕ) → NoCr s → replace_cr s ≡ s
unfolding replace_cr
replace_cr_of_NoCr [] h = refl
replace_cr_of_NoCr (c ∷ s) h = ground (arith, replace_cr_of_NoCr s h.1)

replace_crlf_of_NoCr : (s : List ℕ) → NoCr s → replace_crlf s ≡ s
unfolding replace_crlf starts_with_lf
replace_crlf_of_NoCr [] h = refl
replace_crlf_of_NoCr (c ∷ s) h = ground (arith, replace_crlf_of_NoCr s h.1)

pub normalize_of_NoCr : (s : List ℕ) → NoCr s → normalize_to_lf s ≡ s
unfolding normalize_to_lf
normalize_of_NoCr s h = rw (replace_crlf_of_NoCr s h) (replace_cr_of_NoCr s h)

find_crlf_of_NoCr : (s : List ℕ) → NoCr s → find_crlf s ≡ none
unfolding find_crlf starts_with_lf
find_crlf_of_NoCr [] h = refl
find_crlf_of_NoCr (c ∷ s) h = ground (arith, find_crlf_of_NoCr s h.1)

pub detect_of_NoCr : (s : List ℕ) → NoCr s → detect_line_ending s ≡ false
unfolding detect_line_ending
detect_of_NoCr s h = rw (find_crlf_of_NoCr s h) refl

-- Every line feed stands behind a carriage return, and every carriage return before a line feed; the
-- flag says that the last character was one.
unfoldable pub crlf_only : Bool → List ℕ → Bool
crlf_only cr [] = not cr
crlf_only cr (c ∷ s) = (if cr then c == 10 else not (c == 10)) && crlf_only (c == 13) s

replace_lf-crlf :
    (s : List ℕ) → crlf_only false s ≡ true → replace_lf (replace_cr (replace_crlf s)) ≡ s
unfolding crlf_only replace_lf replace_cr replace_crlf starts_with_lf
replace_lf-crlf [] h = refl
replace_lf-crlf (c ∷ []) h = ground (arith, h)
replace_lf-crlf (c ∷ d ∷ s) h = ground (arith, h, replace_lf-crlf (d ∷ s), replace_lf-crlf s)

find_lf-crlf : (s : List ℕ) → crlf_only false s ≡ true → find_lf s ≡ next_index (find_crlf s)
unfolding crlf_only find_lf find_crlf starts_with_lf
find_lf-crlf [] h = refl
find_lf-crlf (c ∷ []) h = ground (arith, h)
find_lf-crlf (c ∷ d ∷ s) h = ground (arith, h, find_lf-crlf (d ∷ s))

crlf_only-NoCr : (s : List ℕ) → crlf_only false s ≡ true → find_crlf s ≡ none → NoCr s
unfolding crlf_only find_crlf starts_with_lf
crlf_only-NoCr [] h e = tt
crlf_only-NoCr (c ∷ []) h e = ground (arith, h)
crlf_only-NoCr (c ∷ d ∷ s) h e = ground (arith, h, e, crlf_only-NoCr (d ∷ s))

restore_of_NoCr :
    (text : List ℕ)
    → NoCr text
    → restore_line_endings (normalize_to_lf text) (detect_line_ending text) ≡ text
unfolding restore_line_endings
restore_of_NoCr text h = rw (detect_of_NoCr text h) (normalize_of_NoCr text h)

detect_crlf :
    (text : List ℕ) (i : ℕ)
    → crlf_only false text ≡ true
    → find_crlf text ≡ some i
    → detect_line_ending text ≡ true
unfolding detect_line_ending
detect_crlf text i h e = ground (arith, e, find_lf-crlf text h)

-- A text whose line ends are all line feeds, or all carriage returns with line feeds, is got back
-- when it is normalized and its line ending, as it was detected, is restored.
pub restore-normalize :
    (text : List ℕ)
    → NoCr text ⊎ (crlf_only false text ≡ true)
    → restore_line_endings (normalize_to_lf text) (detect_line_ending text) ≡ text
restore-normalize text (inl h) = restore_of_NoCr text h
restore-normalize text (inr h) = elim (Option-cases (find_crlf text)) [
  | inl nowhere ↦ restore_of_NoCr text (crlf_only-NoCr text h nowhere)
  | inr (i, e) ↦
      rw (detect_crlf text i h e)
        (unfold restore_line_endings normalize_to_lf in replace_lf-crlf text h)
]
