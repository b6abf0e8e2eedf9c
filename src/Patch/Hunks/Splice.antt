-- ===== src/Patch/Hunks/Splice.antt =====
-- The updated lines, as one pass from the first hunk to the last: the reference that the
-- replacement from the last hunk to the first is held against.
use devmcp_runtime.Patch.Hunks.{MatchedHunk, replace_lines, Line}
use devmcp_runtime.Base.{
  ℕ, zero, suc, ◌-◌, ◌≤◌, max, ◌≡◌, refl, sym, ap, ◌∙◌, List, [], ◌∷◌, ◌++◌, arith, length, take,
  drop, length-take,
}

-- The lines from index `i` on, with the hunks put in.
unfoldable pub splice : ℕ → List MatchedHunk → List Line → List Line
splice i [] rest = rest
splice i (m ∷ ms) rest =
    take (m.start - i) rest ++ (m.new ++ splice m.end ms (drop (m.end - i) rest))

-- The hunks lie behind `lo` and within `n` lines, in order, apart, at different starts.
abbrev pub LaidOut : ℕ → ℕ → List MatchedHunk → Type 0
LaidOut lo n [] = Unit
LaidOut lo n (m ∷ ms) =
    (lo ≤ m.start) × (m.start ≤ m.end) × (m.end ≤ n) × LaidOut (max m.end (suc m.start)) n ms

-- The replacement, from the last hunk of the list to the first.
abbrev pub replace_back : List MatchedHunk → List Line → List Line
replace_back [] lines = lines
replace_back (m ∷ ms) lines = replace_lines (replace_back ms lines) m

module _ {ℓ} {A : Type ℓ} where
  take-nil : (k : ℕ) → take {A = A} k [] ≡ []
  take-nil zero = refl
  take-nil (suc k) = refl

  drop-nil : (k : ℕ) → drop {A = A} k [] ≡ []
  drop-nil zero = refl
  drop-nil (suc k) = refl

  pub take-append : (k : ℕ) (xs ys : List A) → k ≤ length xs → take k (xs ++ ys) ≡ take k xs
  take-append zero xs ys h = refl
  take-append (suc k) [] ys h = absurd (omega arith)
  take-append (suc k) (x ∷ xs) ys h = ap (λ l. x ∷ l) (take-append k xs ys (omega arith))

  pub drop-append : (k : ℕ) (xs ys : List A) → k ≤ length xs → drop k (xs ++ ys) ≡ drop k xs ++ ys
  drop-append zero xs ys h = refl
  drop-append (suc k) [] ys h = absurd (omega arith)
  drop-append (suc k) (x ∷ xs) ys h = drop-append k xs ys (omega arith)

  pub take-take : (k n : ℕ) (xs : List A) → k ≤ n → take k (take n xs) ≡ take k xs
  take-take zero n xs h = refl
  take-take (suc k) zero xs h = absurd (omega arith)
  take-take (suc k) (suc n) [] h = refl
  take-take (suc k) (suc n) (x ∷ xs) h = ap (λ l. x ∷ l) (take-take k n xs (omega arith))

  pub drop-take : (k n : ℕ) (xs : List A) → k ≤ n → drop k (take n xs) ≡ take (n - k) (drop k xs)
  drop-take zero n xs h = ap (λ m. take m xs) (omega arith)
  drop-take (suc k) zero xs h = absurd (omega arith)
  drop-take (suc k) (suc n) [] h = sym (take-nil (suc n - suc k))
  drop-take (suc k) (suc n) (x ∷ xs) h =
      drop-take k n xs (omega arith) ∙ ap (λ m. take m (drop k xs)) (omega arith)

  pub drop-drop : (k n : ℕ) (xs : List A) → k ≤ n → drop (n - k) (drop k xs) ≡ drop n xs
  drop-drop zero n xs h = ap (λ m. drop m xs) (omega arith)
  drop-drop (suc k) zero xs h = absurd (omega arith)
  drop-drop (suc k) (suc n) [] h = drop-nil (suc n - suc k)
  drop-drop (suc k) (suc n) (x ∷ xs) h =
      ap (λ m. drop m (drop k xs)) (omega arith) ∙ drop-drop k n xs (omega arith)

-- What lies before the hunks stays.
take-replace_back :
    (lo k : ℕ) (ms : List MatchedHunk) (lines : List Line)
    → k ≤ lo
    → LaidOut lo (length lines) ms
    → take k (replace_back ms lines) ≡ take k lines
unfolding replace_lines
take-replace_back lo k [] lines le h = refl
take-replace_back lo k (m ∷ ms) lines le h =
    let later = max m.end (suc m.start) in
    let same = take-replace_back later m.start ms lines (omega arith) h.3 in
    rw same (
      take-append k (take m.start lines) _ (omega (arith, length-take m.start lines, h))
      ∙ take-take k m.start lines (omega (arith, h)))

-- Replacing from the last hunk to the first gives, from any index before the first hunk on, what
-- the one pass gives.
pub replace_back-splice :
    (lo i : ℕ) (ms : List MatchedHunk) (lines : List Line)
    → i ≤ lo
    → LaidOut lo (length lines) ms
    → drop i (replace_back ms lines) ≡ splice i ms (drop i lines)
unfolding splice replace_lines
replace_back-splice lo i [] lines le h = refl
replace_back-splice lo i (m ∷ ms) lines le h =
    let later = max m.end (suc m.start) in
    let before = take-replace_back later m.start ms lines (omega arith) h.3 in
    let behind = replace_back-splice later m.end ms lines (omega arith) h.3 in
    let fits : i ≤ length (take m.start lines) = omega (arith, length-take m.start lines, h) in
    rw (before, behind)
      (drop-append i (take m.start lines) _ fits
        ∙ rw
            (
              drop-take i m.start lines (omega (arith, h)),
              drop-drop i m.end lines (omega (arith, h)),
            )
            refl)
