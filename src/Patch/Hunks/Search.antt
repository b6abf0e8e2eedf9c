-- ===== src/Patch/Hunks/Search.antt =====
-- `find_subsequence_all` finds every place where the lines stand, and no other.
use devmcp_runtime.Base.Text.{text_eq_iff}
use devmcp_runtime.Patch.Hunks.{lines_eq, Line, find_from, head_is, occurs_at, find_subsequence_all}
use devmcp_runtime.Base.{
  ℕ, zero, suc, ◌+◌, ◌-◌, ◌≤◌, ◌<◌, ◌≡◌, ap, ◌↔◌, ◌⊎◌, true, List, [], ◌∷◌, arith, length, take,
  drop, length-take, length-drop,
}

abbrev pub Member : ℕ → List ℕ → Type 0
Member i [] = ⊥
Member i (j ∷ js) = (i ≡ j) ⊎ Member i js

-- The needle stands in the lines at that index, whole.
abbrev pub StandsAt : List Line → List Line → ℕ → Type 0
StandsAt lines needle i =
    (i + length needle ≤ length lines) × (take (length needle) (drop i lines) ≡ needle)

pub lines_eq_iff : (a b : List Line) → (lines_eq a b ≡ true) ↔ (a ≡ b)
unfolding lines_eq
lines_eq_iff [] [] = ground arith
lines_eq_iff [] (b ∷ bs) = ground arith
lines_eq_iff (a ∷ as') [] = ground arith
lines_eq_iff (a ∷ as') (b ∷ bs) = ground (arith, lines_eq_iff as' bs, text_eq_iff a b)

head_of_take :
    (l : List Line) (first : Line) (more : List Line)
    → take (length (first ∷ more)) l ≡ first ∷ more
    → head_is l first ≡ true
head_of_take [] first more e = absurd (ground arith)
head_of_take (x ∷ l) first more e = ground (arith, text_eq_iff x first)

occurs_at_iff :
    (lines : List Line) (first : Line) (more : List Line) (i : ℕ)
    → (occurs_at lines first (first ∷ more) i ≡ true) ↔ StandsAt lines (first ∷ more) i
unfolding occurs_at
occurs_at_iff lines first more i =
    let k = length (first ∷ more) in
    let part = take k (drop i lines) in
    let same = lines_eq_iff part (first ∷ more) in
    (
      λ e.
          let eq = same.0 (ground arith) in
          (omega (arith, length-take k (drop i lines), length-drop i lines, ap length eq), eq),
      λ (bound, eq). ground (arith, head_of_take (drop i lines) first more eq, same),
    )

Member-find_from :
    (lines : List Line) (first : Line) (needle : List Line) (i n j : ℕ)
    → Member j (find_from lines first needle i n)
      ↔ ((i ≤ j) × (j < i + n) × (occurs_at lines first needle j ≡ true))
unfolding find_from
Member-find_from lines first needle i zero j = ground arith
Member-find_from lines first needle i (suc n) j =
    ground (arith, Member-find_from lines first needle (i + 1) n j)

-- Where the needle is found: at the front only if it has no lines, else wherever it stands.
unfoldable pub FoundAt : List Line → List Line → ℕ → Type 0
FoundAt lines [] j = j ≡ 0
FoundAt lines (first ∷ more) j = StandsAt lines (first ∷ more) j

-- An index is among the matches of a needle that has a line exactly when the lines stand there,
-- whole: every match is found, and no other index. A needle without lines has the one match 0.
pub find_subsequence_all_iff :
    (lines needle : List Line) (j : ℕ)
    → Member j (find_subsequence_all lines needle) ↔ FoundAt lines needle j
unfolding find_subsequence_all FoundAt
find_subsequence_all_iff lines [] j = ground arith
find_subsequence_all_iff lines (first ∷ more) j = ground (
  arith,
  Member-find_from lines first (first ∷ more) 0 (length lines + 1 - length (first ∷ more)) j,
  occurs_at_iff lines first more j,
)

pub found_iff :
    (lines : List Line) (first : Line) (more : List Line) (j : ℕ)
    → Member j (find_subsequence_all lines (first ∷ more)) ↔ StandsAt lines (first ∷ more) j
found_iff lines first more j = unfold FoundAt in find_subsequence_all_iff lines (first ∷ more) j
