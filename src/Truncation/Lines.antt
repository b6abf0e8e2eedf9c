-- ===== src/Truncation/Lines.antt =====
-- The lines that coding_tools_mcp/textutils.py splits a text into, and their line feeds.
use devmcp_runtime.Truncation.{split_lf}
use devmcp_runtime.Patch.Newlines.{join, cons_head}
use devmcp_runtime.Base.{
  ℕ, ◌+◌, ◌≤◌, ◌<◌, ◌≡◌, refl, ap, ◌∙◌, false, List, [], ◌∷◌, ◌++◌, arith, ◌==◌, if◌then◌else◌,
  length, All, if_cases,
}

unfoldable pub line_feeds : List ℕ → ℕ
line_feeds [] = 0
line_feeds (c ∷ s) = (if c == 10 then 1 else 0) + line_feeds s

-- A line holds no line feed.
abbrev pub IsLine : List ℕ → Type 0
IsLine l = line_feeds l ≡ 0

pub line_feeds-append : (a b : List ℕ) → line_feeds (a ++ b) ≡ line_feeds a + line_feeds b
unfolding line_feeds
line_feeds-append [] b = omega arith
line_feeds-append (c ∷ a) b = omega (arith, line_feeds-append a b)

length-cons_head :
    (c : ℕ) (ls : List (List ℕ)) → 0 < length ls → length (cons_head c ls) ≡ length ls
length-cons_head c [] h = absurd (omega arith)
length-cons_head c (l ∷ ls) h = refl

pub length-split_lf : (s : List ℕ) → length (split_lf s) ≡ line_feeds s + 1
unfolding split_lf line_feeds
length-split_lf [] = refl
length-split_lf (c ∷ s) =
    let rest = length-split_lf s in
    ground (arith, rest, length-cons_head c (split_lf s) (omega (arith, rest)))

cons_head-IsLine :
    (c : ℕ) (ls : List (List ℕ)) → (c == 10) ≡ false → All IsLine ls → All IsLine (cons_head c ls)
unfolding line_feeds
cons_head-IsLine c [] e h = (rw e (omega arith), tt)
cons_head-IsLine c (l ∷ ls) e h = (rw e (omega (arith, h.0)), h.1)

pub split_lf-IsLine : (s : List ℕ) → All IsLine (split_lf s)
unfolding split_lf
split_lf-IsLine [] = (unfold line_feeds in refl, tt)
split_lf-IsLine (c ∷ s) =
    if_cases {A = List (List ℕ)} (All IsLine) (c == 10)
      (λ e. (unfold line_feeds in refl, split_lf-IsLine s))
      (λ e. cons_head-IsLine c (split_lf s) e (split_lf-IsLine s))

line_feeds-join :
    (l : List ℕ) (ls : List (List ℕ)) → All IsLine (l ∷ ls) → line_feeds (join (l ∷ ls)) ≡ length ls
unfolding join
line_feeds-join l [] h = h.0
line_feeds-join l (m ∷ ls) h =
    let more : line_feeds (10 ∷ join (m ∷ ls)) ≡ 1 + line_feeds (join (m ∷ ls)) =
      unfold line_feeds in omega arith in
    omega (arith, line_feeds-append l (10 ∷ join (m ∷ ls)), h.0, more, line_feeds-join m ls h.1)

-- A text that is joined of so many lines splits into no more of them, but into one at least.
pub split_lf-join :
    (ls : List (List ℕ)) (limit : ℕ)
    → All IsLine ls
    → 1 ≤ limit
    → length ls ≤ limit
    → length (split_lf (join ls)) ≤ limit
split_lf-join [] limit h some_line few = unfold join split_lf in some_line
split_lf-join (l ∷ ls) limit h some_line few =
    omega (arith, length-split_lf (join (l ∷ ls)), line_feeds-join l ls h, few)

-- A part of a line is a line.
pub IsLine-parts : (a b line : List ℕ) → a ++ b ≡ line → IsLine line → IsLine a × IsLine b
IsLine-parts a b line e h =
    let whole : line_feeds (a ++ b) ≡ 0 = ap line_feeds e ∙ h in
    (omega (arith, whole, line_feeds-append a b), omega (arith, whole, line_feeds-append a b))

pub IsLine-one : (l : List ℕ) (limit : ℕ) → IsLine l → 1 ≤ limit → length (split_lf l) ≤ limit
IsLine-one l limit h some_line = omega (arith, length-split_lf l, h, some_line)
