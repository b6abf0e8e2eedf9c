-- ===== src/Truncation/Candidates.antt =====
-- The lines that `truncate_text_tail` of coding_tools_mcp/textutils.py goes through.
use devmcp_runtime.Base.Text.{text_eq}
use devmcp_runtime.Patch.Newlines.{cons_head, join}
use devmcp_runtime.Truncation.{candidate_lines, split_lf}
use devmcp_runtime.Truncation.Utf8.{IsCode}
use devmcp_runtime.Base.{
  ℕ, ◌≡◌, refl, ap, ◌∙◌, ◌⊎◌, inl, inr, List, [], ◌∷◌, ◌++◌, ◌==◌, if_both, All,
}
use mathlib.Core.List.{append_assoc, reverse_aux}

-- The lines without an empty last one make the text, or the text without its last line feed.
pub candidates-front :
    (lines : List (List ℕ))
    → (join (candidate_lines lines) ≡ join lines)
      ⊎ (join (candidate_lines lines) ++ (10 ∷ []) ≡ join lines)
unfolding candidate_lines join text_eq
candidates-front [] = inl refl
candidates-front ([] ∷ []) = inl refl
candidates-front ((c ∷ line) ∷ []) = inl refl
candidates-front (line ∷ [] ∷ []) = inr refl
candidates-front (line ∷ (c ∷ m) ∷ []) = inl refl
candidates-front (line ∷ m ∷ k ∷ ls) = elim (candidates-front (m ∷ k ∷ ls)) [
  | inl e ↦ inl (ap (λ t. line ++ (10 ∷ t)) e)
  | inr e ↦ inr (
      append_assoc line (10 ∷ join (candidate_lines (m ∷ k ∷ ls))) (10 ∷ [])
      ∙ ap (λ t. line ++ (10 ∷ t)) e)
]

cons_head-All :
    (c : ℕ) (ls : List (List ℕ))
    → IsCode c
    → All (All IsCode) ls
    → All (All IsCode) (cons_head c ls)
cons_head-All c [] i h = ((i, tt), tt)
cons_head-All c (l ∷ ls) i h = ((i, h.0), h.1)

pub split_lf-All : (s : List ℕ) → All IsCode s → All (All IsCode) (split_lf s)
unfolding split_lf
split_lf-All [] h = (tt, tt)
split_lf-All (c ∷ s) h =
    let rest = split_lf-All s h.1 in
    if_both (All (All IsCode)) (c == 10) (tt, rest) (cons_head-All c (split_lf s) h.0 rest)

module _ (P : List ℕ → Type 0) where
  pub reverse_aux-All : (ls o : List (List ℕ)) → All P ls → All P o → All P (reverse_aux ls o)
  reverse_aux-All [] o h k = k
  reverse_aux-All (l ∷ ls) o h k = reverse_aux-All ls (l ∷ o) h.1 (h.0, k)

  pub candidates-All : (ls : List (List ℕ)) → All P ls → All P (candidate_lines ls)
  unfolding candidate_lines
  candidates-All [] h = tt
  candidates-All (l ∷ []) h = if_both (All P) (text_eq l []) tt h
  candidates-All (l ∷ m ∷ ls) h = (h.0, candidates-All (m ∷ ls) h.1)
