-- ===== src/Paths/Inherited.antt =====
-- The protection of coding_tools_mcp/path_security.py is inherited by what lies below.
use devmcp_runtime.Paths.{
  first_subtree, first_part, Reason, lowered, sensitive_path_reason, Part, pair_reason, part_reason,
  last_reason, either_reason,
}
use devmcp_runtime.Base.{
  ◌≡◌, refl, ap, inl, inr, Bool, true, false, ◌||◌, Option, none, some, List, [], ◌∷◌, ◌++◌, arith,
  Bool-cases,
}

abbrev pub refused : Option Reason → Bool
refused none = false
refused (some r) = true

-- A directory that is protected as such, and not only as a file of that name.
abbrev pub protects : List Part → Bool
protects parts = refused (first_part (lowered parts)) || refused (first_subtree (lowered parts))

lowered-append : (ps qs : List Part) → lowered (ps ++ qs) ≡ lowered ps ++ lowered qs
unfolding lowered
lowered-append [] qs = refl
lowered-append (p ∷ ps) qs = ground (arith, lowered-append ps qs)

refused-either_reason :
    (a b : Option Reason) → refused (either_reason a b) ≡ (refused a || refused b)
unfolding either_reason
refused-either_reason none b = refl
refused-either_reason (some r) b = refl

first_part-append :
    (ps qs : List Part)
    → refused (first_part (ps ++ qs)) ≡ (refused (first_part ps) || refused (first_part qs))
unfolding first_part
first_part-append [] qs = refl
first_part-append (p ∷ ps) qs = ground (
  arith,
  first_part-append ps qs,
  refused-either_reason (part_reason p) (first_part ps),
  refused-either_reason (part_reason p) (first_part (ps ++ qs)),
)

first_subtree-before :
    (ps qs : List Part)
    → refused (first_subtree qs) ≡ true
    → refused (first_subtree (ps ++ qs)) ≡ true
unfolding first_subtree
first_subtree-before [] qs h = h
first_subtree-before (p ∷ []) [] h = absurd (ground arith)
first_subtree-before (p ∷ []) (q ∷ qs) h =
    ground (arith, refused-either_reason (pair_reason p q) (first_subtree (q ∷ qs)))
first_subtree-before (p ∷ p' ∷ ps) qs h = ground (
  arith,
  first_subtree-before (p' ∷ ps) qs h,
  refused-either_reason (pair_reason p p') (first_subtree ((p' ∷ ps) ++ qs)),
)

first_subtree-after :
    (ps qs : List Part)
    → refused (first_subtree ps) ≡ true
    → refused (first_subtree (ps ++ qs)) ≡ true
unfolding first_subtree
first_subtree-after [] qs h = absurd (ground arith)
first_subtree-after (p ∷ []) qs h = absurd (ground arith)
first_subtree-after (p ∷ p' ∷ ps) qs h = elim (Bool-cases (refused (pair_reason p p'))) [
  | inl e ↦
      ground (arith, e, refused-either_reason (pair_reason p p') (first_subtree ((p' ∷ ps) ++ qs)))
  | inr e ↦
      let h' : refused (first_subtree (p' ∷ ps)) ≡ true =
        ground (arith, e, h, refused-either_reason (pair_reason p p') (first_subtree (p' ∷ ps))) in
      ground (
        arith,
        first_subtree-after (p' ∷ ps) qs h',
        refused-either_reason (pair_reason p p') (first_subtree ((p' ∷ ps) ++ qs)),
      )
]

-- Where a part of a path stands for a protected directory, the whole path is refused, whatever
-- stands before and after it.
pub sensitive_path_reason-inherited :
    (before parts more : List Part)
    → protects parts ≡ true
    → refused (sensitive_path_reason (before ++ (parts ++ more))) ≡ true
unfolding sensitive_path_reason
sensitive_path_reason-inherited before parts more h =
    let all_parts = before ++ (parts ++ more) in
    let names = lowered all_parts in
    ground (
      arith,
      ap (λ l. refused (first_part l)) (lowered-append before (parts ++ more)),
      ap (λ l. refused (first_subtree l)) (lowered-append before (parts ++ more)),
      ap (λ l. refused (first_part l)) (lowered-append parts more),
      ap (λ l. refused (first_subtree (lowered before ++ l))) (lowered-append parts more),
      ap (λ l. refused (first_part (lowered before ++ l))) (lowered-append parts more),
      first_part-append (lowered before) (lowered parts ++ lowered more),
      first_part-append (lowered parts) (lowered more),
      first_subtree-before (lowered before) (lowered parts ++ lowered more),
      first_subtree-after (lowered parts) (lowered more),
      refused-either_reason (first_part names)
          (either_reason (first_subtree names) (last_reason names)),
      refused-either_reason (first_subtree names) (last_reason names),
    )
