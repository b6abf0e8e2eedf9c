-- ===== src/Truncation/Tail.antt =====
-- What `truncate_text_tail` of coding_tools_mcp/textutils.py returns.
use devmcp_runtime.Truncation.Lines.{IsLine, split_lf-IsLine, IsLine-parts, split_lf-join}
use devmcp_runtime.Truncation.Candidates.{
  candidates-front, reverse_aux-All, candidates-All, split_lf-All,
}
use devmcp_runtime.Truncation.Within.{
  byte_length-append, byte_length_lf, cut-Within, Within, join-split_lf, whole-Within,
}
use devmcp_runtime.Truncation.Ends.{truncate_from_end-shed, shed-suffix, shed, length-shed}
use devmcp_runtime.Truncation.Utf8.{IsCode, encode}
use devmcp_runtime.Patch.Newlines.{join}
use devmcp_runtime.Truncation.{
  byte_length, gather_tail, truncate_string_to_bytes_from_end, line_bytes, candidate_lines,
  split_lf, TextTruncation, cut_to, truncate_tail, truncate_text_tail, fits, at_least_one,
}
use devmcp_runtime.Base.{
  ℕ, suc, ◌+◌, ◌-◌, ◌≤◌, String, ◌≡◌, refl, sym, ap, ◌∙◌, subst, ◌⊎◌, inl, inr, Bool, true, false,
  List, [], ◌∷◌, ◌++◌, arith, ltb, leb, ◌==◌, length, All, if_cases,
}
use mathlib.Core.List.{append-nil, append_assoc, reverse, reverse-reverse, reverse_aux}

-- The loop's output, with the rest of the reversed lines, is within the limits and ends the lines.
pub record Ending (max_lines max_bytes : ℕ) (lines output : List (List ℕ)) : Type 0 where
  pub few : length output ≤ max_lines
  pub small : byte_length (join output) ≤ max_bytes
  pub all_lines : All IsLine output
  pub front : List ℕ
  pub ending : front ++ join output ≡ join lines

join_front :
    (line : List ℕ) (output : List (List ℕ))
    → (front : List ℕ) × (front ++ join output ≡ join (line ∷ output))
unfolding join
join_front line [] = (line, append-nil line)
join_front line (m ∷ ls) = (line ++ (10 ∷ []), append_assoc line (10 ∷ []) (join (m ∷ ls)))

join-suffix :
    (lines output : List (List ℕ))
    → (front : List ℕ) × (front ++ join output ≡ join (reverse_aux lines output))
join-suffix [] output = ([], refl)
join-suffix (line ∷ lines) output =
    let (front, same) = join_front line output in
    let (front', same') = join-suffix lines (line ∷ output) in
    (front' ++ front, append_assoc front' front (join output) ∙ ap (λ t. front' ++ t) same ∙ same')

join_cons :
    (line m : List ℕ) (ls : List (List ℕ)) → join (line ∷ m ∷ ls) ≡ line ++ (10 ∷ join (m ∷ ls))
unfolding join
join_cons line m ls = refl

empty_output : (output : List (List ℕ)) → (length output == 0) ≡ true → output ≡ []
empty_output [] h = refl
empty_output (m ∷ ls) h = absurd (ground (arith, h))

byte_length_front :
    (line : List ℕ) (output : List (List ℕ))
    → byte_length (join (line ∷ output))
      ≡ byte_length (join output) + line_bytes (length output) line
byte_length_front line [] = unfold join byte_length encode in omega arith
byte_length_front line (m ∷ ls) = ground (
  arith,
  byte_length-append line (10 ∷ join (m ∷ ls)),
  byte_length_lf (join (m ∷ ls)),
  ap byte_length (join_cons line m ls),
)

-- The end of a line that alone is too long.
partial-Ending :
    (max_lines max_bytes : ℕ) (line : List ℕ) (lines : List (List ℕ))
    → All IsCode line
    → IsLine line
    → 1 ≤ max_lines
    → Ending max_lines max_bytes
        (reverse_aux lines (line ∷ []))
        (truncate_string_to_bytes_from_end line max_bytes ∷ [])
partial-Ending max_lines max_bytes line lines h whole_line some_line =
    let excess = byte_length line - max_bytes in
    let kept = truncate_from_end-shed line max_bytes h in
    let (front, same) = shed-suffix excess line in
    let (front', same') = join-suffix lines (line ∷ []) in
    let bound : byte_length (shed excess line) ≤ max_bytes =
      unfold byte_length in omega (arith, length-shed (length (encode line) - max_bytes) line) in
    record {
      few = some_line;
      small = unfold join in rw kept bound;
      all_lines = rw kept ((IsLine-parts front (shed excess line) line same whole_line).1, tt);
      front = front' ++ front;
      ending =
          unfold join in
          rw kept
            (append_assoc front' front (shed excess line) ∙ ap (λ t. front' ++ t) same ∙ same');
    }

gather_tail-Ending :
    (max_lines max_bytes index : ℕ) (lines output : List (List ℕ)) (output_bytes : ℕ)
    → All (All IsCode) lines
    → All IsLine lines
    → All IsLine output
    → 1 ≤ max_lines
    → index ≡ length output
    → output_bytes ≡ byte_length (join output)
    → length output ≤ max_lines
    → output_bytes ≤ max_bytes
    → Ending max_lines max_bytes
        (reverse_aux lines output)
        (gather_tail max_lines max_bytes index lines output output_bytes).0
unfolding gather_tail
gather_tail-Ending max_lines max_bytes index [] output output_bytes h n m some_line i b few small =
    record { few = few; small = omega (arith, b, small); all_lines = m; front = []; ending = refl }
gather_tail-Ending max_lines max_bytes index (line ∷ lines) output output_bytes h n m some_line i b
      few small =
    let (front, same) = join-suffix (line ∷ lines) output in
    let stop : Ending max_lines max_bytes (reverse_aux lines (line ∷ output)) output = record {
      few = few;
      small = omega (arith, b, small);
      all_lines = m;
      front = front;
      ending = same;
    } in
    let P = λ (r : List (List ℕ) × (String × Bool)).
      Ending max_lines max_bytes (reverse_aux lines (line ∷ output)) r.0 in
    if_cases P (leb max_lines (length output)) (λ e. stop)
      (λ e.
        if_cases P (ltb max_bytes (output_bytes + line_bytes index line))
          (λ e'.
            if_cases P (length output == 0)
              (λ e''.
                subst
                  (λ o.
                    Ending max_lines max_bytes (reverse_aux lines (line ∷ o))
                      (truncate_string_to_bytes_from_end line max_bytes ∷ []))
                  (sym (empty_output output e''))
                  (partial-Ending max_lines max_bytes line lines h.0 n.0 some_line))
              (λ e''. stop))
          (λ e'.
            gather_tail-Ending max_lines max_bytes (suc index) lines (line ∷ output)
              (output_bytes + line_bytes index line) h.1 n.1 (n.0, m) some_line (omega (arith, i))
              (omega (arith, b, ap (λ z. line_bytes z line) i, byte_length_front line output))
              (ground (arith, e)) (ground (arith, e'))))

-- An end of the text within the limits, which may lack the last line feed.
abbrev pub End : List ℕ → ℕ → ℕ → TextTruncation → Type 0
End text max_lines max_bytes r =
    Within text max_lines max_bytes r
    × (front after : List ℕ) × ((after ≡ []) ⊎ (after ≡ 10 ∷ []))
    × (front ++ (r.content ++ after) ≡ text)

Ending-End :
    (text : List ℕ) (max_lines max_bytes : ℕ) (output : List (List ℕ)) (by : String)
    (partial : Bool)
    → 1 ≤ max_lines
    → Ending max_lines max_bytes (candidate_lines (split_lf text)) output
    → End text max_lines max_bytes
        (cut_to text max_lines max_bytes (join output) (length output) by partial false)
Ending-End text max_lines max_bytes output by partial some_line g =
    let within =
      cut-Within text max_lines max_bytes (join output) (length output) by partial false
        (split_lf-join output max_lines g.all_lines some_line g.few) g.small g.few in
    elim (candidates-front (split_lf text)) [
      | inl e ↦ (
        within,
        g.front,
        [],
        inl refl,
        ap (λ t. g.front ++ t) (append-nil (join output)) ∙ g.ending ∙ e ∙ join-split_lf text,
      )
      | inr e ↦ (
        within,
        g.front,
        10 ∷ [],
        inr refl,
        sym (append_assoc g.front (join output) (10 ∷ []))
            ∙ ap (λ t. t ++ (10 ∷ [])) g.ending
            ∙ e
            ∙ join-split_lf text,
      )
    ]

truncate_tail-End :
    (text : List ℕ) (max_lines max_bytes : ℕ)
    → All IsCode text
    → 1 ≤ max_lines
    → End text max_lines max_bytes (truncate_tail text max_lines max_bytes)
unfolding truncate_tail
truncate_tail-End text max_lines max_bytes h some_line =
    let candidates = candidate_lines (split_lf text) in
    let lines = reverse candidates in
    let (output, (by, partial)) = gather_tail max_lines max_bytes 0 lines [] 0 in
    let codes_in =
      reverse_aux-All (All IsCode) candidates []
        (candidates-All (All IsCode) (split_lf text) (split_lf-All text h)) tt in
    let lines_in =
      reverse_aux-All IsLine candidates []
        (candidates-All IsLine (split_lf text) (split_lf-IsLine text)) tt in
    let gathered =
      gather_tail-Ending max_lines max_bytes 0 lines [] 0 codes_in lines_in tt some_line refl
        (unfold join byte_length encode in refl) (omega arith) (omega arith) in
    if_cases {A = TextTruncation} (End text max_lines max_bytes) (fits text max_lines max_bytes)
      (λ e. (whole-Within text max_lines max_bytes e, [], [], inl refl, append-nil text))
      (λ e.
        Ending-End text max_lines max_bytes output by partial some_line (
          subst (λ ls. Ending max_lines max_bytes ls output) (reverse-reverse candidates) gathered))

-- The tail of a text is an end of it, but perhaps for its last line feed, of at most so many lines
-- and bytes, one of each at least being allowed; the bytes reported are those of the content,
-- and what is not reported as truncated is the text.
pub truncate_text_tail-End :
    (text : List ℕ) (max_lines max_bytes : ℕ)
    → All IsCode text
    → End text
        (at_least_one max_lines)
        (at_least_one max_bytes)
        (truncate_text_tail text max_lines max_bytes)
unfolding truncate_text_tail
truncate_text_tail-End text max_lines max_bytes h =
    truncate_tail-End text (at_least_one max_lines) (at_least_one max_bytes) h (ground arith)
