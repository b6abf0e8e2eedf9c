-- ===== src/Truncation/Head.antt =====
-- What `truncate_text_head` of coding_tools_mcp/textutils.py returns.
use devmcp_runtime.Truncation.Lines.{
  split_lf-IsLine, IsLine, IsLine-parts, split_lf-join, line_feeds, IsLine-one,
}
use devmcp_runtime.Base.Text.{text_eq}
use devmcp_runtime.Truncation.Cuts.{truncate_from_start-fit, fit-prefix, length-fit, fit}
use devmcp_runtime.Patch.Newlines.{join}
use devmcp_runtime.Truncation.Within.{
  Gathered, Beginning, whole-Within, join-prefix, gather_head-Gathered, first_line-prefix,
  cut-Within, join-split_lf,
}
use devmcp_runtime.Truncation.{
  truncate_head, truncate_text_head, first_line, split_lf, at_least_one, cut_to,
  truncate_string_to_bytes_from_start, gather_head, TextTruncation, fits, byte_length,
}
use devmcp_runtime.Truncation.Utf8.{IsCode, encode}
use devmcp_runtime.Base.{
  ℕ, ◌≤◌, String, refl, sym, ap, ◌∙◌, subst, true, false, List, [], ◌∷◌, ◌++◌, arith, ltb,
  if◌then◌else◌, length, All, if_cases,
}
use mathlib.Core.List.{append-nil, append_assoc}

All-prefix : (s rest : List ℕ) → All IsCode (s ++ rest) → All IsCode s
All-prefix [] rest h = tt
All-prefix (c ∷ s) rest h = (h.0, All-prefix s rest h.1)

first_line-All : (text : List ℕ) → All IsCode text → All IsCode (first_line (split_lf text))
first_line-All text h =
    let (after, same) = first_line-prefix (split_lf text) in
    All-prefix (first_line (split_lf text)) after
      (subst (All IsCode) (sym (same ∙ join-split_lf text)) h)

first_line-IsLine : (lines : List (List ℕ)) → All IsLine lines → IsLine (first_line lines)
first_line-IsLine [] h = unfold line_feeds in refl
first_line-IsLine (l ∷ ls) h = h.0

first_line-Beginning :
    (text : List ℕ) (max_lines max_bytes lines : ℕ)
    → All IsCode text
    → 1 ≤ max_lines
    → lines ≤ max_lines
    → Beginning text max_lines max_bytes (
        cut_to text max_lines max_bytes
          (truncate_string_to_bytes_from_start (first_line (split_lf text)) max_bytes)
          lines
          "bytes"
          false
          true)
first_line-Beginning text max_lines max_bytes lines h some_line few =
    let line = first_line (split_lf text) in
    let kept = truncate_from_start-fit line max_bytes (first_line-All text h) in
    let (after, same) = first_line-prefix (split_lf text) in
    let (rest, whole_line) = fit-prefix max_bytes line in
    let is_line = first_line-IsLine (split_lf text) (split_lf-IsLine text) in
    let prefix = IsLine-parts (fit max_bytes line) rest line whole_line is_line in
    (
      cut-Within text max_lines max_bytes (truncate_string_to_bytes_from_start line max_bytes) lines
          "bytes" false true
          (rw kept (IsLine-one (fit max_bytes line) max_lines prefix.0 some_line))
          (rw kept (unfold byte_length in length-fit max_bytes line)) few,
      rest ++ after,
      rw kept (
          sym (append_assoc (fit max_bytes line) rest after)
          ∙ ap (λ t. t ++ after) whole_line
          ∙ same
          ∙ join-split_lf text),
    )

Lines-prefix : (output rest : List (List ℕ)) → All IsLine (output ++ rest) → All IsLine output
Lines-prefix [] rest h = tt
Lines-prefix (l ∷ ls) rest h = (h.0, Lines-prefix ls rest h.1)

Gathered-Beginning :
    (text : List ℕ) (max_lines max_bytes : ℕ) (output : List (List ℕ)) (by : String)
    → 1 ≤ max_lines
    → Gathered max_lines max_bytes (split_lf text) output
    → Beginning text max_lines max_bytes
        (cut_to text max_lines max_bytes (join output) (length output) by false false)
Gathered-Beginning text max_lines max_bytes output by some_line g =
    let (after, same) = join-prefix output g.rest in
    let all_lines =
      Lines-prefix output g.rest (subst (All IsLine) (sym g.beginning) (split_lf-IsLine text)) in
    (
      cut-Within text max_lines max_bytes (join output) (length output) by false false
          (split_lf-join output max_lines all_lines some_line g.few) g.small g.few,
      after,
      same ∙ ap join g.beginning ∙ join-split_lf text,
    )

truncate_head-Beginning :
    (text : List ℕ) (max_lines max_bytes : ℕ)
    → All IsCode text
    → 1 ≤ max_lines
    → Beginning text max_lines max_bytes (truncate_head text max_lines max_bytes)
unfolding truncate_head
truncate_head-Beginning text max_lines max_bytes h some_line =
    let prefix = truncate_string_to_bytes_from_start (first_line (split_lf text)) max_bytes in
    let (output, by) = gather_head max_lines max_bytes 0 (split_lf text) [] 0 in
    if_cases {A = TextTruncation} (Beginning text max_lines max_bytes)
      (fits text max_lines max_bytes)
      (λ e. (whole-Within text max_lines max_bytes e, [], append-nil text))
      (λ e.
        if_cases {A = TextTruncation} (Beginning text max_lines max_bytes)
          (ltb max_bytes (byte_length (first_line (split_lf text))))
          (λ e'.
            first_line-Beginning text max_lines max_bytes (if text_eq prefix [] then 0 else 1) h
              some_line (ground (arith, some_line)))
          (λ e'. Gathered-Beginning text max_lines max_bytes output by some_line (
            gather_head-Gathered max_lines max_bytes 0 (split_lf text) [] 0 refl
              (unfold join byte_length encode in refl) (omega arith) (omega arith))))

-- The head of a text is a beginning of it, of at most so many lines and bytes, one of each at
-- least being allowed; the bytes reported are those of the content, and what is not reported as
-- truncated is the text.
pub truncate_text_head-Beginning :
    (text : List ℕ) (max_lines max_bytes : ℕ)
    → All IsCode text
    → Beginning text
        (at_least_one max_lines)
        (at_least_one max_bytes)
        (truncate_text_head text max_lines max_bytes)
unfolding truncate_text_head
truncate_text_head-Beginning text max_lines max_bytes h =
    truncate_head-Beginning text (at_least_one max_lines) (at_least_one max_bytes) h (ground arith)
