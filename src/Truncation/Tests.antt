-- ===== src/Truncation/Tests.antt =====
-- Texts cut by the functions of coding_tools_mcp/textutils.py.
use devmcp_runtime.Truncation.Head.{truncate_text_head-Beginning}
use devmcp_runtime.Truncation.Ends.{shed, truncate_from_end-shed}
use devmcp_runtime.Truncation.Cuts.{fit, truncate_from_start-fit}
use devmcp_runtime.Truncation.Utf8.{
  encode, encode_code, decode, decode_from, see_byte, start_code, is_continuation, IsCode,
}
use devmcp_runtime.Patch.Newlines.{join}
use devmcp_runtime.Base.Text.{text_eq}
use devmcp_runtime.Truncation.{
  back_up, continues_at, skip_continuations, split_lf, gather_head, gather_tail, candidate_lines,
  truncate_head, truncate_tail, truncate_string_to_bytes_from_start,
  truncate_string_to_bytes_from_end, truncate_text_tail, truncate_text_head, truncate_head,
  byte_length, truncate_tail,
}
use devmcp_runtime.Truncation.Within.{Beginning}
use devmcp_runtime.Truncation.Tail.{End, truncate_text_tail-End}
use devmcp_runtime.Base.{ℕ, ◌-◌, ◌≡◌, refl, some, List, [], ◌∷◌, arith, All}

-- Three lines, the first of which is an a with a diaeresis and an emoji.
abbrev text : List ℕ
text = 228 ∷ 128512 ∷ 10 ∷ 98 ∷ 98 ∷ 10 ∷ 99 ∷ []

text_codes : All IsCode text
text_codes = (
  omega arith,
  (omega arith, (omega arith, (omega arith, (omega arith, (omega arith, (omega arith, tt)))))),
)

cuts :
    (truncate_string_to_bytes_from_start text 5 ≡ 228 ∷ [])
    × (truncate_string_to_bytes_from_end text 8 ≡ 10 ∷ 98 ∷ 98 ∷ 10 ∷ 99 ∷ [])
    × ((truncate_text_head text 2 8).content ≡ 228 ∷ 128512 ∷ [])
    × ((truncate_text_head text 2 8).truncated_by ≡ some "bytes")
    × ((truncate_text_tail text 2 9).content ≡ 98 ∷ 98 ∷ 10 ∷ 99 ∷ [])
    × ((truncate_text_tail text 2 9).output_bytes ≡ 4)
unfolding truncate_string_to_bytes_from_start truncate_string_to_bytes_from_end truncate_text_head
    truncate_text_tail truncate_head truncate_tail encode encode_code decode decode_from back_up
    continues_at is_continuation see_byte start_code skip_continuations split_lf byte_length join
    gather_head gather_tail candidate_lines text_eq
cuts = (refl, refl, refl, refl, refl, refl)

truncate_from_start-fit_example : truncate_string_to_bytes_from_start text 5 ≡ fit 5 text
truncate_from_start-fit_example = truncate_from_start-fit text 5 text_codes

truncate_from_end-shed_example :
    truncate_string_to_bytes_from_end text 8 ≡ shed (byte_length text - 8) text
truncate_from_end-shed_example = truncate_from_end-shed text 8 text_codes

truncate_text_head-Beginning_example : Beginning text 2 9 (truncate_text_head text 2 9)
truncate_text_head-Beginning_example = truncate_text_head-Beginning text 2 9 text_codes

truncate_text_tail-End_example : End text 2 9 (truncate_text_tail text 2 9)
truncate_text_tail-End_example = truncate_text_tail-End text 2 9 text_codes
