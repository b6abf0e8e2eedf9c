-- ===== src/Truncation.antt =====
-- coding_tools_mcp/textutils.py: texts cut to a number of lines and of bytes. The limits are natural
-- numbers; the source treats a negative one like zero.
pub mod Utf8
pub mod Cuts
pub mod Ends
pub mod Lines
pub mod Within
pub mod Head
pub mod Candidates
pub mod Tail
mod Tests
use devmcp_runtime.Truncation.Utf8.{Bytes, encode, decode, is_continuation}
use devmcp_runtime.Base.Text.{text_eq}
use devmcp_runtime.Patch.Newlines.{cons_head, join}
use devmcp_runtime.Base.{
  ℕ, zero, suc, ◌+◌, ◌-◌, ◌*◌, ◌/◌, ◌%◌, ◌≤◌, ◌<◌, min, max, String, ◌≡◌, refl, sym, ap, ◌∙◌, subst,
  subst₂, fun_ext, ◌≢◌, ◌↔◌, ◌⊎◌, inl, inr, Bool, true, false, not, ◌&&◌, ◌||◌, Option, none, some,
  List, [], ◌∷◌, ◌++◌, map, arith, eq_iff, ltb, leb, ◌==◌, str_eq, if◌then◌else◌, ltb→lt, lt→ltb,
  leb→le, str_eq_self, str_eq_ne, Bool-cases, Option-cases, if_both, length, take, drop, any, all,
  keep_if, All, length-append, take-append-drop, length-take, length-drop, length-keep_if,
  Exception, tool_failure, runtime_error, value_error, file_exists_error, os_error, Result, ok,
  raised, Exec, ◌>>=◌, ◌>>◌, guard, pure, raise, continue, bind, continue_state, bind_state,
  sequence_ok,
}
use mathlib.Core.List.{reverse}

pub record TextTruncation : Type 0 where
  pub content : List ℕ
  pub truncated : Bool
  pub truncated_by : Option String
  pub total_lines : ℕ
  pub total_bytes : ℕ
  pub output_lines : ℕ
  pub output_bytes : ℕ
  pub last_line_partial : Bool
  pub first_line_exceeds_limit : Bool
  pub max_lines : ℕ
  pub max_bytes : ℕ

-- `len(text.encode("utf-8"))`
unfoldable pub byte_length : List ℕ → ℕ
byte_length s = length (encode s)

-- `text.split("\n")`
unfoldable pub split_lf : List ℕ → List (List ℕ)
split_lf [] = [] ∷ []
split_lf (c ∷ s) = let rest = split_lf s in if c == 10 then [] ∷ rest else cons_head c rest

-- `end < len(data) and (data[end] & 0xC0) == 0x80`
unfoldable pub continues_at : ℕ → Bytes → Bool
continues_at end [] = false
continues_at zero (b ∷ bs) = is_continuation b
continues_at (suc end) (b ∷ bs) = continues_at end bs

-- The loop that moves `end` back.
unfoldable pub back_up : Bytes → ℕ → ℕ
back_up bytes zero = zero
back_up bytes (suc end) =
    let rest = back_up bytes end in if continues_at (suc end) bytes then rest else suc end

unfoldable pub truncate_string_to_bytes_from_start : List ℕ → ℕ → List ℕ
truncate_string_to_bytes_from_start text max_bytes =
    let bytes = encode text in
    if leb (length bytes) max_bytes
    then text
    else decode (take (back_up bytes (min max_bytes (length bytes))) bytes)

-- The loop that moves `start` on, on the bytes from `start`.
unfoldable pub skip_continuations : Bytes → Bytes
skip_continuations [] = []
skip_continuations (b ∷ bs) =
    let rest = skip_continuations bs in if is_continuation b then rest else b ∷ bs

unfoldable pub truncate_string_to_bytes_from_end : List ℕ → ℕ → List ℕ
truncate_string_to_bytes_from_end text max_bytes =
    let bytes = encode text in
    if leb (length bytes) max_bytes
    then text
    else decode (skip_continuations (drop (length bytes - max_bytes) bytes))

-- `1` where the limit is not positive
abbrev pub at_least_one : ℕ → ℕ
at_least_one n = if n == 0 then 1 else n

-- The bytes of a line, with those of the line feed that joins it.
abbrev pub line_bytes : ℕ → List ℕ → ℕ
line_bytes index line = byte_length line + (if ltb 0 index then 1 else 0)

-- The loop of `truncate_text_head`: the lines, and what ended it.
unfoldable pub gather_head : ℕ → ℕ → ℕ → List (List ℕ) → List (List ℕ) → ℕ → List (List ℕ) × String
gather_head max_lines max_bytes index [] output output_bytes = (output, "lines")
gather_head max_lines max_bytes index (line ∷ lines) output output_bytes =
    let more = output_bytes + line_bytes index line in
    let rest = gather_head max_lines max_bytes (suc index) lines (output ++ (line ∷ [])) more in
    if leb max_lines (length output)
    then (output, "lines")
    else if ltb max_bytes more
    then (output, "bytes")
    else rest

abbrev pub whole : List ℕ → ℕ → ℕ → TextTruncation
whole text max_lines max_bytes = record {
  content = text;
  truncated = false;
  truncated_by = none;
  total_lines = length (split_lf text);
  total_bytes = byte_length text;
  output_lines = length (split_lf text);
  output_bytes = byte_length text;
  last_line_partial = false;
  first_line_exceeds_limit = false;
  max_lines = max_lines;
  max_bytes = max_bytes;
}

abbrev pub first_line : List (List ℕ) → List ℕ
first_line [] = []
first_line (line ∷ lines) = line

-- What the two functions return where something is cut.
abbrev pub cut_to : List ℕ → ℕ → ℕ → List ℕ → ℕ → String → Bool → Bool → TextTruncation
cut_to text max_lines max_bytes content output_lines by partial exceeds = record {
  content = content;
  truncated = true;
  truncated_by = some by;
  total_lines = length (split_lf text);
  total_bytes = byte_length text;
  output_lines = output_lines;
  output_bytes = byte_length content;
  last_line_partial = partial;
  first_line_exceeds_limit = exceeds;
  max_lines = max_lines;
  max_bytes = max_bytes;
}

abbrev pub fits : List ℕ → ℕ → ℕ → Bool
fits text max_lines max_bytes =
    leb (length (split_lf text)) max_lines && leb (byte_length text) max_bytes

-- `truncate_text_head` under limits that are positive.
unfoldable pub truncate_head : List ℕ → ℕ → ℕ → TextTruncation
truncate_head text max_lines max_bytes =
    let lines = split_lf text in
    let prefix = truncate_string_to_bytes_from_start (first_line lines) max_bytes in
    let (output, by) = gather_head max_lines max_bytes 0 lines [] 0 in
    if fits text max_lines max_bytes
    then whole text max_lines max_bytes
    else if ltb max_bytes (byte_length (first_line lines))
    then cut_to text max_lines max_bytes prefix (if text_eq prefix [] then 0 else 1) "bytes" false
        true
    else cut_to text max_lines max_bytes (join output) (length output) by false false

unfoldable pub truncate_text_head : List ℕ → ℕ → ℕ → TextTruncation
truncate_text_head text max_lines max_bytes =
    truncate_head text (at_least_one max_lines) (at_least_one max_bytes)

-- `lines[:-1]` where the last line is empty
unfoldable pub candidate_lines : List (List ℕ) → List (List ℕ)
candidate_lines [] = []
candidate_lines (line ∷ []) = if text_eq line [] then [] else line ∷ []
candidate_lines (line ∷ second ∷ lines) = line ∷ candidate_lines (second ∷ lines)

-- The loop of `truncate_text_tail` over the reversed lines. `output` is kept in the order of the text,
-- into which the source reverses it at the end. The flag is `last_line_partial`.
unfoldable pub gather_tail :
    ℕ → ℕ → ℕ → List (List ℕ) → List (List ℕ) → ℕ → List (List ℕ) × (String × Bool)
gather_tail max_lines max_bytes index [] output output_bytes = (output, ("lines", false))
gather_tail max_lines max_bytes index (line ∷ lines) output output_bytes =
    let more = output_bytes + line_bytes index line in
    let rest = gather_tail max_lines max_bytes (suc index) lines (line ∷ output) more in
    let partial = truncate_string_to_bytes_from_end line max_bytes in
    if leb max_lines (length output)
    then (output, ("lines", false))
    else if ltb max_bytes more
    then (if length output == 0
        then (partial ∷ [], ("bytes", true))
        else (output, ("bytes", false)))
    else rest

unfoldable pub truncate_tail : List ℕ → ℕ → ℕ → TextTruncation
truncate_tail text max_lines max_bytes =
    let lines = reverse (candidate_lines (split_lf text)) in
    let (output, (by, partial)) = gather_tail max_lines max_bytes 0 lines [] 0 in
    if fits text max_lines max_bytes
    then whole text max_lines max_bytes
    else cut_to text max_lines max_bytes (join output) (length output) by partial false

unfoldable pub truncate_text_tail : List ℕ → ℕ → ℕ → TextTruncation
truncate_text_tail text max_lines max_bytes =
    truncate_tail text (at_least_one max_lines) (at_least_one max_bytes)
