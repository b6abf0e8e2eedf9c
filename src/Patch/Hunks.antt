-- ===== src/Patch/Hunks.antt =====
-- `parse_update_hunk`, `find_subsequence_all` and `apply_update_hunks` of
-- coding_tools_mcp/patching.py. A line is the list of its code points.
pub mod Search
pub mod Splice
pub mod Order
pub mod Update
pub mod FrontInsertion
pub mod LineBreaks
use devmcp_runtime.Patch.Newlines.{
  join, normalize_to_lf, strip_bom, splitlines, restore_line_endings, ends_with_lf,
  detect_line_ending,
}
use devmcp_runtime.Base.Text.{text_eq, codes}
use devmcp_runtime.Base.{
  ℕ, zero, suc, ◌+◌, ◌-◌, Bool, true, false, not, ◌&&◌, ◌||◌, Option, none, some, List, [], ◌∷◌,
  ◌++◌, ltb, leb, ◌==◌, if◌then◌else◌, length, take, drop, Exception, tool_failure, Result, ok,
  raised, ◌>>=◌, ◌>>◌, guard, ◌*◌, ◌/◌, ◌%◌, ◌≤◌, ◌<◌, min, max, String, ◌≡◌, refl, sym, ap, ◌∙◌,
  subst, subst₂, fun_ext, ◌≢◌, ◌↔◌, ◌⊎◌, inl, inr, map, arith, eq_iff, str_eq, ltb→lt, lt→ltb,
  leb→le, str_eq_self, str_eq_ne, Bool-cases, Option-cases, if_both, any, all, keep_if, All,
  length-append, take-append-drop, length-take, length-drop, length-keep_if, runtime_error,
  value_error, file_exists_error, os_error, Exec, pure, raise, continue, bind, continue_state,
  bind_state,
}

abbrev pub Line : Type 0
Line = List ℕ

pub record ParsedHunk : Type 0 where
  pub old : List Line
  pub new : List Line

pub record MatchedHunk : Type 0 where
  pub hunk_index : ℕ
  pub start : ℕ
  pub end : ℕ
  pub new : List Line

abbrev pub patch_failed : Exception
patch_failed = tool_failure "PATCH_FAILED" "validation" false

abbrev pub add_old : Line → ParsedHunk → ParsedHunk
add_old l h = record h { old = l ∷ h.old }

abbrev pub add_new : Line → ParsedHunk → ParsedHunk
add_new l h = record h { new = l ∷ h.new }

-- What a patch line with that marker adds; `none` for a marker that is none.
unfoldable pub add_line : ℕ → Line → ParsedHunk → Option ParsedHunk
add_line marker value h =
    if marker == b' '
    then some (add_old value (add_new value h))
    else if marker == b'-'
    then some (add_old value h)
    else if marker == b'+'
    then some (add_new value h)
    else none

abbrev pub or_patch_failed {ℓ} : {A : Type ℓ} → Option A → Result A
or_patch_failed none = raised patch_failed
or_patch_failed (some a) = ok a

-- The loop of `parse_update_hunk`, from the last line to the first; every error is the same
-- exception, so the order in which lines are refused does not show.
unfoldable pub parse_update_hunk : List Line → Result ParsedHunk
parse_update_hunk [] = ok (record { old = []; new = [] })
parse_update_hunk (raw ∷ hunk) =
    let rest = parse_update_hunk hunk in
    if text_eq raw (codes "*** End of File") then rest else elim raw [
      | [] ↦ raised patch_failed
      | marker ∷ value ↦ rest >>= λ h. or_patch_failed (add_line marker value h)
    ]

-- `a == b` on lists of lines
unfoldable pub lines_eq : List Line → List Line → Bool
lines_eq [] [] = true
lines_eq [] (b ∷ bs) = false
lines_eq (a ∷ as') [] = false
lines_eq (a ∷ as') (b ∷ bs) = text_eq a b && lines_eq as' bs

-- `lines[index] == first`
abbrev pub head_is : List Line → Line → Bool
head_is [] first = false
head_is (l ∷ ls) first = text_eq l first

-- The test of the comprehension in `find_subsequence_all`.
unfoldable pub occurs_at : List Line → Line → List Line → ℕ → Bool
occurs_at lines first needle i =
    head_is (drop i lines) first && lines_eq (take (length needle) (drop i lines)) needle

-- The comprehension, from that index on, over so many indices.
unfoldable pub find_from : List Line → Line → List Line → ℕ → ℕ → List ℕ
find_from lines first needle i zero = []
find_from lines first needle i (suc n) =
    let rest = find_from lines first needle (i + 1) n in
    if occurs_at lines first needle i then i ∷ rest else rest

-- `range(max(0, limit))` is the truncated subtraction.
unfoldable pub find_subsequence_all : List Line → List Line → List ℕ
find_subsequence_all lines [] = 0 ∷ []
find_subsequence_all lines (first ∷ more) =
    find_from lines first (first ∷ more) 0 (length lines + 1 - length (first ∷ more))

-- `[0] if not hunk.old else find_subsequence_all(lines, hunk.old)`
abbrev pub matches_of : List Line → List Line → List ℕ
matches_of lines [] = 0 ∷ []
matches_of lines (first ∷ more) = find_subsequence_all lines (first ∷ more)

abbrev pub context_not_found : Exception
context_not_found = tool_failure "PATCH_CONTEXT_NOT_FOUND" "validation" true

abbrev pub context_ambiguous : Exception
context_ambiguous = tool_failure "PATCH_CONTEXT_AMBIGUOUS" "validation" true

-- The one index of a list of matches.
abbrev pub only : List ℕ → Result ℕ
only [] = raised context_not_found
only (i ∷ []) = ok i
only (i ∷ j ∷ is) = raised context_ambiguous

unfoldable pub match_hunk : List Line → ℕ → ParsedHunk → Result MatchedHunk
match_hunk lines index hunk = do
  start ← only (matches_of lines hunk.old)
  ok (record { hunk_index = index; start = start; end = start + length hunk.old; new = hunk.new })

unfoldable pub match_hunks : List Line → ℕ → List ParsedHunk → Result (List MatchedHunk)
match_hunks lines index [] = ok []
match_hunks lines index (hunk ∷ hunks) = do
  m ← match_hunk lines index hunk
  ms ← match_hunks lines (index + 1) hunks
  ok (m ∷ ms)

unfoldable pub parse_hunks : List (List Line) → Result (List ParsedHunk)
parse_hunks [] = ok []
parse_hunks (hunk ∷ hunks) = do h ← parse_update_hunk hunk; hs ← parse_hunks hunks; ok (h ∷ hs)

-- `matched.sort(key=start)`, which is stable: among equals the earlier one stays in front.
unfoldable pub insert_up : MatchedHunk → List MatchedHunk → List MatchedHunk
insert_up m [] = m ∷ []
insert_up m (n ∷ ns) =
    let rest = insert_up m ns in if leb m.start n.start then m ∷ n ∷ ns else n ∷ rest

unfoldable pub sort_up : List MatchedHunk → List MatchedHunk
sort_up [] = []
sort_up (m ∷ ms) = insert_up m (sort_up ms)

-- `sorted(matched, key=start, reverse=True)`, which is stable too.
unfoldable pub insert_down : MatchedHunk → List MatchedHunk → List MatchedHunk
insert_down m [] = m ∷ []
insert_down m (n ∷ ns) =
    let rest = insert_down m ns in if leb n.start m.start then m ∷ n ∷ ns else n ∷ rest

unfoldable pub sort_down : List MatchedHunk → List MatchedHunk
sort_down [] = []
sort_down (m ∷ ms) = insert_down m (sort_down ms)

-- The overlap test of neighbours: `previous.end > current.start`.
unfoldable pub overlap : List MatchedHunk → Bool
overlap [] = false
overlap (m ∷ []) = false
overlap (m ∷ n ∷ ms) = ltb n.start m.end || overlap (n ∷ ms)

-- `updated_lines[:start] + new + updated_lines[end:]`
unfoldable pub replace_lines : List Line → MatchedHunk → List Line
replace_lines lines m = take m.start lines ++ (m.new ++ drop m.end lines)

unfoldable pub replace_all : List Line → List MatchedHunk → List Line
replace_all lines [] = lines
replace_all lines (m ∷ ms) = replace_all (replace_lines lines m) ms

abbrev pub hunks_overlap : Exception
hunks_overlap = tool_failure "PATCH_HUNKS_OVERLAP" "validation" false

-- The lines after an update: all of `apply_update_hunks` between the split and the join.
unfoldable pub update_lines : List Line → List (List Line) → Result (List Line)
update_lines lines hunks = do
  parsed ← parse_hunks hunks
  found ← match_hunks lines 0 parsed
  let matched = sort_up found
  guard (not (overlap matched)) hunks_overlap
  ok (replace_all lines (sort_down matched))

abbrev is_empty {ℓ} : {A : Type ℓ} → List A → Bool
is_empty [] = true
is_empty (x ∷ xs) = false

-- The text that the updated lines make, with the trailing newline.
unfoldable pub render : Bool → Bool → List Line → List ℕ
render had_trailing_newline text_empty lines =
    let updated = join lines in
    if had_trailing_newline && (not (is_empty lines) || is_empty updated)
    then updated ++ (10 ∷ [])
    else if text_empty && not (is_empty lines)
    then updated ++ (10 ∷ [])
    else updated

-- `bom + restore_line_endings(…)`
unfoldable pub apply_parts : List ℕ × List ℕ → List (List Line) → Result (List ℕ)
apply_parts (mark, text) hunks =
    let normalized = normalize_to_lf text in
    update_lines (splitlines normalized) hunks >>= λ lines. ok (
      mark
      ++ restore_line_endings (render (ends_with_lf normalized) (is_empty text) lines)
          (detect_line_ending text))

unfoldable pub apply_update_hunks : List ℕ → List (List Line) → Result (List ℕ)
apply_update_hunks content [] = ok content
apply_update_hunks content (hunk ∷ hunks) = apply_parts (strip_bom content) (hunk ∷ hunks)
