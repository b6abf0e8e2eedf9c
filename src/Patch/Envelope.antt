-- ===== src/Patch/Envelope.antt =====
-- coding_tools_mcp/patching.py, `parse_patch`. The loops over the lines are one recursion, whose mode
-- says in which loop the code is and what it has collected there.
pub mod RoundTrip
mod Tests
use devmcp_runtime.Base.Text.{starts_with, text_eq, strip, codes}
use devmcp_runtime.Patch.Newlines.{join, splitlines, starts_with_lf}
use devmcp_runtime.Patch.Hunks.{Line, patch_failed}
use devmcp_runtime.Base.{
  ℕ, zero, suc, ◌+◌, ◌-◌, ◌*◌, ◌/◌, ◌%◌, ◌≤◌, ◌<◌, min, max, String, ◌≡◌, refl, sym, ap, ◌∙◌, subst,
  subst₂, fun_ext, ◌≢◌, ◌↔◌, ◌⊎◌, inl, inr, Bool, true, false, not, ◌&&◌, ◌||◌, Option, none, some,
  List, [], ◌∷◌, ◌++◌, map, arith, eq_iff, ltb, leb, ◌==◌, str_eq, if◌then◌else◌, ltb→lt, lt→ltb,
  leb→le, str_eq_self, str_eq_ne, Bool-cases, Option-cases, if_both, length, take, drop, any, all,
  keep_if, All, length-append, take-append-drop, length-take, length-drop, length-keep_if,
  Exception, tool_failure, runtime_error, value_error, file_exists_error, os_error, Result, ok,
  raised, Exec, ◌>>=◌, ◌>>◌, guard, pure, raise, continue, bind, continue_state, bind_state,
  sequence_ok,
}

pub data PatchOperation : Type 0 where
  add : List ℕ → List ℕ → PatchOperation
  delete : List ℕ → PatchOperation
  update : List ℕ → List (List Line) → PatchOperation
  move : List ℕ → List ℕ → PatchOperation

pub data Mode : Type 0 where
  top : Mode
  in_add : List ℕ → List Line → Mode
  after_update : List ℕ → Mode
  in_update : List ℕ → List (List Line) → List Line → Mode

abbrev pub add_file : Line
add_file = codes "*** Add File: "

abbrev pub delete_file : Line
delete_file = codes "*** Delete File: "

abbrev pub update_file : Line
update_file = codes "*** Update File: "

abbrev pub move_line : Line
move_line = codes "*** Move to: "

abbrev pub stars : Line
stars = codes "*** "

-- `line.removeprefix(prefix).strip()`, where the line has the prefix
abbrev pub rest_of : Line → Line → List ℕ
rest_of prefix line = strip (drop (length prefix) line)

abbrev pub with_current : List (List Line) → List Line → List (List Line)
with_current hunks [] = hunks
with_current hunks (l ∷ ls) = hunks ++ ((l ∷ ls) ∷ [])

-- The operation that the end of a loop appends.
abbrev pub finish : Mode → List PatchOperation
finish top = []
finish (in_add path content) = add path (join content ++ (10 ∷ [])) ∷ []
finish (after_update path) = update path [] ∷ []
finish (in_update path hunks current) = update path (with_current hunks current) ∷ []

abbrev Step : Type 0
Step = Result (List PatchOperation × Mode)

-- A line of the outer loop.
unfoldable pub open_line : Line → Step
open_line line =
    if text_eq line []
    then ok ([], top)
    else if starts_with line add_file
    then ok ([], in_add (rest_of add_file line) [])
    else if starts_with line delete_file
    then ok (delete (rest_of delete_file line) ∷ [], top)
    else if starts_with line update_file
    then ok ([], after_update (rest_of update_file line))
    else raised patch_failed

-- The line after the end of an inner loop.
abbrev pub reopen : List PatchOperation → Line → Step
reopen done line = open_line line >>= λ r. ok (done ++ r.0, r.1)

abbrev pub update_line : List ℕ → List (List Line) → List Line → Line → Step
update_line path hunks current line =
    if starts_with line stars
    then reopen (finish (in_update path hunks current)) line
    else if starts_with line (codes "@@")
    then ok ([], in_update path (with_current hunks current) [])
    else ok ([], in_update path hunks (current ++ (line ∷ [])))

unfoldable pub parse_line : Mode → Line → Step
parse_line top line = open_line line
parse_line (in_add path content) line =
    if starts_with line stars
    then reopen (finish (in_add path content)) line
    else if starts_with line (codes "+")
    then ok ([], in_add path (content ++ (drop 1 line ∷ [])))
    else raised patch_failed
parse_line (after_update path) line =
    if starts_with line move_line
    then ok (move path (rest_of move_line line) ∷ [], top)
    else update_line path [] [] line
parse_line (in_update path hunks current) line = update_line path hunks current line

-- The lines between the two of the envelope.
unfoldable pub parse_body : Mode → List Line → Result (List PatchOperation)
parse_body mode [] = ok (finish mode)
parse_body mode (line ∷ lines) =
    parse_line mode line >>= λ r. parse_body r.1 lines >>= λ more. ok (r.0 ++ more)

-- All lines but the last one, and the last one.
abbrev pub split_last : Line → List Line → List Line × Line
split_last l [] = ([], l)
split_last l (m ∷ ls) = let (front, last) = split_last m ls in (l ∷ front, last)

unfoldable pub parse_lines : List Line → Result (List PatchOperation)
parse_lines [] = raised patch_failed
parse_lines (first ∷ []) = raised patch_failed
parse_lines (first ∷ second ∷ more) =
    let (body, last) = split_last second more in
    if text_eq (strip first) (codes "*** Begin Patch")
      && text_eq (strip last) (codes "*** End Patch")
    then parse_body top body
    else raised patch_failed

unfoldable pub parse_patch : List ℕ → Result (List PatchOperation)
parse_patch patch = parse_lines (splitlines patch)
