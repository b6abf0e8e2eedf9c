-- ===== src/Patch/Tests.antt =====
-- The patch engine on small texts.
use devmcp_runtime.Patch.Hunks.LineBreaks.{as_line_feeds, line_breaks_lost}
use devmcp_runtime.Patch.Hunks.Splice.{splice}
use devmcp_runtime.Patch.Hunks.FrontInsertion.{front_insertion_overwritten}
use devmcp_runtime.Patch.Newlines.Laws.{restore-normalize, NoCr, crlf_only}
use devmcp_runtime.Base.Text.{codes, text_eq}
use devmcp_runtime.Patch.Hunks.Search.{Member, find_subsequence_all_iff, FoundAt}
use devmcp_runtime.Patch.Hunks.Update.{IsMatch, match_hunk-IsMatch, update_lines-splice}
use devmcp_runtime.Patch.Hunks.{
  apply_update_hunks, apply_parts, render, find_subsequence_all, MatchedHunk, ParsedHunk,
  match_hunk, update_lines, parse_hunks, match_hunks, Line, overlap, parse_update_hunk, find_from,
  sort_up, occurs_at, add_line, lines_eq, hunks_overlap, insert_up, only, matches_of, sort_down,
  insert_down, replace_all, replace_lines,
}
use devmcp_runtime.Patch.Newlines.{
  ends_with_lf, join, strip_bom, detect_line_ending, normalize_to_lf, restore_line_endings,
  splitlines,
}
use devmcp_runtime.Base.{
  ◌≡◌, refl, ◌↔◌, true, List, [], ◌∷◌, arith, if◌then◌else◌, ok, raised, ℕ, inr, false,
}

abbrev file_lines : List Line
file_lines = codes "a" ∷ codes "b" ∷ codes "c" ∷ codes "b" ∷ []

find_subsequence_all_iff_example :
    Member 1 (find_subsequence_all file_lines (codes "b" ∷ codes "c" ∷ []))
    ↔ FoundAt file_lines (codes "b" ∷ codes "c" ∷ []) 1
find_subsequence_all_iff_example =
    find_subsequence_all_iff file_lines (codes "b" ∷ codes "c" ∷ []) 1

-- Two hunks, the later place first.
abbrev two_hunks : List (List Line)
two_hunks =
    (codes " c" ∷ codes "-b" ∷ codes "+d" ∷ []) ∷ (codes "-a" ∷ codes "+x" ∷ codes "+y" ∷ []) ∷ []

abbrev two_parsed : List ParsedHunk
two_parsed =
    record { old = codes "c" ∷ codes "b" ∷ []; new = codes "c" ∷ codes "d" ∷ [] }
    ∷ record { old = codes "a" ∷ []; new = codes "x" ∷ codes "y" ∷ [] }
    ∷ []

abbrev late : MatchedHunk
late = record { hunk_index = 0; start = 2; end = 4; new = codes "c" ∷ codes "d" ∷ [] }

abbrev early : MatchedHunk
early = record { hunk_index = 1; start = 0; end = 1; new = codes "x" ∷ codes "y" ∷ [] }

two_parse : parse_hunks two_hunks ≡ ok two_parsed
unfolding parse_hunks parse_update_hunk add_line text_eq
two_parse = refl

two_match : match_hunks file_lines 0 two_parsed ≡ ok (late ∷ early ∷ [])
unfolding match_hunks match_hunk find_subsequence_all find_from occurs_at lines_eq text_eq
two_match = refl

update_lines-splice_example : update_lines file_lines two_hunks ≡ (
    if overlap (sort_up (late ∷ early ∷ []))
    then raised hunks_overlap
    else ok (splice 0 (sort_up (late ∷ early ∷ [])) file_lines))
update_lines-splice_example =
    update_lines-splice file_lines two_hunks two_parsed (late ∷ early ∷ []) two_parse two_match
      (omega arith)

two_updated :
    update_lines file_lines two_hunks
    ≡ ok (codes "x" ∷ codes "y" ∷ codes "b" ∷ codes "c" ∷ codes "d" ∷ [])
unfolding update_lines parse_hunks parse_update_hunk add_line text_eq match_hunks match_hunk
    find_subsequence_all find_from occurs_at lines_eq sort_up insert_up overlap sort_down
    insert_down replace_all replace_lines
two_updated = refl

late_match :
    match_hunk file_lines 0
      (record { old = codes "c" ∷ codes "b" ∷ []; new = codes "c" ∷ codes "d" ∷ [] })
    ≡ ok late
unfolding match_hunk find_subsequence_all find_from occurs_at lines_eq text_eq
late_match = refl

match_hunk-IsMatch_example :
    IsMatch file_lines
      (record { old = codes "c" ∷ codes "b" ∷ []; new = codes "c" ∷ codes "d" ∷ [] })
      late
match_hunk-IsMatch_example = match_hunk-IsMatch file_lines 0 _ late late_match

abbrev inserting_hunks : List (List Line)
inserting_hunks = (codes "+x" ∷ []) ∷ (codes "-a" ∷ codes "+z" ∷ []) ∷ []

inserting_parse :
    parse_hunks inserting_hunks
    ≡ ok (
        record { old = []; new = codes "x" ∷ [] }
        ∷ record { old = codes "a" ∷ []; new = codes "z" ∷ [] }
        ∷ [])
unfolding parse_hunks parse_update_hunk add_line text_eq
inserting_parse = refl

a_in_front : only (matches_of file_lines (codes "a" ∷ [])) ≡ ok 0
unfolding find_subsequence_all find_from occurs_at lines_eq text_eq
a_in_front = refl

front_insertion_overwritten_example :
    update_lines file_lines inserting_hunks ≡ ok (codes "z" ∷ file_lines)
front_insertion_overwritten_example =
    front_insertion_overwritten file_lines inserting_hunks (codes "x" ∷ [])
      (record { old = codes "a" ∷ []; new = codes "z" ∷ [] }) inserting_parse a_in_front
      (omega arith) (omega arith)

-- Two lines with carriage returns, the last of which does not end.
abbrev crlf_text : List ℕ
crlf_text = 97 ∷ 13 ∷ 10 ∷ 98 ∷ []

crlf_text-only : crlf_only false crlf_text ≡ true
unfolding crlf_only
crlf_text-only = refl

restore-normalize_example :
    restore_line_endings (normalize_to_lf crlf_text) (detect_line_ending crlf_text) ≡ crlf_text
restore-normalize_example = restore-normalize crlf_text (inr crlf_text-only)

-- A form feed between `a` and `b`, and a hunk on the last line.
abbrev fed_text : List ℕ
fed_text = 97 ∷ 12 ∷ 98 ∷ 10 ∷ 99 ∷ 10 ∷ []

abbrev fed_hunks : List (List Line)
fed_hunks = (codes "-c" ∷ codes "+d" ∷ []) ∷ []

fed_text-NoCr : NoCr fed_text
fed_text-NoCr =
    (omega arith, (omega arith, (omega arith, (omega arith, (omega arith, (omega arith, tt))))))

fed_text-ends : ends_with_lf fed_text ≡ true
unfolding ends_with_lf
fed_text-ends = refl

line_breaks_lost_example :
    apply_update_hunks fed_text fed_hunks ≡ apply_update_hunks (as_line_feeds fed_text) fed_hunks
line_breaks_lost_example =
    line_breaks_lost fed_text (codes "-c" ∷ codes "+d" ∷ []) [] fed_text-NoCr fed_text-ends

-- The form feed is gone, although the hunk does not touch it.
fed_updated : apply_update_hunks fed_text fed_hunks ≡ ok (97 ∷ 10 ∷ 98 ∷ 10 ∷ 100 ∷ 10 ∷ [])
unfolding apply_update_hunks apply_parts strip_bom render update_lines parse_hunks parse_update_hunk
    add_line text_eq match_hunks match_hunk find_subsequence_all find_from occurs_at lines_eq
    sort_up insert_up overlap sort_down insert_down replace_all replace_lines splitlines
    normalize_to_lf restore_line_endings detect_line_ending ends_with_lf join
fed_updated = refl
