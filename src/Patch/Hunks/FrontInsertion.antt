-- ===== src/Patch/Hunks/FrontInsertion.antt =====
-- Two hunks that begin at the first line: an insertion, and a hunk that was matched there.
use devmcp_runtime.Patch.Hunks.Splice.{drop-append}
use devmcp_runtime.Patch.Hunks.{
  update_lines, match_hunks, match_hunk, sort_up, insert_up, overlap, sort_down, insert_down, Line,
  ParsedHunk, parse_hunks, only, matches_of, replace_all, replace_lines,
}
use devmcp_runtime.Base.{
  ℕ, ◌+◌, ◌≤◌, ◌≡◌, ap, ◌∙◌, List, [], ◌∷◌, ◌++◌, arith, length, drop, ok, ◌<◌,
}

-- Where an update has two hunks, of which the first only inserts and the second was matched at the
-- first line, with at least one old line and no more of them than the first inserts, the update
-- returns, but the second hunk overwrites what the first inserted: the lines that it was to replace
-- are all still there.
pub front_insertion_overwritten :
    (lines : List Line) (hunks : List (List Line)) (inserted : List Line) (replacing : ParsedHunk)
    → parse_hunks hunks ≡ ok (record { old = []; new = inserted } ∷ replacing ∷ [])
    → only (matches_of lines replacing.old) ≡ ok 0
    → 0 < length replacing.old
    → length replacing.old ≤ length inserted
    → update_lines lines hunks
      ≡ ok (replacing.new ++ (drop (length replacing.old) inserted ++ lines))
unfolding update_lines match_hunks match_hunk sort_up insert_up overlap sort_down insert_down
    replace_all replace_lines
front_insertion_overwritten lines hunks inserted replacing parsed front some_old fits =
    rw (parsed, update_lines)
      (rw (front, match_hunk)
        (ap (λ (l : List Line). ok (replacing.new ++ l))
          (ap (λ (k : ℕ). drop k (inserted ++ lines)) zero_plus
            ∙ drop-append (length replacing.old) inserted lines fits)))
  where
    zero_plus : 0 + length replacing.old ≡ length replacing.old
    zero_plus = omega arith
