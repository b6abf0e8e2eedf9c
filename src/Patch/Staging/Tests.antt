-- ===== src/Patch/Staging/Tests.antt =====
-- A patch that updates a file and moves it.
use devmcp_runtime.Patch.Newlines.{
  strip_bom, splitlines, normalize_to_lf, restore_line_endings, detect_line_ending, ends_with_lf,
  join,
}
use devmcp_runtime.Base.Text.{codes, text_eq}
use devmcp_runtime.Patch.Envelope.{PatchOperation, update, move}
use devmcp_runtime.Patch.Staging.Moves.{MovedFromDisk, move_reads_disk}
use devmcp_runtime.Base.Dict.{Dict, get, put}
use devmcp_runtime.Patch.Staging.{
  OnDisk, stage_operations, validate_operation, StagedText, text_file, stage_update, nothing,
  stage_move,
}
use devmcp_runtime.Patch.Hunks.{
  patch_failed, Line, apply_update_hunks, apply_parts, render, update_lines, parse_hunks,
  parse_update_hunk, add_line, match_hunks, match_hunk, find_subsequence_all, find_from, occurs_at,
  lines_eq, sort_up, insert_up, overlap, sort_down, insert_down, replace_all, replace_lines,
}
use devmcp_runtime.Base.{
  ℕ, String, ◌≡◌, refl, Bool, none, some, List, [], ◌∷◌, ◌==◌, str_eq, if◌then◌else◌, Result, ok,
  raised, ◌>>=◌,
}

-- A path is its last character.
abbrev display : List ℕ → Result String
display [] = raised patch_failed
display (c ∷ path) = ok (if c == 97 then "a" else "b")

abbrev for_write : List ℕ → Result (String × Bool)
for_write path = display path >>= λ d. ok (d, str_eq d "a")

abbrev no_symlink : List ℕ → Result (Unit {0})
no_symlink path = ok tt

abbrev disk : String → OnDisk
disk d = if str_eq d "a" then text_file (codes "x") else nothing

abbrev hunks : List (List Line)
hunks = (codes "-x" ∷ codes "+y" ∷ []) ∷ []

abbrev update_a : PatchOperation
update_a = update (codes "a") hunks

abbrev updated : Dict StagedText
updated = ("a", record { content = some (codes "y"); baseline = text_file (codes "x") }) ∷ []

abbrev moved : Dict StagedText
moved =
    ("a", record { content = none; baseline = text_file (codes "x") })
    ∷ ("b", record { content = some (codes "x"); baseline = nothing })
    ∷ []

update_hunk : apply_update_hunks (codes "x") hunks ≡ ok (codes "y")
unfolding apply_update_hunks apply_parts strip_bom render update_lines parse_hunks parse_update_hunk
    add_line text_eq match_hunks match_hunk find_subsequence_all find_from occurs_at lines_eq
    sort_up insert_up overlap sort_down insert_down replace_all replace_lines splitlines
    normalize_to_lf restore_line_endings detect_line_ending ends_with_lf join
update_hunk = refl

staged_update : stage_operations display for_write no_symlink disk (update_a ∷ []) [] ≡ ok updated
unfolding stage_operations validate_operation stage_update get put
staged_update = rw update_hunk refl

staged_both :
    stage_operations display for_write no_symlink disk
      (update_a ∷ move (codes "a") (codes "b") ∷ [])
      []
    ≡ ok moved
unfolding stage_operations validate_operation stage_update stage_move get put text_eq
staged_both = rw update_hunk refl

move_reads_disk_example :
    MovedFromDisk display for_write no_symlink disk (codes "a") (codes "b") moved
move_reads_disk_example =
    move_reads_disk display for_write no_symlink disk (update_a ∷ []) (codes "a") (codes "b") []
      moved staged_both
