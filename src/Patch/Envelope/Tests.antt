-- ===== src/Patch/Envelope/Tests.antt =====
-- Patches of coding_tools_mcp/patching.py, `parse_patch`.
use devmcp_runtime.Patch.Hunks.{patch_failed}
use devmcp_runtime.Patch.Newlines.{splitlines, join}
use devmcp_runtime.Patch.Envelope.RoundTrip.{Written, new_file, changed_file, moved_file, old_file}
use devmcp_runtime.Base.Text.{strip, is_space, starts_with, codes, text_eq}
use devmcp_runtime.Patch.Envelope.{parse_patch, parse_lines, parse_body, parse_line, open_line, add}
use devmcp_runtime.Base.{◌≡◌, refl, List, [], ◌∷◌, ok, raised}

abbrev written : List Written
written =
    new_file (codes "a.txt") (codes "x" ∷ [] ∷ [])
    ∷ changed_file (codes "b") ((codes "-y" ∷ codes "+z" ∷ []) ∷ (codes " k" ∷ []) ∷ [])
    ∷ moved_file (codes "c") (codes "d")
    ∷ changed_file (codes "e") []
    ∷ old_file (codes "f")
    ∷ []

text_run :
    parse_patch (codes "*** Begin Patch\n*** Add File:  n \n+one\n*** End Patch\n")
    ≡ ok (add (codes "n") (codes "one\n") ∷ [])
unfolding parse_patch parse_lines parse_body parse_line open_line splitlines strip text_eq is_space
    starts_with join
text_run = refl

unopened_run :
    parse_patch (codes "*** Begin Patch\n*** Move to: n\n*** End Patch\n") ≡ raised patch_failed
unfolding parse_patch parse_lines parse_body parse_line open_line splitlines strip text_eq is_space
    starts_with join
unopened_run = refl
