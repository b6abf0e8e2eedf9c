-- ===== src/Patch/Envelope/RoundTrip.antt =====
-- `parse_patch` of coding_tools_mcp/patching.py reads back every patch that is written in the format that it takes.
use mathlib.Core.List.{append-nil, append_assoc}
use devmcp_runtime.Patch.Newlines.{join}
use devmcp_runtime.Patch.Envelope.{
  parse_body, PatchOperation, parse_line, add_file, stars, add, Mode, in_update, delete_file,
  move_line, top, delete, update, update_file, with_current, move, open_line, parse_lines,
  split_last,
}
use devmcp_runtime.Base.Text.{starts_with, strip, codes, text_eq, is_space}
use devmcp_runtime.Patch.Hunks.{Line, patch_failed}
use devmcp_runtime.Base.{
  ℕ, ◌≡◌, refl, sym, ap, ◌∙◌, ◌≢◌, true, false, List, [], ◌∷◌, ◌++◌, All, Result, ok, raised, ◌>>=◌,
}

-- An operation as it is written: the lines of a new file, and the hunks of an update.
pub data Written : Type 0 where
  new_file : List ℕ → List Line → Written
  old_file : List ℕ → Written
  changed_file : List ℕ → List (List Line) → Written
  moved_file : List ℕ → List ℕ → Written

abbrev pub meaning : Written → PatchOperation
meaning (new_file path lines) = add path (join lines ++ (10 ∷ []))
meaning (old_file path) = delete path
meaning (changed_file path hunks) = update path hunks
meaning (moved_file path target) = move path target

abbrev pub added : List Line → List Line
added [] = []
added (l ∷ ls) = (43 ∷ l) ∷ added ls  -- `+`

abbrev pub print_hunks : List (List Line) → List Line
print_hunks [] = []
print_hunks (h ∷ hs) = codes "@@" ∷ (h ++ print_hunks hs)

abbrev pub print : Written → List Line
print (new_file path lines) = (add_file ++ path) ∷ added lines
print (old_file path) = (delete_file ++ path) ∷ []
print (changed_file path hunks) = (update_file ++ path) ∷ print_hunks hunks
print (moved_file path target) = (update_file ++ path) ∷ (move_line ++ target) ∷ []

abbrev pub print_all : List Written → List Line
print_all [] = []
print_all (w ∷ ws) = print w ++ print_all ws

-- A line of a hunk is none of the markers.
abbrev pub IsHunkLine : Line → Type 0
IsHunkLine l = (starts_with l stars ≡ false) × (starts_with l (codes "@@") ≡ false)

abbrev pub IsHunk : List Line → Type 0
IsHunk h = (h ≢ []) × All IsHunkLine h

-- A path has no white space around it.
abbrev pub IsPrintable : Written → Type 0
IsPrintable (new_file path lines) = strip path ≡ path
IsPrintable (old_file path) = strip path ≡ path
IsPrintable (changed_file path hunks) = (strip path ≡ path) × All IsHunk hunks
IsPrintable (moved_file path target) = (strip path ≡ path) × (strip target ≡ target)

-- The lines that follow end an inner loop.
abbrev Follows : List Line → Type 0
Follows [] = Unit
Follows (l ∷ ls) = (starts_with l stars ≡ true) × (starts_with l move_line ≡ false)

-- They do, but the first one may be a `*** Move to: ` line.
abbrev Ends : List Line → Type 0
Ends [] = Unit
Ends (l ∷ ls) = starts_with l stars ≡ true

abbrev prepend : PatchOperation → Result (List PatchOperation) → Result (List PatchOperation)
prepend o r = r >>= λ more. ok (o ∷ more)

abbrev tagged : PatchOperation → List PatchOperation × Mode → Result (List PatchOperation × Mode)
tagged o x = ok (o ∷ x.0, x.1)

abbrev go_on :
    (Mode → Result (List PatchOperation))
    → List PatchOperation × Mode
    → Result (List PatchOperation)
go_on body x = body x.1 >>= λ more. ok (x.0 ++ more)

prepend_more :
    (o : PatchOperation) (ops : List PatchOperation) (b : Result (List PatchOperation))
    → (b >>= λ more. ok (o ∷ (ops ++ more))) ≡ prepend o (b >>= λ more. ok (ops ++ more))
prepend_more o ops (ok more) = refl
prepend_more o ops (raised e) = refl

prepend_step :
    (o : PatchOperation) (r : Result (List PatchOperation × Mode))
    (body : Mode → Result (List PatchOperation))
    → ((r >>= tagged o) >>= go_on body) ≡ prepend o (r >>= go_on body)
prepend_step o (raised e) body = refl
prepend_step o (ok (ops, m)) body = prepend_more o ops (body m)

bind-ok : (b : Result (List PatchOperation)) → (b >>= λ more. ok ([] ++ more)) ≡ b
bind-ok (ok more) = refl
bind-ok (raised e) = refl

end_of_update :
    (path : List ℕ) (hunks : List (List Line)) (current : List Line) (rest : List Line)
    → Ends rest
    → parse_body (in_update path hunks current) rest
      ≡ prepend (update path (with_current hunks current)) (parse_body top rest)
unfolding parse_body parse_line
end_of_update path hunks current [] f = refl
end_of_update path hunks current (l ∷ ls) f =
    rw f
      (prepend_step (update path (with_current hunks current)) (open_line l) (λ m. parse_body m ls))

-- The lines of a hunk are collected.
parse_hunk_lines :
    (path : List ℕ) (hunks : List (List Line)) (current h rest : List Line)
    → All IsHunkLine h
    → parse_body (in_update path hunks current) (h ++ rest)
      ≡ parse_body (in_update path hunks (current ++ h)) rest
unfolding parse_body parse_line
parse_hunk_lines path hunks current [] rest f =
    ap (λ c. parse_body (in_update path hunks c) rest) (sym (append-nil current))
parse_hunk_lines path hunks current (l ∷ ls) rest f =
    rw (f.0.0, f.0.1)
      (bind-ok _
        ∙ parse_hunk_lines path hunks (current ++ (l ∷ [])) ls rest f.1
        ∙ ap (λ c. parse_body (in_update path hunks c) rest) (append_assoc current (l ∷ []) ls))

-- A hunk is collected until the next marker, from where nothing is collected yet.
parse_hunks_lines :
    (path : List ℕ) (hunks : List (List Line)) (current : List Line) (hs : List (List Line))
    (rest : List Line)
    → All IsHunk hs
    → Ends rest
    → parse_body (in_update path hunks current) (print_hunks hs ++ rest)
      ≡ prepend (update path (with_current hunks current ++ hs)) (parse_body top rest)
unfolding parse_body parse_line starts_with
parse_hunks_lines path hunks current [] rest f g =
    end_of_update path hunks current rest g
    ∙ ap (λ h. prepend (update path h) (parse_body top rest))
        (sym (append-nil (with_current hunks current)))
parse_hunks_lines path hunks current ([] ∷ hs) rest f g = absurd (f.0.0 refl)
parse_hunks_lines path hunks current ((l ∷ ls) ∷ hs) rest f g =
    let now = with_current hunks current in
    bind-ok _
    ∙ ap (λ lines. parse_body (in_update path now []) lines)
        (append_assoc (l ∷ ls) (print_hunks hs) rest)
    ∙ parse_hunk_lines path now [] (l ∷ ls) (print_hunks hs ++ rest) f.0.1
    ∙ parse_hunks_lines path now (l ∷ ls) hs rest f.1 g
    ∙ ap (λ h. prepend (update path h) (parse_body top rest)) (append_assoc now ((l ∷ ls) ∷ []) hs)

split_last-append :
    (l : Line) (ls : List Line) (last : Line) → split_last l (ls ++ (last ∷ [])) ≡ (l ∷ ls, last)
split_last-append l [] last = refl
split_last-append l (m ∷ ls) last = ap (λ r. (l ∷ r.0, r.1)) (split_last-append m ls last)

abbrev pub begin_patch : Line
begin_patch = codes "*** Begin Patch"

abbrev pub end_patch : Line
end_patch = codes "*** End Patch"

parse_enveloped :
    (body : List Line)
    → parse_lines (begin_patch ∷ (body ++ (end_patch ∷ []))) ≡ parse_body top body
unfolding parse_lines strip text_eq is_space
parse_enveloped [] = refl
parse_enveloped (l ∷ ls) = rw (split_last-append l ls end_patch) refl

-- What follows an update with hunks.
parse_update_then :
    (path : List ℕ) (hunk : List Line) (hunks : List (List Line)) (rest : List Line)
    → IsPrintable (changed_file path (hunk ∷ hunks))
    → Ends rest
    → parse_body top (print (changed_file path (hunk ∷ hunks)) ++ rest)
      ≡ prepend (update path (hunk ∷ hunks)) (parse_body top rest)
unfolding parse_body parse_line open_line starts_with text_eq
parse_update_then path hunk hunks rest h g =
    bind-ok _
    ∙ ap (λ p. parse_body (in_update p [] []) (print_hunks (hunk ∷ hunks) ++ rest)) h.0
    ∙ parse_hunks_lines path [] [] (hunk ∷ hunks) rest h.1 g

parse_stray_move :
    (target : List ℕ) (after : List Line)
    → parse_body top ((move_line ++ target) ∷ after) ≡ raised patch_failed
unfolding parse_body parse_line open_line starts_with text_eq
parse_stray_move target after = refl

move_line-Ends : (target : List ℕ) (after : List Line) → Ends ((move_line ++ target) ∷ after)
unfolding starts_with
move_line-Ends target after = refl

-- The form of docs/tools-and-schemas.md is refused: an update with hunks, first in a patch, that is
-- followed by a `*** Move to: ` line, whatever comes after it.
pub hunks_then_move_refused :
    (path : List ℕ) (hunk : List Line) (hunks : List (List Line)) (target : List ℕ)
    (after : List Line)
    → IsPrintable (changed_file path (hunk ∷ hunks))
    → parse_lines (
        begin_patch
        ∷ ((print (changed_file path (hunk ∷ hunks)) ++ ((move_line ++ target) ∷ after))
            ++ (end_patch ∷ [])))
      ≡ raised patch_failed
hunks_then_move_refused path hunk hunks target after h =
    parse_enveloped (print (changed_file path (hunk ∷ hunks)) ++ ((move_line ++ target) ∷ after))
    ∙ parse_update_then path hunk hunks ((move_line ++ target) ∷ after) h
        (move_line-Ends target after)
    ∙ ap (prepend (update path (hunk ∷ hunks))) (parse_stray_move target after)
