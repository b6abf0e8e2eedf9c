-- ===== src/Patch/Newlines.antt =====
-- Line ends: `str.splitlines`, `"\n".join`, and the helpers at the end of
-- coding_tools_mcp/patching.py.
pub mod Laws
use devmcp_runtime.Base.{
  ℕ, zero, suc, ◌+◌, ◌-◌, ◌*◌, ◌/◌, ◌%◌, ◌≤◌, ◌<◌, min, max, String, ◌≡◌, refl, sym, ap, ◌∙◌, subst,
  subst₂, fun_ext, ◌≢◌, ◌↔◌, ◌⊎◌, inl, inr, Bool, true, false, not, ◌&&◌, ◌||◌, Option, none, some,
  List, [], ◌∷◌, ◌++◌, map, arith, eq_iff, ltb, leb, ◌==◌, str_eq, if◌then◌else◌, ltb→lt, lt→ltb,
  leb→le, str_eq_self, str_eq_ne, Bool-cases, Option-cases, if_both, length, take, drop, any, all,
  keep_if, All, length-append, take-append-drop, length-take, length-drop, length-keep_if,
  Exception, tool_failure, runtime_error, value_error, file_exists_error, os_error, Result, ok,
  raised, Exec, ◌>>=◌, ◌>>◌, guard, pure, raise, continue, bind, continue_state, bind_state,
}

-- `str.splitlines` breaks a line at each of these.
unfoldable pub is_break : ℕ → Bool
is_break c = (leb 10 c && leb c 13) || (leb 28 c && leb c 30) || c == 133 || c == 8232 || c == 8233

-- One more character in front of the first line.
abbrev pub cons_head : ℕ → List (List ℕ) → List (List ℕ)
cons_head c [] = (c ∷ []) ∷ []
cons_head c (l ∷ ls) = (c ∷ l) ∷ ls

-- The flag says that the last character was a carriage return, which takes a line feed along.
unfoldable pub split_lines : Bool → List ℕ → List (List ℕ)
split_lines cr [] = []
split_lines cr (c ∷ s) =
    let rest = split_lines (c == 13) s in
    if cr && c == 10 then rest else if is_break c then [] ∷ rest else cons_head c rest

unfoldable pub splitlines : List ℕ → List (List ℕ)
unfolding split_lines is_break
splitlines s = split_lines false s

-- `"\n".join(lines)`
unfoldable pub join : List (List ℕ) → List ℕ
join [] = []
join (l ∷ []) = l
join (l ∷ m ∷ ls) = l ++ (10 ∷ join (m ∷ ls))

-- `s.endswith("\n")`
unfoldable pub ends_with_lf : List ℕ → Bool
ends_with_lf [] = false
ends_with_lf (c ∷ []) = c == 10
ends_with_lf (c ∷ d ∷ s) = ends_with_lf (d ∷ s)

unfoldable pub starts_with_lf : List ℕ → Bool
starts_with_lf [] = false
starts_with_lf (c ∷ s) = c == 10

-- `text.replace("\r\n", "\n")`
unfoldable pub replace_crlf : List ℕ → List ℕ
replace_crlf [] = []
replace_crlf (c ∷ s) =
    let rest = replace_crlf s in if c == 13 && starts_with_lf s then rest else c ∷ rest

-- `text.replace("\r", "\n")`
unfoldable pub replace_cr : List ℕ → List ℕ
replace_cr [] = []
replace_cr (c ∷ s) = (if c == 13 then 10 else c) ∷ replace_cr s

unfoldable pub normalize_to_lf : List ℕ → List ℕ
unfolding replace_crlf replace_cr starts_with_lf
normalize_to_lf text = replace_cr (replace_crlf text)

abbrev pub next_index : Option ℕ → Option ℕ
next_index none = none
next_index (some i) = some (i + 1)

-- `text.find("\r\n")` and `text.find("\n")`, `none` for -1
unfoldable pub find_crlf : List ℕ → Option ℕ
find_crlf [] = none
find_crlf (c ∷ s) =
    let rest = find_crlf s in if c == 13 && starts_with_lf s then some 0 else next_index rest

unfoldable pub find_lf : List ℕ → Option ℕ
find_lf [] = none
find_lf (c ∷ s) = let rest = find_lf s in if c == 10 then some 0 else next_index rest

-- Whether the text's ending is `"\r\n"`; it is `"\n"` else.
abbrev pub crlf_first : Option ℕ → Option ℕ → Bool
crlf_first none lf = false
crlf_first (some crlf) none = false
crlf_first (some crlf) (some lf) = leb crlf lf

unfoldable pub detect_line_ending : List ℕ → Bool
unfolding find_crlf find_lf starts_with_lf
detect_line_ending text = crlf_first (find_crlf text) (find_lf text)

-- `text.replace("\n", "\r\n")`
unfoldable pub replace_lf : List ℕ → List ℕ
replace_lf [] = []
replace_lf (c ∷ s) = let rest = replace_lf s in if c == 10 then 13 ∷ 10 ∷ rest else c ∷ rest

unfoldable pub restore_line_endings : List ℕ → Bool → List ℕ
unfolding replace_lf
restore_line_endings text crlf = if crlf then replace_lf text else text

abbrev pub bom : ℕ
bom = 65279

-- `strip_bom`: the mark, if there is one, and the text behind it.
unfoldable pub strip_bom : List ℕ → List ℕ × List ℕ
strip_bom [] = ([], [])
strip_bom (c ∷ s) = if c == bom then (bom ∷ [], s) else ([], c ∷ s)
