-- ===== src/Truncation/Within.antt =====
-- The limits that `truncate_text_head` of coding_tools_mcp/textutils.py keeps.
use devmcp_runtime.Patch.Newlines.{join, cons_head}
use devmcp_runtime.Truncation.Utf8.{encode, encode_code}
use devmcp_runtime.Truncation.{
  gather_head, byte_length, split_lf, line_bytes, fits, cut_to, TextTruncation, first_line, whole,
}
use devmcp_runtime.Base.{
  ℕ, suc, ◌+◌, ◌≤◌, String, ◌≡◌, refl, sym, ap, ◌∙◌, subst, Bool, true, false, List, [], ◌∷◌, ◌++◌,
  arith, ltb, leb, ◌==◌, length, length-append, if_cases,
}
use mathlib.Core.List.{append-nil, append_assoc}

pub encode-append : (a b : List ℕ) → encode (a ++ b) ≡ encode a ++ encode b
unfolding encode
encode-append [] b = refl
encode-append (c ∷ a) b =
    ap (λ t. encode_code c ++ t) (encode-append a b)
    ∙ sym (append_assoc (encode_code c) (encode a) (encode b))

pub byte_length-append : (a b : List ℕ) → byte_length (a ++ b) ≡ byte_length a + byte_length b
unfolding byte_length
byte_length-append a b = ap length (encode-append a b) ∙ length-append (encode a) (encode b)

pub byte_length_lf : (b : List ℕ) → byte_length (10 ∷ b) ≡ 1 + byte_length b
unfolding byte_length encode encode_code
byte_length_lf b = omega arith

join-snoc :
    (l : List ℕ) (ls : List (List ℕ)) (line : List ℕ)
    → join ((l ∷ ls) ++ (line ∷ [])) ≡ join (l ∷ ls) ++ (10 ∷ line)
unfolding join
join-snoc l [] line = refl
join-snoc l (m ∷ ls) line =
    ap (λ t. l ++ (10 ∷ t)) (join-snoc m ls line)
    ∙ sym (append_assoc l (10 ∷ join (m ∷ ls)) (10 ∷ line))

byte_length-join :
    (output : List (List ℕ)) (line : List ℕ)
    → byte_length (join (output ++ (line ∷ [])))
      ≡ byte_length (join output) + line_bytes (length output) line
byte_length-join [] line = unfold join byte_length encode in omega arith
byte_length-join (l ∷ ls) line = ground (
  arith,
  ap byte_length (join-snoc l ls line),
  byte_length-append (join (l ∷ ls)) (10 ∷ line),
  byte_length_lf line,
)

split_lf_some :
    (s : List ℕ) → (first : List ℕ) × (rest : List (List ℕ)) × (split_lf s ≡ first ∷ rest)
unfolding split_lf
split_lf_some [] = ([], [], refl)
split_lf_some (c ∷ s) =
    let (first, rest, same) = split_lf_some s in
    if_cases {A = List (List ℕ)}
      (λ ls. (first : List ℕ) × (rest : List (List ℕ)) × (ls ≡ first ∷ rest)) (c == 10)
      (λ e. ([], split_lf s, refl)) (λ e. (c ∷ first, rest, ap (cons_head c) same))

join-cons_head : (c : ℕ) (ls : List (List ℕ)) → join (cons_head c ls) ≡ c ∷ join ls
unfolding join
join-cons_head c [] = refl
join-cons_head c (l ∷ []) = refl
join-cons_head c (l ∷ m ∷ ls) = refl

pub join-split_lf : (text : List ℕ) → join (split_lf text) ≡ text
unfolding join split_lf
join-split_lf [] = refl
join-split_lf (c ∷ s) =
    let (first, rest, same) = split_lf_some s in
    if_cases {A = List (List ℕ)} (λ ls. join ls ≡ c ∷ s) (c == 10)
      (λ e.
        ap (λ ls. join ([] ∷ ls)) same
        ∙ ap (λ t. 10 ∷ t) (sym (ap join same) ∙ join-split_lf s)
        ∙ ap (λ n. n ∷ s) (ground (arith, e)))
      (λ e. join-cons_head c (split_lf s) ∙ ap (λ t. c ∷ t) (join-split_lf s))

-- What the loop has gathered from all lines.
pub record Gathered (max_lines max_bytes : ℕ) (lines output : List (List ℕ)) : Type 0 where
  pub few : length output ≤ max_lines
  pub small : byte_length (join output) ≤ max_bytes
  pub rest : List (List ℕ)
  pub beginning : output ++ rest ≡ lines

pub gather_head-Gathered :
    (max_lines max_bytes index : ℕ) (lines output : List (List ℕ)) (output_bytes : ℕ)
    → index ≡ length output
    → output_bytes ≡ byte_length (join output)
    → length output ≤ max_lines
    → output_bytes ≤ max_bytes
    → Gathered max_lines max_bytes
        (output ++ lines)
        (gather_head max_lines max_bytes index lines output output_bytes).0
unfolding gather_head
gather_head-Gathered max_lines max_bytes index [] output output_bytes i b few small = record {
  few = few;
  small = omega (arith, b, small);
  rest = [];
  beginning = refl;
}
gather_head-Gathered max_lines max_bytes index (line ∷ lines) output output_bytes i b few small =
    let stop : Gathered max_lines max_bytes (output ++ (line ∷ lines)) output = record {
      few = few;
      small = omega (arith, b, small);
      rest = line ∷ lines;
      beginning = refl;
    } in
    let P =
      λ (r : List (List ℕ) × String). Gathered max_lines max_bytes (output ++ (line ∷ lines)) r.0 in
    if_cases P (leb max_lines (length output)) (λ e. stop)
      (λ e.
        if_cases P (ltb max_bytes (output_bytes + line_bytes index line)) (λ e'. stop)
          (λ e'.
            subst
              (λ all.
                Gathered max_lines max_bytes all
                  (gather_head max_lines max_bytes (suc index) lines (output ++ (line ∷ []))
                    (output_bytes + line_bytes index line)).0)
              (append_assoc output (line ∷ []) lines)
              (gather_head-Gathered max_lines max_bytes (suc index) lines (output ++ (line ∷ []))
                (output_bytes + line_bytes index line)
                (omega (arith, i, length-append output (line ∷ [])))
                (omega (arith, b, ap (λ n. line_bytes n line) i, byte_length-join output line))
                (ground (arith, e, length-append output (line ∷ []))) (ground (arith, e')))))

pub join-prefix :
    (output rest : List (List ℕ))
    → (after : List ℕ) × (join output ++ after ≡ join (output ++ rest))
unfolding join
join-prefix [] rest = (join rest, refl)
join-prefix (l ∷ []) [] = ([], append-nil l)
join-prefix (l ∷ []) (m ∷ rest) = (10 ∷ join (m ∷ rest), refl)
join-prefix (l ∷ m ∷ ls) rest =
    let (after, same) = join-prefix (m ∷ ls) rest in
    (after, append_assoc l (10 ∷ join (m ∷ ls)) after ∙ ap (λ t. l ++ (10 ∷ t)) same)

-- What is returned keeps the limits, the text itself as the numbers reported; its size in bytes is
-- told exactly, and nothing is cut that is not reported.
pub record Within (text : List ℕ) (max_lines max_bytes : ℕ) (r : TextTruncation) : Type 0 where
  pub lines_in : length (split_lf r.content) ≤ max_lines
  pub bytes_in : byte_length r.content ≤ max_bytes
  pub exact : r.output_bytes ≡ byte_length r.content
  pub few_lines : r.output_lines ≤ max_lines
  pub reported : r.truncated ≡ false → r.content ≡ text

pub whole-Within :
    (text : List ℕ) (max_lines max_bytes : ℕ)
    → fits text max_lines max_bytes ≡ true
    → Within text max_lines max_bytes (whole text max_lines max_bytes)
whole-Within text max_lines max_bytes e = record {
  lines_in = ground (arith, e);
  bytes_in = ground (arith, e);
  exact = refl;
  few_lines = ground (arith, e);
  reported = λ h. refl;
}

pub cut-Within :
    (text : List ℕ) (max_lines max_bytes : ℕ) (content : List ℕ) (output_lines : ℕ) (by : String)
    (partial exceeds : Bool)
    → length (split_lf content) ≤ max_lines
    → byte_length content ≤ max_bytes
    → output_lines ≤ max_lines
    → Within text max_lines max_bytes
        (cut_to text max_lines max_bytes content output_lines by partial exceeds)
cut-Within text max_lines max_bytes content output_lines by partial exceeds lines small few =
    record {
      lines_in = lines;
      bytes_in = small;
      exact = refl;
      few_lines = few;
      reported = λ h. absurd (ground (arith, h));
    }

-- A beginning of the text within the limits.
abbrev pub Beginning : List ℕ → ℕ → ℕ → TextTruncation → Type 0
Beginning text max_lines max_bytes r =
    Within text max_lines max_bytes r × (after : List ℕ) × (r.content ++ after ≡ text)

pub first_line-prefix :
    (lines : List (List ℕ)) → (after : List ℕ) × (first_line lines ++ after ≡ join lines)
unfolding join
first_line-prefix [] = ([], refl)
first_line-prefix (l ∷ []) = ([], append-nil l)
first_line-prefix (l ∷ m ∷ ls) = (10 ∷ join (m ∷ ls), refl)
