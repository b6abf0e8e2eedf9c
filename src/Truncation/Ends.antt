-- ===== src/Truncation/Ends.antt =====
-- The end of a text that `truncate_string_to_bytes_from_end` of coding_tools_mcp/textutils.py keeps.
use devmcp_runtime.Commit.{Bytes}
use devmcp_runtime.Truncation.Cuts.{past, Starts, Continuations, encode-Starts, past_lem}
use devmcp_runtime.Truncation.{
  skip_continuations, continues_at, truncate_string_to_bytes_from_end, byte_length,
}
use devmcp_runtime.Truncation.Utf8.{
  encode, encode_code, IsCode, encode_code-Shape, decode, decode-encode,
}
use devmcp_runtime.Base.{
  ℕ, zero, suc, ◌-◌, ◌≤◌, ◌<◌, ◌≡◌, refl, sym, ap, ◌∙◌, inl, inr, List, [], ◌∷◌, ◌++◌, arith, ltb,
  leb, ◌==◌, if◌then◌else◌, Bool-cases, if_both, length, drop, All, length-append, if_cases,
}

-- The longest end that starts at a character, after so many bytes or more.
unfoldable pub shed : ℕ → List ℕ → List ℕ
shed excess [] = []
shed excess (c ∷ s) =
    let rest = shed (excess - length (encode_code c)) s in if excess == 0 then c ∷ s else rest

shed_none : (s : List ℕ) → shed 0 s ≡ s
unfolding shed
shed_none [] = refl
shed_none (c ∷ s) = refl

shed_first :
    (c : ℕ) (s : List ℕ) (excess : ℕ)
    → 0 < excess
    → shed excess (c ∷ s) ≡ shed (excess - length (encode_code c)) s
unfolding shed
shed_first c s zero h = absurd (omega arith)
shed_first c s (suc excess) h = ground arith

skip-Starts : (bytes : Bytes) → Starts bytes → skip_continuations bytes ≡ bytes
unfolding skip_continuations Starts continues_at
skip-Starts [] h = refl
skip-Starts (b ∷ bytes) h = rw h refl

skip_inside :
    (more bytes : Bytes) (excess : ℕ)
    → Continuations more
    → Starts bytes
    → excess ≤ length more
    → skip_continuations (drop excess (more ++ bytes)) ≡ bytes
unfolding skip_continuations Continuations
skip_inside [] bytes zero h starts l = skip-Starts bytes starts
skip_inside [] bytes (suc excess) h starts l = absurd (omega arith)
skip_inside (b ∷ more) bytes zero h starts l =
    rw h.0 (skip_inside more bytes zero h.1 starts (omega arith))
skip_inside (b ∷ more) bytes (suc excess) h starts l =
    skip_inside more bytes excess h.1 starts (omega arith)

drop-past : (front bytes : Bytes) (n : ℕ) → drop (past front n) (front ++ bytes) ≡ drop n bytes
unfolding past
drop-past [] bytes n = refl
drop-past (b ∷ front) bytes n = drop-past front bytes n

drop_nil : (n : ℕ) → drop {A = ℕ} n [] ≡ []
drop_nil zero = refl
drop_nil (suc n) = refl

skip-drop :
    (s : List ℕ) (excess : ℕ)
    → All IsCode s
    → skip_continuations (drop excess (encode s)) ≡ encode (shed excess s)
unfolding encode Continuations
skip-drop [] excess h =
    ap skip_continuations (drop_nil excess) ∙ unfold shed skip_continuations in refl
skip-drop (c ∷ s) zero h =
    skip-Starts (encode_code c ++ encode s) (encode-Starts (c ∷ s) h)
    ∙ sym (ap encode (shed_none (c ∷ s)))
skip-drop (c ∷ s) (suc excess) h =
    let front = encode_code c in
    let left = suc excess - length front in
    let shed_more = shed_first c s (suc excess) (omega arith) in
    elim (Bool-cases (ltb excess (length (encode_code c)))) [
      | inl e ↦
          let shape = encode_code-Shape c h.0 in
          let none_left : left ≡ 0 = ground (arith, e) in
          let within : excess ≤ length shape.more = ground (arith, e, ap length shape.same) in
          ap (λ f. skip_continuations (drop (suc excess) (f ++ encode s))) shape.same
          ∙ skip_inside shape.more (encode s) excess shape.continue_it (encode-Starts s h.1) within
          ∙ sym (ap encode (shed_more ∙ ap (λ n. shed n s) none_left ∙ shed_none s))
      | inr e ↦
          let split : suc excess ≡ past front left = ground (arith, e, past_lem front left) in
          ap (λ n. skip_continuations (drop n (front ++ encode s))) split
          ∙ ap skip_continuations (drop-past front (encode s) left)
          ∙ skip-drop s left h.1
          ∙ sym (ap encode shed_more)
    ]

shed-All : (excess : ℕ) (s : List ℕ) → All IsCode s → All IsCode (shed excess s)
unfolding shed
shed-All excess [] h = tt
shed-All excess (c ∷ s) h =
    if_both (All IsCode) (excess == 0) h (shed-All (excess - length (encode_code c)) s h.1)

-- The cut at the end is what is left of the text after the characters that hold the bytes beyond the
-- limit.
pub truncate_from_end-shed :
    (text : List ℕ) (max_bytes : ℕ)
    → All IsCode text
    → truncate_string_to_bytes_from_end text max_bytes ≡ shed (byte_length text - max_bytes) text
unfolding truncate_string_to_bytes_from_end byte_length
truncate_from_end-shed text max_bytes h = elim (Bool-cases (leb (length (encode text)) max_bytes)) [
  | inl e ↦
      let no_excess : length (encode text) - max_bytes ≡ 0 = ground (arith, e) in
      rw e (sym (ap (λ n. shed n text) no_excess ∙ shed_none text))
  | inr e ↦
      let excess = length (encode text) - max_bytes in
      rw e (
        ap decode (skip-drop text excess h)
        ∙ decode-encode (shed excess text) (shed-All excess text h))
]

pub shed-suffix : (excess : ℕ) (s : List ℕ) → (front : List ℕ) × (front ++ shed excess s ≡ s)
unfolding shed
shed-suffix excess [] = ([], refl)
shed-suffix excess (c ∷ s) =
    let (front, whole) = shed-suffix (excess - length (encode_code c)) s in
    elim (Bool-cases (excess == 0)) [
      | inl e ↦ ([], rw e refl)
      | inr e ↦ (c ∷ front, rw e (ap (λ t. c ∷ t) whole))
    ]

pub length-shed :
    (excess : ℕ) (s : List ℕ) → length (encode (shed excess s)) ≤ length (encode s) - excess
unfolding shed encode
length-shed excess [] = omega arith
length-shed excess (c ∷ s) =
    let more = length-append (encode_code c) (encode s) in
    let rest = length-shed (excess - length (encode_code c)) s in
    if_cases {A = List ℕ} (λ t. length (encode t) ≤ length (encode_code c ++ encode s) - excess)
      (excess == 0) (λ e. ground (arith, e)) (λ e. ground (arith, e, more, rest))
