-- ===== src/Truncation/Cuts.antt =====
-- The two cuts of a text at a number of bytes in coding_tools_mcp/textutils.py.
use devmcp_runtime.Truncation.Utf8.{
  Bytes, encode_code, encode, is_continuation, IsCode, encode_code-Shape, decode, decode-encode,
}
use devmcp_runtime.Truncation.{back_up, continues_at, truncate_string_to_bytes_from_start}
use devmcp_runtime.Base.{
  ℕ, zero, suc, ◌+◌, ◌-◌, ◌≤◌, ◌<◌, min, ◌≡◌, refl, sym, ap, ◌∙◌, inl, inr, true, false, List, [],
  ◌∷◌, ◌++◌, arith, leb, if◌then◌else◌, leb→le, Bool-cases, if_both, length, take, All,
  length-append, if_cases,
}

-- The longest beginning whose encoding fits.
unfoldable pub fit : ℕ → List ℕ → List ℕ
fit room [] = []
fit room (c ∷ s) =
    let width = length (encode_code c) in
    let rest = fit (room - width) s in if leb width room then c ∷ rest else []

unfoldable pub Continuations : Bytes → Type 0
Continuations bytes = All (λ b. is_continuation b ≡ true) bytes

-- Nothing is continued at the start.
unfoldable pub Starts : Bytes → Type 0
Starts bytes = continues_at 0 bytes ≡ false

pub encode-Starts : (s : List ℕ) → All IsCode s → Starts (encode s)
unfolding Starts encode continues_at
encode-Starts [] h = refl
encode-Starts (c ∷ s) h = let shape = encode_code-Shape c h.0 in rw shape.same shape.leads

continues_at-more :
    (end : ℕ) (more bytes : Bytes)
    → Continuations more
    → end < length more
    → continues_at end (more ++ bytes) ≡ true
unfolding Continuations continues_at
continues_at-more end [] bytes h l = absurd (omega arith)
continues_at-more zero (b ∷ more) bytes h l = h.0
continues_at-more (suc end) (b ∷ more) bytes h l =
    continues_at-more end more bytes h.1 (omega arith)

back_up-inside :
    (first : ℕ) (more bytes : Bytes) (end : ℕ)
    → Continuations more
    → end ≤ length more
    → back_up ((first ∷ more) ++ bytes) end ≡ 0
unfolding back_up continues_at
back_up-inside first more bytes zero h l = refl
back_up-inside first more bytes (suc end) h l =
    rw (continues_at-more end more bytes h (omega arith))
      (back_up-inside first more bytes end h (omega arith))

-- `length front + end`, by recursion on the front.
unfoldable pub past : Bytes → ℕ → ℕ
past [] end = end
past (b ∷ front) end = suc (past front end)

past_step : (front : Bytes) (end : ℕ) → past front (suc end) ≡ suc (past front end)
unfolding past
past_step [] end = refl
past_step (b ∷ front) end = ap (λ n. suc n) (past_step front end)

pub past_lem : (front : Bytes) (end : ℕ) → past front end ≡ length front + end
unfolding past
past_lem [] end = omega arith
past_lem (b ∷ front) end = omega (arith, past_lem front end)

continues_at-past :
    (front bytes : Bytes) (end : ℕ)
    → continues_at (past front end) (front ++ bytes) ≡ continues_at end bytes
unfolding continues_at past
continues_at-past [] bytes end = refl
continues_at-past (b ∷ front) bytes end = continues_at-past front bytes end

back_up_stops : (bytes : Bytes) (end : ℕ) → continues_at end bytes ≡ false → back_up bytes end ≡ end
unfolding back_up
back_up_stops bytes zero h = refl
back_up_stops bytes (suc end) h = rw h refl

back_up_moves :
    (bytes : Bytes) (end : ℕ)
    → continues_at (suc end) bytes ≡ true
    → back_up bytes (suc end) ≡ back_up bytes end
unfolding back_up
back_up_moves bytes end h = rw h refl

back_up-past :
    (front bytes : Bytes) (end : ℕ)
    → Starts bytes
    → back_up (front ++ bytes) (past front end) ≡ past front (back_up bytes end)
unfolding Starts
back_up-past front bytes zero h =
    back_up_stops (front ++ bytes) (past front 0) (continues_at-past front bytes 0 ∙ h)
    ∙ ap (past front) (sym (back_up_stops bytes 0 h))
back_up-past front bytes (suc end) h = elim (Bool-cases (continues_at (suc end) bytes)) [
  | inl e ↦
      ap (back_up (front ++ bytes)) (past_step front end)
      ∙ back_up_moves (front ++ bytes) (past front end) (
          ap (λ n. continues_at n (front ++ bytes)) (sym (past_step front end))
          ∙ continues_at-past front bytes (suc end)
          ∙ e)
      ∙ back_up-past front bytes end h
      ∙ ap (past front) (sym (back_up_moves bytes end e))
  | inr e ↦
      back_up_stops (front ++ bytes) (past front (suc end))
        (continues_at-past front bytes (suc end) ∙ e)
      ∙ ap (past front) (sym (back_up_stops bytes (suc end) e))
]

take-past :
    (front bytes : Bytes) (n : ℕ) → take (past front n) (front ++ bytes) ≡ front ++ take n bytes
unfolding past
take-past [] bytes n = refl
take-past (b ∷ front) bytes n = ap (λ t. b ∷ t) (take-past front bytes n)

fit_takes :
    (c : ℕ) (s : List ℕ) (room : ℕ)
    → leb (length (encode_code c)) room ≡ true
    → fit room (c ∷ s) ≡ c ∷ fit (room - length (encode_code c)) s
unfolding fit
fit_takes c s room h = rw h refl

fit_stops :
    (c : ℕ) (s : List ℕ) (room : ℕ)
    → leb (length (encode_code c)) room ≡ false
    → fit room (c ∷ s) ≡ []
unfolding fit
fit_stops c s room h = rw h refl

take_nil : (n : ℕ) → take {A = ℕ} n [] ≡ []
take_nil zero = refl
take_nil (suc n) = refl

-- What the loop leaves of an encoded text.
take-back_up :
    (s : List ℕ) (end : ℕ)
    → All IsCode s
    → take (back_up (encode s) end) (encode s) ≡ encode (fit end s)
unfolding encode Continuations
take-back_up [] end h = unfold fit in take_nil (back_up [] end)
take-back_up (c ∷ s) end h = elim (Bool-cases (leb (length (encode_code c)) end)) [
  | inl e ↦
      let front = encode_code c in
      let left = end - length front in
      let bytes = front ++ encode s in
      let split : end ≡ past front left = ground (arith, e, past_lem front left) in
      ap (λ n. take (back_up bytes n) bytes) split
      ∙ ap (λ n. take n bytes) (back_up-past front (encode s) left (encode-Starts s h.1))
      ∙ take-past front (encode s) (back_up (encode s) left)
      ∙ ap (λ t. front ++ t) (take-back_up s left h.1)
      ∙ sym (ap encode (fit_takes c s end e))
  | inr e ↦
      let shape = encode_code-Shape c h.0 in
      ap (λ front. take (back_up (front ++ encode s) end) (front ++ encode s)) shape.same
      ∙ ap (λ n. take n ((shape.first ∷ shape.more) ++ encode s))
          (back_up-inside shape.first shape.more (encode s) end shape.continue_it
            (ground (arith, e, ap length shape.same)))
      ∙ sym (ap encode (fit_stops c s end e))
]

fit-All : (room : ℕ) (s : List ℕ) → All IsCode s → All IsCode (fit room s)
unfolding fit
fit-All room [] h = tt
fit-All room (c ∷ s) h =
    if_both (All IsCode) (leb (length (encode_code c)) room)
      (h.0, fit-All (room - length (encode_code c)) s h.1) tt

fit_all : (room : ℕ) (s : List ℕ) → length (encode s) ≤ room → fit room s ≡ s
unfolding fit encode
fit_all room [] h = refl
fit_all room (c ∷ s) h =
    let more = length-append (encode_code c) (encode s) in
    let first : leb (length (encode_code c)) room ≡ true = ground (arith, more, h) in
    rw first (ap (λ t. c ∷ t) (fit_all (room - length (encode_code c)) s (omega (arith, more, h))))

-- The cut at the start is the longest beginning whose encoding fits into the bytes.
pub truncate_from_start-fit :
    (text : List ℕ) (max_bytes : ℕ)
    → All IsCode text
    → truncate_string_to_bytes_from_start text max_bytes ≡ fit max_bytes text
unfolding truncate_string_to_bytes_from_start
truncate_from_start-fit text max_bytes h =
    elim (Bool-cases (leb (length (encode text)) max_bytes)) [
      | inl e ↦ rw e (sym (fit_all max_bytes text (leb→le (length (encode text)) max_bytes e)))
      | inr e ↦
          let least : min max_bytes (length (encode text)) ≡ max_bytes = ground (arith, e) in
          rw e (
            ap (λ n. decode (take (back_up (encode text) n) (encode text))) least
            ∙ ap decode (take-back_up text max_bytes h)
            ∙ decode-encode (fit max_bytes text) (fit-All max_bytes text h))
    ]

pub fit-prefix : (room : ℕ) (s : List ℕ) → (rest : List ℕ) × (fit room s ++ rest ≡ s)
unfolding fit
fit-prefix room [] = ([], refl)
fit-prefix room (c ∷ s) =
    let (rest, whole) = fit-prefix (room - length (encode_code c)) s in
    elim (Bool-cases (leb (length (encode_code c)) room)) [
      | inl e ↦ (rest, rw e (ap (λ t. c ∷ t) whole))
      | inr e ↦ (c ∷ s, rw e refl)
    ]

pub length-fit : (room : ℕ) (s : List ℕ) → length (encode (fit room s)) ≤ room
unfolding fit encode
length-fit room [] = omega arith
length-fit room (c ∷ s) =
    let rest = fit (room - length (encode_code c)) s in
    if_cases {A = List ℕ} (λ t. length (encode t) ≤ room) (leb (length (encode_code c)) room)
      (λ e. ground (
        arith,
        e,
        length-append (encode_code c) (encode rest),
        length-fit (room - length (encode_code c)) s,
      ))
      (λ e. omega arith)
