-- ===== src/Truncation/Utf8.antt =====
-- Python's `text.encode("utf-8")` and `data.decode("utf-8", errors="replace")`. A text is a list of code
-- points without surrogates. Of what is no UTF-8, `decode` takes overlong forms and surrogates for
-- characters; the source decodes parts of an encoded text only, in which there are none.
use devmcp_runtime.Base.{
  ℕ, zero, suc, ◌+◌, ◌-◌, ◌*◌, ◌/◌, ◌%◌, ◌<◌, ◌≡◌, refl, ap, ◌∙◌, inl, inr, Bool, true, false, not,
  ◌&&◌, List, [], ◌∷◌, ◌++◌, arith, ltb, leb, ◌==◌, if◌then◌else◌, Bool-cases, All,
}

abbrev pub Bytes : Type 0
Bytes = List ℕ

-- A code point of a text.
abbrev pub IsCode : ℕ → Type 0
IsCode c = c < 1114112

unfoldable pub encode_code : ℕ → Bytes
encode_code c =
    if ltb c 128
    then c ∷ []
    else if ltb c 2048
    then (192 + c / 64) ∷ (128 + c % 64) ∷ []
    else if ltb c 65536
    then (224 + c / 4096) ∷ (128 + c / 64 % 64) ∷ (128 + c % 64) ∷ []
    else (240 + c / 262144) ∷ (128 + c / 4096 % 64) ∷ (128 + c / 64 % 64) ∷ (128 + c % 64) ∷ []

unfoldable pub encode : List ℕ → Bytes
encode [] = []
encode (c ∷ s) = encode_code c ++ encode s

-- `(b & 0xC0) == 0x80`, of a byte
unfoldable pub is_continuation : ℕ → Bool
is_continuation b = leb 128 b && ltb b 192

abbrev replacement : ℕ
replacement = 65533

-- What a byte does: the characters that it ends, the number of bytes that are missing then, and the
-- value of those that came.
abbrev Seen : Type 0
Seen = List ℕ × ℕ × ℕ

unfoldable pub start_code : ℕ → Seen
start_code b =
    if ltb b 128
    then (b ∷ [], 0, 0)
    else if ltb b 192
    then (replacement ∷ [], 0, 0)
    else if ltb b 224
    then ([], 1, b - 192)
    else if ltb b 240
    then ([], 2, b - 224)
    else if ltb b 248
    then ([], 3, b - 240)
    else (replacement ∷ [], 0, 0)

unfoldable pub see_byte : ℕ → ℕ → ℕ → Seen
see_byte zero value b = start_code b
see_byte (suc missing) value b =
    let next = value * 64 + (b - 128) in
    let (out, missing', value') = start_code b in
    if not (is_continuation b)
    then (replacement ∷ out, missing', value')
    else if missing == 0
    then (next ∷ [], 0, 0)
    else ([], missing, next)

unfoldable pub decode_from : ℕ → ℕ → Bytes → List ℕ
decode_from missing value [] = if missing == 0 then [] else replacement ∷ []
decode_from missing value (b ∷ bs) =
    let (out, missing', value') = see_byte missing value b in out ++ decode_from missing' value' bs

unfoldable pub decode : Bytes → List ℕ
decode bs = decode_from 0 0 bs

-- The bytes of a character are one that continues nothing, and continuations.
pub record Shape (c : ℕ) : Type 0 where
  pub first : ℕ
  pub more : Bytes
  pub same : encode_code c ≡ first ∷ more
  pub leads : is_continuation first ≡ false
  pub continue_it : All (λ b. is_continuation b ≡ true) more

pub encode_code-Shape : (c : ℕ) → IsCode c → Shape c
unfolding encode_code is_continuation
encode_code-Shape c h = elim (Bool-cases (ltb c 128)) [
  | inl e ↦ record {
    first = c;
    more = [];
    same = ground (arith, e);
    leads = ground (arith, e);
    continue_it = tt;
  }
  | inr e ↦ elim (Bool-cases (ltb c 2048)) [
    | inl e' ↦ record {
      first = 192 + c / 64;
      more = (128 + c % 64) ∷ [];
      same = ground (arith, e, e');
      leads = ground (arith, e');
      continue_it = (ground arith, tt);
    }
    | inr e' ↦ elim (Bool-cases (ltb c 65536)) [
      | inl e'' ↦ record {
        first = 224 + c / 4096;
        more = (128 + c / 64 % 64) ∷ (128 + c % 64) ∷ [];
        same = ground (arith, e, e', e'');
        leads = ground (arith, e'');
        continue_it = (ground arith, (ground arith, tt));
      }
      | inr e'' ↦ record {
        first = 240 + c / 262144;
        more = (128 + c / 4096 % 64) ∷ (128 + c / 64 % 64) ∷ (128 + c % 64) ∷ [];
        same = ground (arith, e, e', e'');
        leads = ground (arith, e'');
        continue_it = (ground arith, (ground arith, (ground arith, tt)));
      }
    ]
  ]
]

decode_code : (c : ℕ) (bs : Bytes) → IsCode c → decode (encode_code c ++ bs) ≡ c ∷ decode bs
unfolding decode decode_from encode_code see_byte start_code is_continuation
decode_code c bs h = ground arith

-- What is encoded is decoded again.
pub decode-encode : (s : List ℕ) → All IsCode s → decode (encode s) ≡ s
unfolding encode decode decode_from
decode-encode [] h = refl
decode-encode (c ∷ s) h = decode_code c (encode s) h.0 ∙ ap (λ t. c ∷ t) (decode-encode s h.1)
