-- ===== src/Codepage/Utf8.antt =====
-- 04_types_contd_homework-12926-ae2162/main.c: utf8_encode, against a strict decoder.
use otus_c_prog.Common.{
  ℕ, ◌+◌, ◌-◌, ◌*◌, ◌/◌, ◌%◌, ◌^◌, ◌≤◌, ◌<◌, ◌≡◌, ◌∙◌, ap, false, bit_and, bit_or, List, [], ◌∷◌,
  ◌++◌, Option, none, some, leb, ltb, not, ◌&&◌, Bool, if◌then◌else◌, arith, le→leb, lt→not_leb,
  length, take, lt→ltb,
}
use native.Mathlib.Decide.{dec_le}
use otus_c_prog.Common.Bits.{and_mask, or_fields}

-- The cast to `char`: a byte.
abbrev byte : ℕ → ℕ
byte x = x % 2 ^ 8

-- The bytes before the closing zero that utf8_encode stores in `out`, and what it returns.
pub record Encoded : Type 0 where
  pub out : List ℕ
  pub len : ℕ

unfoldable pub utf8_encode : ℕ → Encoded
utf8_encode utf =
    if leb utf 0x7f
    then record { out = byte utf ∷ []; len = 1 }
    else if leb utf 0x7ff
    then record {
      out =
          byte (bit_or (bit_and (utf / 2 ^ 6) 0x1f) 0xc0)
          ∷ byte (bit_or (bit_and utf 0x3f) 0x80)
          ∷ [];
      len = 2;
    }
    else if leb utf 0xffff
    then record {
      out =
          byte (bit_or (bit_and (utf / 2 ^ 12) 0x0f) 0xe0)
          ∷ byte (bit_or (bit_and (utf / 2 ^ 6) 0x3f) 0x80)
          ∷ byte (bit_or (bit_and utf 0x3f) 0x80)
          ∷ [];
      len = 3;
    }
    else if leb utf 0x10ffff
    then record {
      out =
          byte (bit_or (bit_and (utf / 2 ^ 18) 0x07) 0xf0)
          ∷ byte (bit_or (bit_and (utf / 2 ^ 12) 0x3f) 0x80)
          ∷ byte (bit_or (bit_and (utf / 2 ^ 6) 0x3f) 0x80)
          ∷ byte (bit_or (bit_and utf 0x3f) 0x80)
          ∷ [];
      len = 4;
    }
    else record { out = 0xef ∷ 0xbf ∷ 0xbd ∷ []; len = 0 }

-- A continuation byte, and the six bits that it carries.
abbrev continues : ℕ → Bool
continues b = leb 0x80 b && ltb b 0xc0

abbrev within : ℕ → ℕ → ℕ → Bool
within lo hi x = leb lo x && ltb x hi

-- A half of a pair of UTF-16, which is no character.
abbrev pub is_surrogate : ℕ → Bool
is_surrogate u = within 0xd800 0xe000 u

-- The rest of a sequence of two, three or four bytes, in the shortest form only.
pub two_bytes : ℕ → List ℕ → Option (ℕ × List ℕ)
two_bytes a (b ∷ rest) = if continues b then some ((a - 0xc0) * 64 + (b - 0x80), rest) else none
two_bytes a [] = none

pub three_bytes : ℕ → List ℕ → Option (ℕ × List ℕ)
three_bytes a (b ∷ c ∷ rest) =
    let v = (a - 0xe0) * 4096 + (b - 0x80) * 64 + (c - 0x80) in
    if continues b && continues c && leb 0x800 v && not (is_surrogate v)
    then some (v, rest)
    else none
three_bytes a _ = none

pub four_bytes : ℕ → List ℕ → Option (ℕ × List ℕ)
four_bytes a (b ∷ c ∷ d ∷ rest) =
    let v = (a - 0xf0) * 262144 + (b - 0x80) * 4096 + (c - 0x80) * 64 + (d - 0x80) in
    if continues b && continues c && continues d && within 0x10000 0x110000 v
    then some (v, rest)
    else none
four_bytes a _ = none

-- The first code point of a byte sequence, and what follows it.
pub decode_one : List ℕ → Option (ℕ × List ℕ)
decode_one [] = none
decode_one (a ∷ rest) =
    if ltb a 0x80
    then some (a, rest)
    else if within 0xc2 0xe0 a
    then two_bytes a rest
    else if within 0xe0 0xf0 a
    then three_bytes a rest
    else if within 0xf0 0xf5 a
    then four_bytes a rest
    else none

-- The bytes of a code point by arithmetic.
low_six : (x : ℕ) → byte (bit_or (bit_and x 0x3f) 0x80) ≡ 0x80 + x % 64
low_six x =
    omega (arith, or_fields 6 (bit_and x 0x3f) 2 (omega (arith, and_mask 6 x)), and_mask 6 x)

lead_two : (x : ℕ) → x < 32 → byte (bit_or (bit_and x 0x1f) 0xc0) ≡ 0xc0 + x
lead_two x h =
    omega (arith, or_fields 6 (bit_and x 0x1f) 3 (omega (arith, and_mask 5 x)), and_mask 5 x)

lead_three : (x : ℕ) → x < 16 → byte (bit_or (bit_and x 0x0f) 0xe0) ≡ 0xe0 + x
lead_three x h =
    omega (arith, or_fields 5 (bit_and x 0x0f) 7 (omega (arith, and_mask 4 x)), and_mask 4 x)

lead_four : (x : ℕ) → x < 8 → byte (bit_or (bit_and x 0x07) 0xf0) ≡ 0xf0 + x
lead_four x h =
    omega (arith, or_fields 4 (bit_and x 0x07) 15 (omega (arith, and_mask 3 x)), and_mask 3 x)

module _ (u : ℕ) (rest : List ℕ) where
  one_byte : u ≤ 0x7f → (utf8_encode u).out ≡ u ∷ []
  unfolding utf8_encode
  one_byte h = let e : u % 256 ≡ u = omega arith in rw (le→leb u 0x7f h, e)

  two_byte : 0x7f < u → u ≤ 0x7ff → (utf8_encode u).out ≡ (0xc0 + u / 64) ∷ (0x80 + u % 64) ∷ []
  unfolding utf8_encode
  two_byte h k =
      rw (lt→not_leb 0x7f u h, le→leb u 0x7ff k, lead_two (u / 64) (omega arith), low_six u)

  three_byte :
      0x7ff < u
      → u ≤ 0xffff
      → (utf8_encode u).out ≡ (0xe0 + u / 4096) ∷ (0x80 + u / 64 % 64) ∷ (0x80 + u % 64) ∷ []
  unfolding utf8_encode
  three_byte h k = rw (
    lt→not_leb 0x7f u (omega arith),
    lt→not_leb 0x7ff u h,
    le→leb u 0xffff k,
    lead_three (u / 4096) (omega arith),
    low_six (u / 64),
    low_six u,
  )

  four_byte :
      0xffff < u
      → u ≤ 0x10ffff
      → (utf8_encode u).out
        ≡ (0xf0 + u / 262144) ∷ (0x80 + u / 4096 % 64) ∷ (0x80 + u / 64 % 64) ∷ (0x80 + u % 64) ∷ []
  unfolding utf8_encode
  four_byte h k = rw (
    lt→not_leb 0x7f u (omega arith),
    lt→not_leb 0x7ff u (omega arith),
    lt→not_leb 0xffff u h,
    le→leb u 0x10ffff k,
    lead_four (u / 262144) (omega arith),
    low_six (u / 4096),
    low_six (u / 64),
    low_six u,
  )

  -- A strict decoder reads every code point up to 0x10ffff that is no surrogate back from the bytes
  -- that utf8_encode stores for it, and leaves what follows them; it refuses those of a surrogate.
  pub decode-utf8_encode :
      u ≤ 0x10ffff
      → decode_one ((utf8_encode u).out ++ rest) ≡ (if is_surrogate u then none else some (u, rest))
  unfolding decode_one two_bytes three_bytes four_bytes
  decode-utf8_encode h = elim (dec_le u 0x7f) [
    | yes a ↦ rw (one_byte a) (ground arith)
    | no a ↦ elim (dec_le u 0x7ff) [
      | yes b ↦ rw (two_byte (omega arith) b) (ground arith)
      | no b ↦ elim (dec_le u 0xffff) [
        | yes c ↦ rw (three_byte (omega arith) c) (ground arith)
        | no c ↦ rw (four_byte (omega arith) h) (ground arith)
      ]
    ]
  ]

-- A code point below the surrogates is read back.
pub decode-point :
    (u : ℕ) (rest : List ℕ) → u < 0xd800 → decode_one ((utf8_encode u).out ++ rest) ≡ some (u, rest)
decode-point u rest h =
    let plain : is_surrogate u ≡ false = ground arith in
    let point : Bool → Option (ℕ × List ℕ) = λ b. if b then none else some (u, rest) in
    decode-utf8_encode u rest (omega arith) ∙ ap point plain

-- A code point's encoding is emitted whole.
pub take-encoding :
    (u : ℕ) → u ≤ 0x10ffff → take (utf8_encode u).len (utf8_encode u).out ≡ (utf8_encode u).out
unfolding utf8_encode
take-encoding u h = ground arith

pub len-encoding : (u : ℕ) → u ≤ 0x10ffff → (utf8_encode u).len ≡ length (utf8_encode u).out
unfolding utf8_encode
len-encoding u h = ground arith

pub decode-ascii : (c : ℕ) (rest : List ℕ) → c < 0x80 → decode_one (c ∷ rest) ≡ some (c, rest)
unfolding decode_one
decode-ascii c rest h = rw (lt→ltb c 0x80 h)

-- How many bytes a code point takes.
pub length-encoding :
    (u : ℕ)
    → u ≤ 0x10ffff
    → length (utf8_encode u).out
      ≡ (if leb u 0x7f then 1 else if leb u 0x7ff then 2 else if leb u 0xffff then 3 else 4)
unfolding utf8_encode
length-encoding u h = ground arith
