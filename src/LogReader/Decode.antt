-- ===== src/LogReader/Decode.antt =====
-- 17_log_reader/main.c: url_decode.
use otus_c_prog.Common.{
  ℕ, ◌+◌, ◌-◌, ◌*◌, ◌/◌, ◌%◌, ◌≤◌, ◌<◌, ◌==◌, ◌≡◌, refl, inl, inr, ltb, leb, ◌&&◌, ◌||◌, Bool, true,
  if◌then◌else◌, List, [], ◌∷◌, length, arith, Bool-cases,
}

abbrev pub isxdigit : ℕ → Bool
isxdigit c = (leb 48 c && leb c 57) || (leb 65 c && leb c 70) || (leb 97 c && leb c 102)

-- What `strtol` in base 16 makes of a hexadecimal digit.
abbrev pub hex_value : ℕ → ℕ
hex_value c = if leb c 57 then c - 48 else if leb c 70 then c - 55 else c - 87

-- The bytes that the loop stores before the closing zero. The text that stands for a byte may be
-- that of a zero.
-- A character that stands for itself or, as a plus sign, for a space.
abbrev pub plain_value : ℕ → ℕ
plain_value c = if c == 43 then 32 else c

unfoldable pub url_decode : List ℕ → List ℕ
url_decode [] = []
url_decode (c ∷ []) = plain_value c ∷ []
url_decode (c ∷ a ∷ []) = let rest = url_decode (a ∷ []) in plain_value c ∷ rest
url_decode (c ∷ a ∷ b ∷ src) =
    let rest = url_decode (a ∷ b ∷ src) in
    let behind = url_decode src in
    if (c == 37) && (isxdigit a && isxdigit b)
    then (hex_value a * 16 + hex_value b) ∷ behind
    else plain_value c ∷ rest

-- The stored bytes and the closing zero fit the allocated block, whose size is one more than the
-- length of the text.
pub length-url_decode-le : (src : List ℕ) → length (url_decode src) ≤ length src
unfolding url_decode
length-url_decode-le [] = omega arith
length-url_decode-le (c ∷ []) = omega arith
length-url_decode-le (c ∷ a ∷ []) = omega (arith, length-url_decode-le (a ∷ []))
length-url_decode-le (c ∷ a ∷ b ∷ src) =
    let one = length-url_decode-le (a ∷ b ∷ src) in
    let two = length-url_decode-le src in
    elim (Bool-cases ((c == 37) && (isxdigit a && isxdigit b))) [
      | inl hex ↦ rw hex (omega (arith, two))
      | inr plain ↦ rw plain (omega (arith, one))
    ]

-- Percent-encoding of every byte, in capital letters.
abbrev hex_digit : ℕ → ℕ
hex_digit d = if ltb d 10 then d + 48 else d + 55

pub percent : List ℕ → List ℕ
percent [] = []
percent (b ∷ bs) = 37 ∷ hex_digit (b / 16) ∷ hex_digit (b % 16) ∷ percent bs

unfoldable pub AreBytes : List ℕ → Type 0
AreBytes [] = Unit
AreBytes (b ∷ bs) = (b < 256) × AreBytes bs

hex_digit-isxdigit : (d : ℕ) → d < 16 → isxdigit (hex_digit d) ≡ true
hex_digit-isxdigit d h = ground arith

hex_value-hex_digit : (d : ℕ) → d < 16 → hex_value (hex_digit d) ≡ d
hex_value-hex_digit d h = ground arith

-- url_decode gives back any bytes, zeros included, from the text that writes each of them as a
-- percent sign and two hexadecimal digits.
pub url_decode-percent : (bs : List ℕ) → AreBytes bs → url_decode (percent bs) ≡ bs
unfolding url_decode percent AreBytes
url_decode-percent [] h = refl
url_decode-percent (b ∷ bs) h =
    let high : b / 16 < 16 = omega (arith, h.0) in
    let low : b % 16 < 16 = omega arith in
    let whole : b / 16 * 16 + b % 16 ≡ b = omega arith in
    rw (
      hex_digit-isxdigit (b / 16) high,
      hex_digit-isxdigit (b % 16) low,
      hex_value-hex_digit (b / 16) high,
      hex_value-hex_digit (b % 16) low,
      url_decode-percent bs h.1,
      whole,
    )
