-- ===== src/Zip/Bytes.antt =====
-- 03_types_homework-12926-ac0783/main.c: little-endian reads from the bytes of a file. A read past
-- their end is a fault, which C leaves undefined.
use otus_c_prog.Common.{
  ℕ, ◌+◌, ◌*◌, ◌%◌, ◌^◌, ◌≤◌, ◌<◌, ◌≡◌, ap, bit_or, List, Option, none, some, arith, get_elem?,
  get_or, length, get_elem?-eq-get_or,
}
use otus_c_prog.Common.Bits.{or_fields}

-- A function's result: a value, `false`, or undefined behaviour or a failed assertion.
pub data Outcome {ℓ} (A : Type ℓ) : Type ℓ where
  ok : A → Outcome A
  no : Outcome A
  fault : Outcome A

infixl 5 ◌>>=◌ ◌>>◌
abbrev pub ◌>>=◌ {ℓ κ} : {A : Type ℓ} {B : Type κ} → Outcome A → (A → Outcome B) → Outcome B
ok a >>= f = f a
no >>= f = no
fault >>= f = fault

abbrev pub ◌>>◌ {ℓ} : {B : Type ℓ} → Outcome (Unit {0}) → Outcome B → Outcome B
m >> k = m >>= λ _. k

unfoldable pub lift : Option ℕ → Outcome ℕ
lift none = fault
lift (some x) = ok x

-- `p[i]`
unfoldable pub byte_at : List ℕ → ℕ → Outcome ℕ
byte_at src i = lift (get_elem? src i)

unfoldable pub read16le : List ℕ → ℕ → Outcome ℕ
unfolding byte_at lift
read16le src p = do
  b₀ ← byte_at src p
  b₁ ← byte_at src (p + 1)
  ok (bit_or b₀ (b₁ * 2 ^ 8) % 2 ^ 16)

unfoldable pub read32le : List ℕ → ℕ → Outcome ℕ
unfolding byte_at lift
read32le src p = do
  b₀ ← byte_at src p
  b₁ ← byte_at src (p + 1)
  b₂ ← byte_at src (p + 2)
  b₃ ← byte_at src (p + 3)
  ok (bit_or (bit_or (bit_or b₀ (b₁ * 2 ^ 8)) (b₂ * 2 ^ 16)) (b₃ * 2 ^ 24))

unfoldable pub read64le : List ℕ → ℕ → Outcome ℕ
unfolding byte_at lift
read64le src p = do
  b₀ ← byte_at src p
  b₁ ← byte_at src (p + 1)
  b₂ ← byte_at src (p + 2)
  b₃ ← byte_at src (p + 3)
  b₄ ← byte_at src (p + 4)
  b₅ ← byte_at src (p + 5)
  b₆ ← byte_at src (p + 6)
  b₇ ← byte_at src (p + 7)
  let low = bit_or (bit_or (bit_or b₀ (b₁ * 2 ^ 8)) (b₂ * 2 ^ 16)) (b₃ * 2 ^ 24)
  ok (bit_or (bit_or (bit_or (bit_or low (b₄ * 2 ^ 32)) (b₅ * 2 ^ 40)) (b₆ * 2 ^ 48)) (b₇ * 2 ^ 56))

-- The bytes of a file.
abbrev pub IsBytes : List ℕ → Type 0
IsBytes src = (i : ℕ) → get_or src i 0 < 256

-- The numbers that bytes stand for, lowest byte first.
abbrev pub word16 : List ℕ → ℕ → ℕ
word16 src p = get_or src p 0 + 2 ^ 8 * get_or src (p + 1) 0

abbrev pub word32 : List ℕ → ℕ → ℕ
word32 src p = word16 src p + 2 ^ 16 * word16 src (p + 2)

abbrev pub word64 : List ℕ → ℕ → ℕ
word64 src p = word32 src p + 2 ^ 32 * word32 src (p + 4)

-- One more byte above a number of fewer bits.
or_two : (a b : ℕ) → a < 256 → bit_or a (b * 2 ^ 8) ≡ a + b * 2 ^ 8
or_two a b h = or_fields 8 a b h

or_four :
    (a b c d : ℕ)
    → a < 256
    → b < 256
    → c < 256
    → bit_or (bit_or (bit_or a (b * 2 ^ 8)) (c * 2 ^ 16)) (d * 2 ^ 24)
      ≡ a + b * 2 ^ 8 + c * 2 ^ 16 + d * 2 ^ 24
or_four a b c d ha hb hc =
    let two = or_fields 8 a b ha in
    let three = or_fields 16 (a + b * 2 ^ 8) c (omega arith) in
    let four = or_fields 24 (a + b * 2 ^ 8 + c * 2 ^ 16) d (omega arith) in rw (two, three, four)

or_eight :
    (l e f g h : ℕ)
    → l < 2 ^ 32
    → e < 256
    → f < 256
    → g < 256
    → bit_or (bit_or (bit_or (bit_or l (e * 2 ^ 32)) (f * 2 ^ 40)) (g * 2 ^ 48)) (h * 2 ^ 56)
      ≡ l + e * 2 ^ 32 + f * 2 ^ 40 + g * 2 ^ 48 + h * 2 ^ 56
or_eight l e f g h hl he hf hg =
    let one = or_fields 32 l e hl in
    let two = or_fields 40 (l + e * 2 ^ 32) f (omega arith) in
    let three = or_fields 48 (l + e * 2 ^ 32 + f * 2 ^ 40) g (omega arith) in
    let four = or_fields 56 (l + e * 2 ^ 32 + f * 2 ^ 40 + g * 2 ^ 48) h (omega arith) in
    rw (one, two, three, four)

module _ (src : List ℕ) (bytes : IsBytes src) where
  pub byte_lem : (p : ℕ) → p < length src → byte_at src p ≡ ok (get_or src p 0)
  unfolding byte_at lift
  byte_lem p h = rw (get_elem?-eq-get_or src p 0 h)

  pub read16le-word16 : (p : ℕ) → p + 2 ≤ length src → read16le src p ≡ ok (word16 src p)
  unfolding read16le
  read16le-word16 p h =
      let a = get_or src p 0 in
      let b = get_or src (p + 1) 0 in
      rw (byte_lem p (omega arith), byte_lem (p + 1) (omega arith), or_two a b (bytes p))
        (ap {B = Outcome ℕ} ok (omega (arith, bytes p, bytes (p + 1))))

  pub read32le-word32 : (p : ℕ) → p + 4 ≤ length src → read32le src p ≡ ok (word32 src p)
  unfolding read32le
  read32le-word32 p h =
      let f = λ (i : ℕ). get_or src (p + i) 0 in
      let next : p + 2 + 1 ≡ p + 3 = omega arith in
      rw
        (
          byte_lem p (omega arith),
          byte_lem (p + 1) (omega arith),
          byte_lem (p + 2) (omega arith),
          byte_lem (p + 3) (omega arith),
          or_four (get_or src p 0) (f 1) (f 2) (f 3) (bytes p) (bytes (p + 1)) (bytes (p + 2)),
          next,
        )
        (ap {B = Outcome ℕ} ok (omega arith))

  -- read64le of eight bytes that are there gives the number that they stand for, lowest byte first.
  pub read64le-word64 : (p : ℕ) → p + 8 ≤ length src → read64le src p ≡ ok (word64 src p)
  unfolding read64le
  read64le-word64 p h =
      let f = λ (i : ℕ). get_or src (p + i) 0 in
      let low =
        or_four (get_or src p 0) (f 1) (f 2) (f 3) (bytes p) (bytes (p + 1)) (bytes (p + 2)) in
      let l = get_or src p 0 + f 1 * 2 ^ 8 + f 2 * 2 ^ 16 + f 3 * 2 ^ 24 in
      let small : l < 2 ^ 32 =
        omega (arith, bytes p, bytes (p + 1), bytes (p + 2), bytes (p + 3)) in
      let high =
        or_eight l (f 4) (f 5) (f 6) (f 7) small (bytes (p + 4)) (bytes (p + 5)) (bytes (p + 6)) in
      let n₃ : p + 2 + 1 ≡ p + 3 = omega arith in
      let n₅ : p + 4 + 1 ≡ p + 5 = omega arith in
      let n₆ : p + 4 + 2 ≡ p + 6 = omega arith in
      let n₇ : p + 6 + 1 ≡ p + 7 = omega arith in
      rw
        (
          byte_lem p (omega arith),
          byte_lem (p + 1) (omega arith),
          byte_lem (p + 2) (omega arith),
          byte_lem (p + 3) (omega arith),
          byte_lem (p + 4) (omega arith),
          byte_lem (p + 5) (omega arith),
          byte_lem (p + 6) (omega arith),
          byte_lem (p + 7) (omega arith),
          low,
          high,
          n₃,
          n₅,
          n₆,
          n₇,
        )
        (ap {B = Outcome ℕ} ok (omega arith))

  -- How large they are.
  pub word16-lt : (p : ℕ) → word16 src p < 2 ^ 16
  word16-lt p = omega (arith, bytes p, bytes (p + 1))
