-- ===== src/Crc32/Bitwise.antt =====
-- 16_crc32/main.c: crc32_raw against the shift register that the table stands for.
use otus_c_prog.Common.{
  ℕ, zero, suc, ◌+◌, ◌*◌, ◌/◌, ◌%◌, ◌^◌, ◌<◌, ◌==◌, ==_iff, ◌≡◌, refl, sym, ap, ◌∙◌, true, false,
  if◌then◌else◌, List, [], ◌∷◌, get_or, bit_xor, bit_and, arith, Bool-cases, inl, inr,
}
use otus_c_prog.Common.Bits.{xor_digit, and_mask, xor-zero, every, every_lem}
use otus_c_prog.Common.Xor.{xor_half, xor_assoc, xor_comm, xor_fields, xor_high}
use native.Mathlib.Nat.{pow-suc}
use otus_c_prog.Crc32.Table.{crc32_tab}
use otus_c_prog.Crc32.{crc_step, crc32_raw}

-- One shift of the register, with the polynomial in the order of the lowest digit first.
pub shift : ℕ → ℕ
shift c = if c % 2 == 1 then bit_xor 0xedb88320 (c / 2) else c / 2

pub shifts : ℕ → ℕ → ℕ
shifts zero c = c
shifts (suc n) c = shifts n (shift c)

-- The register after a byte, one digit after the other.
pub bitwise : List ℕ → ℕ → ℕ
bitwise [] crc = crc
bitwise (p ∷ buf) crc = bitwise buf (shifts 8 (bit_xor crc p))

table_good : every 256 (λ i. get_or crc32_tab i 0 == shifts 8 i) ≡ true
unfolding every shifts shift
table_good = refl

table_lem : (i : ℕ) → i < 256 → get_or crc32_tab i 0 ≡ shifts 8 i
table_lem i h =
    (==_iff _ _).0 (every_lem 256 (λ i. get_or crc32_tab i 0 == shifts 8 i) i table_good h)

-- Exclusive or of four numbers, the middle two exchanged.
exchange : (a b c d : ℕ) → bit_xor (bit_xor a b) (bit_xor c d) ≡ bit_xor (bit_xor a c) (bit_xor b d)
exchange a b c d =
    xor_assoc a b (bit_xor c d)
    ∙ ap (bit_xor a)
        (sym (xor_assoc b c d) ∙ ap (λ t. bit_xor t d) (xor_comm b c) ∙ xor_assoc c b d)
    ∙ sym (xor_assoc a c (bit_xor b d))

-- What shift adds for the lowest digit of the register.
feedback : ℕ → ℕ
feedback c = if c % 2 == 1 then 0xedb88320 else 0

shift-eq : (c : ℕ) → shift c ≡ bit_xor (feedback c) (c / 2)
unfolding shift feedback
shift-eq c = elim (Bool-cases (c % 2 == 1)) [
  | inl e ↦ rw e
  | inr e ↦ rw e (sym (xor_comm 0 (c / 2) ∙ xor-zero (c / 2)))
]

feedback-xor : (a b : ℕ) → feedback (bit_xor a b) ≡ bit_xor (feedback a) (feedback b)
unfolding feedback
feedback-xor a b =
    let digit : bit_xor a b % 2 ≡ (a + b) % 2 = omega (arith, xor_digit a b) in
    elim (Bool-cases (a % 2 == 1)) [
      | inl e ↦ elim (Bool-cases (b % 2 == 1)) [
        | inl f ↦ let g : (bit_xor a b % 2 == 1) ≡ false = ground (arith, digit) in rw (e, f, g)
        | inr f ↦ let g : (bit_xor a b % 2 == 1) ≡ true = ground (arith, digit) in rw (e, f, g)
      ]
      | inr e ↦ elim (Bool-cases (b % 2 == 1)) [
        | inl f ↦ let g : (bit_xor a b % 2 == 1) ≡ true = ground (arith, digit) in rw (e, f, g)
        | inr f ↦ let g : (bit_xor a b % 2 == 1) ≡ false = ground (arith, digit) in rw (e, f, g)
      ]
    ]

shift-xor : (a b : ℕ) → shift (bit_xor a b) ≡ bit_xor (shift a) (shift b)
shift-xor a b =
    shift-eq (bit_xor a b)
    ∙ ap (λ t. bit_xor t (bit_xor a b / 2)) (feedback-xor a b)
    ∙ ap (bit_xor (bit_xor (feedback a) (feedback b))) (xor_half a b)
    ∙ exchange (feedback a) (feedback b) (a / 2) (b / 2)
    ∙ ap (λ t. bit_xor t (bit_xor (feedback b) (b / 2))) (sym (shift-eq a))
    ∙ ap (bit_xor (shift a)) (sym (shift-eq b))

shifts-xor : (n a b : ℕ) → shifts n (bit_xor a b) ≡ bit_xor (shifts n a) (shifts n b)
unfolding shifts
shifts-xor zero a b = refl
shifts-xor (suc n) a b = ap (shifts n) (shift-xor a b) ∙ shifts-xor n (shift a) (shift b)

-- Zeros that leave the register change nothing above them.
shifts-pow : (n hi : ℕ) → shifts n (hi * 2 ^ n) ≡ hi
unfolding shifts shift
shifts-pow zero hi = omega arith
shifts-pow (suc n) hi =
    let e : 2 ^ suc n ≡ 2 * 2 ^ n = omega (arith, pow-suc 2 n) in
    let h2 : hi * 2 ^ suc n ≡ 2 * (hi * 2 ^ n) = omega (arith, ap (λ (t : ℕ). hi * t) e) in
    let even : (hi * 2 ^ suc n % 2 == 1) ≡ false = ground (arith, h2) in
    let half : hi * 2 ^ suc n / 2 ≡ hi * 2 ^ n = omega (arith, h2) in
    rw (even, half) (shifts-pow n hi)

shifts_eight : (x : ℕ) → shifts 8 x ≡ bit_xor (shifts 8 (x % 256)) (x / 256)
shifts_eight x =
    let whole : x ≡ bit_xor (x % 256) (x / 256 * 2 ^ 8) =
      (omega arith) ∙ sym (xor_fields 8 (x % 256) (x / 256) (omega arith)) in
    ap (shifts 8) whole
    ∙ shifts-xor 8 (x % 256) (x / 256 * 2 ^ 8)
    ∙ ap (bit_xor (shifts 8 (x % 256))) (shifts-pow 8 (x / 256))

-- Numbers below 256.
unfoldable pub AllBytes : List ℕ → Type 0
AllBytes [] = Unit
AllBytes (b ∷ bs) = (b < 256) × AllBytes bs

crc_step-shifts : (crc p : ℕ) → p < 256 → crc_step crc p ≡ shifts 8 (bit_xor crc p)
unfolding crc_step
crc_step-shifts crc p h =
    let x = bit_xor crc p in
    let low : bit_and x 0xff ≡ x % 256 = and_mask 8 x in
    let gone : p / 2 ^ 8 ≡ 0 = omega (arith, h) in
    let high : crc / 2 ^ 8 ≡ x / 256 =
      sym (xor_high 8 crc p ∙ ap (bit_xor (crc / 2 ^ 8)) gone ∙ xor-zero (crc / 2 ^ 8)) in
    rw low (ap (λ t. bit_xor t (crc / 2 ^ 8)) (table_lem (x % 256) (omega arith)))
    ∙ ap (bit_xor (shifts 8 (x % 256))) high
    ∙ sym (shifts_eight x)

-- crc32_raw, with its table, computes on bytes what a shift register with the polynomial 0x04c11db7 computes
-- that takes the digits of the bytes one after the other, the lowest first.
pub crc32_raw-bitwise :
    (buf : List ℕ) (crc : ℕ) → AllBytes buf → crc32_raw buf crc ≡ bitwise buf crc
unfolding crc32_raw bitwise AllBytes
crc32_raw-bitwise [] crc h = refl
crc32_raw-bitwise (p ∷ buf) crc h =
    ap (crc32_raw buf) (crc_step-shifts crc p h.0)
    ∙ crc32_raw-bitwise buf (shifts 8 (bit_xor crc p)) h.1
