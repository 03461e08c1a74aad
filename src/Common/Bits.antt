-- ===== src/Common/Bits.antt =====
-- Laws of the bit operations of C at variables: one equation for the lowest digit, and what
-- follows from it by induction on a bound.
use Prim.Native.Nat.{
  digits, bitwise, differ, bit_and-bitwise, bit_or-bitwise, bit_xor-bitwise, min, max,
}
use Prim.Native.Nat.{ℕ, zero, suc, ◌+◌, ◌-◌, ◌*◌, ◌/◌, ◌%◌, ◌^◌, ◌≤◌, ◌<◌, bit_and, bit_or, bit_xor}
use mathlib.Core.Path.{◌≡◌, refl, sym, ◌∙◌, ap}
use native.Mathlib.Nat.{pow-suc, one-le-pow, mod-lt}
use native.Mathlib.Omega.{arith}
use mathlib.Core.Bool.{Bool, true, ◌&&◌}
use otus_c_prog.Common.Tests.{◌==◌, ==_iff}

-- More fuel than digits makes no difference.
enough_fuel :
    (ends : ℕ → ℕ) (digit : ℕ → ℕ → ℕ) (m n a b : ℕ)
    → a ≤ m
    → a ≤ n
    → digits ends digit m a b ≡ digits ends digit n a b
enough_fuel ends digit zero zero zero b h k = refl
enough_fuel ends digit zero (suc n) zero b h k = refl
enough_fuel ends digit (suc m) zero zero b h k = refl
enough_fuel ends digit (suc m) (suc n) zero b h k = refl
enough_fuel ends digit zero n (suc a) b h k = absurd (omega arith)
enough_fuel ends digit (suc m) zero (suc a) b h k = absurd (omega arith)
enough_fuel ends digit (suc m) (suc n) (suc a) b h k =
    ap (λ t. t * 2 + digit (suc a % 2) (b % 2))
      (enough_fuel ends digit m n (suc a / 2) (b / 2) (omega arith) (omega arith))

lowest_digit :
    (ends : ℕ → ℕ) (digit : ℕ → ℕ → ℕ) (a b : ℕ)
    → bitwise ends digit (suc a) b
      ≡ bitwise ends digit (suc a / 2) (b / 2) * 2 + digit (suc a % 2) (b % 2)
lowest_digit ends digit a b =
    ap (λ t. t * 2 + digit (suc a % 2) (b % 2))
      (enough_fuel ends digit a (suc a / 2) (suc a / 2) (b / 2) (omega arith) (omega arith))

pub and_digit : (a b : ℕ) → bit_and a b ≡ bit_and (a / 2) (b / 2) * 2 + min (a % 2) (b % 2)
and_digit zero b = omega (arith, bit_and-bitwise 0 b, bit_and-bitwise 0 (b / 2))
and_digit (suc a) b =
    bit_and-bitwise (suc a) b
    ∙ lowest_digit (λ t. 0) min a b
    ∙ ap (λ t. t * 2 + min (suc a % 2) (b % 2)) (sym (bit_and-bitwise (suc a / 2) (b / 2)))

pub or_digit : (a b : ℕ) → bit_or a b ≡ bit_or (a / 2) (b / 2) * 2 + max (a % 2) (b % 2)
or_digit zero b = omega (arith, bit_or-bitwise 0 b, bit_or-bitwise 0 (b / 2))
or_digit (suc a) b =
    bit_or-bitwise (suc a) b
    ∙ lowest_digit (λ t. t) max a b
    ∙ ap (λ t. t * 2 + max (suc a % 2) (b % 2)) (sym (bit_or-bitwise (suc a / 2) (b / 2)))

differ_lem : (x y : ℕ) → x < 2 → y < 2 → differ x y ≡ (x + y) % 2
differ_lem zero y h k = omega arith
differ_lem (suc zero) zero h k = refl
differ_lem (suc zero) (suc zero) h k = refl
differ_lem (suc zero) (suc (suc y)) h k = absurd (omega arith)
differ_lem (suc (suc x)) y h k = absurd (omega arith)

pub xor_digit : (a b : ℕ) → bit_xor a b ≡ bit_xor (a / 2) (b / 2) * 2 + (a + b) % 2
xor_digit zero b = omega (arith, bit_xor-bitwise 0 b, bit_xor-bitwise 0 (b / 2))
xor_digit (suc a) b = omega (
  arith,
  bit_xor-bitwise (suc a) b,
  lowest_digit (λ t. t) differ a b,
  bit_xor-bitwise (suc a / 2) (b / 2),
  differ_lem (suc a % 2) (b % 2) (omega arith) (omega arith),
)

and_zero_below : (n a : ℕ) → a ≤ n → bit_and a 0 ≡ 0
and_zero_below n zero h = bit_and-bitwise 0 0
and_zero_below zero (suc a) h = absurd (omega arith)
and_zero_below (suc n) (suc a) h =
    omega (arith, and_digit (suc a) 0, and_zero_below n (suc a / 2) (omega arith))

-- A mask of `k` ones keeps what stands below bit `k`.
and_below : (k r q : ℕ) → r < 2 ^ k → bit_and (r + q * 2 ^ k) (2 ^ k - 1) ≡ r
and_below zero r q h = and_zero_below (r + q * 2 ^ 0) (r + q * 2 ^ 0) (omega arith) ∙ omega arith
and_below (suc k) r q h =
    let e : 2 ^ suc k ≡ 2 * 2 ^ k = omega (arith, pow-suc 2 k) in
    let pos : 1 ≤ 2 ^ k = one-le-pow k 2 (omega arith) in
    let q2 : q * 2 ^ suc k ≡ 2 * (q * 2 ^ k) = omega (arith, ap (λ (t : ℕ). q * t) e) in
    let d = and_digit (r + q * 2 ^ suc k) (2 ^ suc k - 1) in
    let ha : (r + q * 2 ^ suc k) / 2 ≡ r / 2 + q * 2 ^ k = omega (arith, q2) in
    let hb : (2 ^ suc k - 1) / 2 ≡ 2 ^ k - 1 = omega (arith, e, pos) in
    let here = and_below k (r / 2) q (omega (arith, e, h)) in
    let d' = rw (ha, hb, here) at d in d' ∙ omega (arith, e, q2, pos)

pub and_mask : (k a : ℕ) → bit_and a (2 ^ k - 1) ≡ a % 2 ^ k
and_mask k a =
    let pos : 0 < 2 ^ k = one-le-pow k 2 (omega arith) in
    let e : a ≡ a % 2 ^ k + a / 2 ^ k * 2 ^ k = grind (arith, pos) in
    ap (λ t. bit_and t (2 ^ k - 1)) e ∙ and_below k (a % 2 ^ k) (a / 2 ^ k) (mod-lt a pos)

or_zero_below : (n a : ℕ) → a ≤ n → bit_or a 0 ≡ a
or_zero_below n zero h = bit_or-bitwise 0 0
or_zero_below zero (suc a) h = absurd (omega arith)
or_zero_below (suc n) (suc a) h =
    omega (arith, or_digit (suc a) 0, or_zero_below n (suc a / 2) (omega arith))

xor_zero_below : (n a : ℕ) → a ≤ n → bit_xor a 0 ≡ a
xor_zero_below n zero h = bit_xor-bitwise 0 0
xor_zero_below zero (suc a) h = absurd (omega arith)
xor_zero_below (suc n) (suc a) h =
    omega (arith, xor_digit (suc a) 0, xor_zero_below n (suc a / 2) (omega arith))

pub xor-zero : (a : ℕ) → bit_xor a 0 ≡ a
xor-zero a = xor_zero_below a a (omega arith)

-- `lo | (hi << k)` is a sum where `lo` has at most `k` digits.
pub or_fields : (k lo hi : ℕ) → lo < 2 ^ k → bit_or lo (hi * 2 ^ k) ≡ lo + hi * 2 ^ k
or_fields zero zero hi h = bit_or-bitwise 0 (hi * 2 ^ 0) ∙ omega arith
or_fields zero (suc lo) hi h = absurd (omega arith)
or_fields (suc k) lo hi h =
    let e : 2 ^ suc k ≡ 2 * 2 ^ k = omega (arith, pow-suc 2 k) in
    let h2 : hi * 2 ^ suc k ≡ 2 * (hi * 2 ^ k) = omega (arith, ap (λ (t : ℕ). hi * t) e) in
    let half : hi * 2 ^ suc k / 2 ≡ hi * 2 ^ k = omega (arith, h2) in
    let here = or_fields k (lo / 2) hi (omega (arith, e)) in
    let d = rw (half, here) at (or_digit lo (hi * 2 ^ suc k)) in d ∙ omega (arith, h2)

-- A test of every number below a bound, by evaluation.
unfoldable pub every : ℕ → (ℕ → Bool) → Bool
every zero test = true
every (suc n) test = test n && every n test

pub every_lem : (n : ℕ) (test : ℕ → Bool) (x : ℕ) → every n test ≡ true → x < n → test x ≡ true
unfolding every
every_lem zero test x e lt = absurd (omega arith)
every_lem (suc n) test x e lt = ground (arith, every_lem n test x)

high_bits : every 256 (λ c. bit_and c 0x80 == c / 128 * 128) ≡ true
unfolding every
high_bits = refl

seven_bits : every 256 (λ c. bit_and 0x7f c == c % 128) ≡ true
unfolding every
seven_bits = refl

-- The two masks that tell the bytes of ASCII from the others.
pub and_high_bit : (c : ℕ) → c < 256 → bit_and c 0x80 ≡ c / 128 * 128
and_high_bit c h =
    (==_iff _ _).0 (every_lem 256 (λ c. bit_and c 0x80 == c / 128 * 128) c high_bits h)

pub and_seven_bits : (c : ℕ) → c < 256 → bit_and 0x7f c ≡ c % 128
and_seven_bits c h = (==_iff _ _).0 (every_lem 256 (λ c. bit_and 0x7f c == c % 128) c seven_bits h)
