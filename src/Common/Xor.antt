-- ===== src/Common/Xor.antt =====
-- The laws of exclusive or that the checksum needs.
use Prim.Native.Nat.{ℕ, zero, suc, ◌+◌, ◌*◌, ◌/◌, ◌^◌, ◌≤◌, ◌<◌, bit_xor}
use mathlib.Core.Path.{◌≡◌, refl, sym, ap, ◌∙◌}
use native.Mathlib.Omega.{arith}
use native.Mathlib.Nat.{pow-suc, div-div-eq-div-mul}
use otus_c_prog.Common.Bits.{xor_digit, xor-zero}

pub xor_half : (a b : ℕ) → bit_xor a b / 2 ≡ bit_xor (a / 2) (b / 2)
xor_half a b = omega (arith, xor_digit a b)

assoc_below :
    (n a b c : ℕ) → a ≤ n → b ≤ n → c ≤ n → bit_xor (bit_xor a b) c ≡ bit_xor a (bit_xor b c)
assoc_below zero zero zero zero ha hb hc = refl
assoc_below zero (suc a) b c ha hb hc = absurd (omega arith)
assoc_below zero zero (suc b) c ha hb hc = absurd (omega arith)
assoc_below zero zero zero (suc c) ha hb hc = absurd (omega arith)
assoc_below (suc n) a b c ha hb hc =
    let ih = assoc_below n (a / 2) (b / 2) (c / 2) (omega arith) (omega arith) (omega arith) in
    let left = rw (xor_half a b) at (xor_digit (bit_xor a b) c) in
    let right = rw (xor_half b c) at (xor_digit a (bit_xor b c)) in
    omega (arith, left, right, ih, xor_digit a b, xor_digit b c)

pub xor_assoc : (a b c : ℕ) → bit_xor (bit_xor a b) c ≡ bit_xor a (bit_xor b c)
xor_assoc a b c = assoc_below (a + b + c) a b c (omega arith) (omega arith) (omega arith)

comm_below : (n a b : ℕ) → a ≤ n → b ≤ n → bit_xor a b ≡ bit_xor b a
comm_below zero zero zero ha hb = refl
comm_below zero (suc a) b ha hb = absurd (omega arith)
comm_below zero zero (suc b) ha hb = absurd (omega arith)
comm_below (suc n) a b ha hb =
    omega (
      arith,
      comm_below n (a / 2) (b / 2) (omega arith) (omega arith),
      xor_digit a b,
      xor_digit b a,
    )

pub xor_comm : (a b : ℕ) → bit_xor a b ≡ bit_xor b a
xor_comm a b = comm_below (a + b) a b (omega arith) (omega arith)

self_below : (n a : ℕ) → a ≤ n → bit_xor a a ≡ 0
self_below zero zero h = refl
self_below zero (suc a) h = absurd (omega arith)
self_below (suc n) a h = omega (arith, self_below n (a / 2) (omega arith), xor_digit a a)

pub xor_self : (a : ℕ) → bit_xor a a ≡ 0
xor_self a = self_below a a (omega arith)

-- `lo ^ (hi << k)` is a sum where `lo` has at most `k` digits.
pub xor_fields : (k lo hi : ℕ) → lo < 2 ^ k → bit_xor lo (hi * 2 ^ k) ≡ lo + hi * 2 ^ k
xor_fields zero zero hi h = xor_comm 0 (hi * 2 ^ 0) ∙ xor-zero (hi * 2 ^ 0) ∙ omega arith
xor_fields zero (suc lo) hi h = absurd (omega arith)
xor_fields (suc k) lo hi h =
    let e : 2 ^ suc k ≡ 2 * 2 ^ k = omega (arith, pow-suc 2 k) in
    let h2 : hi * 2 ^ suc k ≡ 2 * (hi * 2 ^ k) = omega (arith, ap (λ (t : ℕ). hi * t) e) in
    let half : hi * 2 ^ suc k / 2 ≡ hi * 2 ^ k = omega (arith, h2) in
    let here = xor_fields k (lo / 2) hi (omega (arith, e)) in
    let d = rw (half, here) at (xor_digit lo (hi * 2 ^ suc k)) in d ∙ omega (arith, h2)

pub xor_high : (k a b : ℕ) → bit_xor a b / 2 ^ k ≡ bit_xor (a / 2 ^ k) (b / 2 ^ k)
xor_high zero a b =
    let same : (t : ℕ) → t / 2 ^ 0 ≡ t = λ t. omega arith in rw (same (bit_xor a b), same a, same b)
xor_high (suc k) a b =
    let double : 2 ^ suc k ≡ 2 * 2 ^ k = omega (arith, pow-suc 2 k) in
    let split : (t : ℕ) → t / 2 ^ suc k ≡ t / 2 / 2 ^ k =
      λ t. ap (λ (d : ℕ). t / d) double ∙ sym (div-div-eq-div-mul t 2 (2 ^ k)) in
    split (bit_xor a b)
    ∙ ap (λ t. t / 2 ^ k) (xor_half a b)
    ∙ xor_high k (a / 2) (b / 2)
    ∙ ap (λ t. bit_xor t (b / 2 / 2 ^ k)) (sym (split a))
    ∙ ap (bit_xor (a / 2 ^ suc k)) (sym (split b))
