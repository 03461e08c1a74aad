-- ===== src/Common/Decimal.antt =====
-- Decimal numbers in texts: what `%d` writes of a number that is not negative, and what `strtol`
-- with the base 10 reads.
use Prim.Native.Nat.{ℕ, zero, suc, ◌+◌, ◌-◌, ◌*◌, ◌/◌, ◌%◌, ◌^◌, ◌≤◌, ◌<◌}
use mathlib.Core.List.{append_assoc}
use native.Mathlib.Nat.{pow-suc}
use mathlib.Core.Logic.{inl, inr}
use mathlib.Core.Path.{◌≡◌, refl, sym, ap, ◌∙◌}
use mathlib.Core.Bool.{Bool, true, false, ◌&&◌, ◌||◌}
use mathlib.Core.List.{List, [], ◌∷◌, ◌++◌}
use native.Mathlib.Omega.{arith}
use otus_c_prog.Common.Tests.{ltb, lt→ltb, leb, ◌==◌, if◌then◌else◌, Bool-cases}
use otus_c_prog.Common.Lists.{length, length-append}
use otus_c_prog.Common.Int.{ℤ, pos, negsuc}

-- The digits of `n`, where the fuel is above `n`.
unfoldable pub digits : ℕ → ℕ → List ℕ
digits zero n = []
digits (suc fuel) n =
    let front = digits fuel (n / 10) in
    if ltb n 10 then (b'0' + n) ∷ [] else front ++ ((b'0' + n % 10) ∷ [])

unfoldable pub decimal : ℕ → List ℕ
unfolding digits
decimal n = digits (suc n) n

unfoldable pub is_digit : ℕ → Bool
is_digit c = leb b'0' c && leb c b'9'

-- The number behind `acc` whose digits the text begins with, and the rest of the text.
unfoldable pub read_digits : ℕ → List ℕ → ℕ × List ℕ
unfolding is_digit
read_digits acc [] = (acc, [])
read_digits acc (c ∷ cs) =
    let more = read_digits (acc * 10 + (c - b'0')) cs in if is_digit c then more else (acc, c ∷ cs)

read_digits-digit :
    (acc d : ℕ) (s : List ℕ)
    → d < 10
    → read_digits acc ((b'0' + d) ∷ s) ≡ read_digits (acc * 10 + d) s
unfolding read_digits
read_digits-digit acc d s h =
    let t : is_digit (b'0' + d) ≡ true = digit d h in
    let e : b'0' + d - b'0' ≡ d = omega arith in rw (t, e)
  where
    digit : (d : ℕ) → d < 10 → is_digit (b'0' + d) ≡ true
    digit d h = ground arith

read_digits-digits :
    (fuel n : ℕ) (s : List ℕ) → n < fuel → read_digits 0 (digits fuel n ++ s) ≡ read_digits n s
unfolding digits
read_digits-digits zero n s h = absurd (omega arith)
read_digits-digits (suc fuel) n s h = elim (Bool-cases (ltb n 10)) [
  | inl small ↦
      let e : 0 * 10 + n ≡ n = omega arith in
      rw small (read_digits-digit 0 n s (ground arith) ∙ ap (λ k. read_digits k s) e)
  | inr large ↦
      let big : 10 ≤ n = ground arith in
      let last = (b'0' + n % 10) ∷ [] in
      let e : n / 10 * 10 + n % 10 ≡ n = omega arith in
      rw large (
        ap (λ t. read_digits 0 t) (append_assoc (digits fuel (n / 10)) last s)
        ∙ read_digits-digits fuel (n / 10) (last ++ s) (omega arith)
        ∙ read_digits-digit (n / 10) (n % 10) s (omega arith)
        ∙ ap (λ k. read_digits k s) e)
]

-- No digit follows.
abbrev pub Stops : List ℕ → Type 0
Stops [] = Unit
Stops (c ∷ cs) = is_digit c ≡ false

read_digits-stop : (n : ℕ) (rest : List ℕ) → Stops rest → read_digits n rest ≡ (n, rest)
unfolding read_digits
read_digits-stop n [] h = refl
read_digits-stop n (c ∷ cs) h = rw h

-- What is written is read back, up to what follows it.
pub read_digits-decimal :
    (n : ℕ) (rest : List ℕ) → Stops rest → read_digits 0 (decimal n ++ rest) ≡ (n, rest)
unfolding decimal
read_digits-decimal n rest h =
    read_digits-digits (suc n) n rest (omega arith) ∙ read_digits-stop n rest h

digits-ne-nil :
    (fuel n : ℕ) → n < fuel → (c : ℕ) × (s : List ℕ) × (digits fuel n ≡ c ∷ s) × (is_digit c ≡ true)
unfolding digits is_digit
digits-ne-nil zero n h = absurd (omega arith)
digits-ne-nil (suc fuel) n h = elim (Bool-cases (ltb n 10)) [
  | inl small ↦ (b'0' + n, [], rw small, ground arith)
  | inr large ↦
      let (c, s, e, d) = digits-ne-nil fuel (n / 10) (ground arith) in
      (c, s ++ ((b'0' + n % 10) ∷ []), rw (large, e), d)
]

-- What is written begins with a digit.
pub decimal_head : (n : ℕ) → (c : ℕ) × (s : List ℕ) × (decimal n ≡ c ∷ s) × (is_digit c ≡ true)
unfolding decimal
decimal_head n = digits-ne-nil (suc n) n (omega arith)

-- All bytes are digits.
abbrev pub AllDigits : List ℕ → Type 0
AllDigits [] = Unit
AllDigits (c ∷ cs) = (is_digit c ≡ true) × AllDigits cs

AllDigits-append : (a b : List ℕ) → AllDigits a → AllDigits b → AllDigits (a ++ b)
AllDigits-append [] b ha hb = hb
AllDigits-append (c ∷ a) b ha hb = (ha.0, AllDigits-append a b ha.1 hb)

digit-last : (d : ℕ) → d < 10 → AllDigits ((b'0' + d) ∷ [])
unfolding is_digit
digit-last d h = (ground arith, tt)

digits-AllDigits : (fuel n : ℕ) → AllDigits (digits fuel n)
unfolding digits
digits-AllDigits zero n = tt
digits-AllDigits (suc fuel) n = elim (Bool-cases (ltb n 10)) [
  | inl small ↦ rw small (digit-last n (ground arith))
  | inr large ↦ rw large (
      AllDigits-append (digits fuel (n / 10)) ((b'0' + n % 10) ∷ [])
        (digits-AllDigits fuel (n / 10)) (digit-last (n % 10) (omega arith)))
]

pub decimal-AllDigits : (n : ℕ) → AllDigits (decimal n)
unfolding decimal
decimal-AllDigits n = digits-AllDigits (suc n) n

length-digits : (fuel n k : ℕ) → n < fuel → n < 10 ^ suc k → length (digits fuel n) ≤ suc k
unfolding digits
length-digits zero n k h small = absurd (omega arith)
length-digits (suc fuel) n zero h small =
    let t : ltb n 10 ≡ true = lt→ltb n 10 small in rw t (omega arith)
length-digits (suc fuel) n (suc k) h small = elim (Bool-cases (ltb n 10)) [
  | inl one ↦ rw one (omega arith)
  | inr more ↦
      let part : n / 10 < 10 ^ suc k = omega (arith, pow-suc 10 (suc k)) in
      rw more (
        omega (
          arith,
          length-append (digits fuel (n / 10)) ((b'0' + n % 10) ∷ []),
          length-digits fuel (n / 10) k (ground arith) part,
        ))
]

-- A number below 10^k has at most k digits, for k above zero.
pub length-decimal : (n k : ℕ) → n < 10 ^ suc k → length (decimal n) ≤ suc k
unfolding decimal
length-decimal n k h = length-digits (suc n) n k (omega arith) h

-- Whether a byte is white space to strtol.
unfoldable pub is_space : ℕ → Bool
is_space c = c == b' ' || (leb 9 c && leb c 13)

unfoldable pub skip_space : List ℕ → List ℕ
unfolding is_space
skip_space [] = []
skip_space (c ∷ cs) = let later = skip_space cs in if is_space c then later else c ∷ cs

-- What strtol gives: its value, whether it is in the range of `long` (errno is ERANGE otherwise),
-- whether `endptr` is not the text itself, and the text at `endptr`.
pub record Number : Type 0 where
  pub value : ℤ
  pub in_range : Bool
  pub found : Bool
  pub rest : List ℕ

abbrev long_top : ℕ
long_top = 2 ^ 63

unfoldable pub signed_number : Bool → ℕ × List ℕ → Number
signed_number false (n, rest) = record {
  value = pos (if ltb n long_top then n else long_top - 1);
  in_range = ltb n long_top;
  found = true;
  rest = rest;
}
signed_number true (n, rest) = record {
  value = if n == 0 then pos 0 else negsuc ((if leb n long_top then n else long_top) - 1);
  in_range = leb n long_top;
  found = true;
  rest = rest;
}

-- The digits after white space and a sign, or nothing found in the text `whole`.
unfoldable pub number_at : List ℕ → Bool → List ℕ → Number
unfolding is_digit read_digits signed_number
number_at whole negative [] = record { value = pos 0; in_range = true; found = false; rest = whole }
number_at whole negative (c ∷ cs) =
    if is_digit c
    then signed_number negative (read_digits 0 (c ∷ cs))
    else record { value = pos 0; in_range = true; found = false; rest = whole }

unfoldable pub after_sign : List ℕ → List ℕ → Number
unfolding number_at
after_sign whole [] = number_at whole false []
after_sign whole (c ∷ cs) =
    if c == b'-'
    then number_at whole true cs
    else if c == b'+'
    then number_at whole false cs
    else number_at whole false (c ∷ cs)

-- strtol(s, &endptr, 10)
unfoldable pub strtol : List ℕ → Number
unfolding skip_space after_sign
strtol s = after_sign s (skip_space s)

strtol-digit :
    (d : ℕ) (t : List ℕ)
    → is_digit d ≡ true
    → strtol (d ∷ t) ≡ signed_number false (read_digits 0 (d ∷ t))
unfolding strtol
strtol-digit d t h =
    let no_space : is_space d ≡ false = unfold is_space is_digit in ground arith in
    let no_minus : (d == b'-') ≡ false = unfold is_digit in ground arith in
    let no_plus : (d == b'+') ≡ false = unfold is_digit in ground arith in
    rw (no_space, no_minus, no_plus, h)

-- strtol reads a number that was written back, up to what follows it.
pub strtol-decimal :
    (n : ℕ) (rest : List ℕ)
    → n < 2 ^ 63
    → Stops rest
    → strtol (decimal n ++ rest)
      ≡ record { value = pos n; in_range = true; found = true; rest = rest }
strtol-decimal n rest h e =
    let (d, ds, whole, first) = decimal_head n in
    let split : decimal n ++ rest ≡ d ∷ (ds ++ rest) = ap (λ t. t ++ rest) whole in
    ap strtol split
    ∙ strtol-digit d (ds ++ rest) first
    ∙ ap (λ t. signed_number false (read_digits 0 t)) (sym split)
    ∙ ap (signed_number false) (read_digits-decimal n rest e)
    ∙ small n rest h
  where
    small :
        (n : ℕ) (rest : List ℕ)
        → n < 2 ^ 63
        → signed_number false (n, rest)
          ≡ record { value = pos n; in_range = true; found = true; rest = rest }
    small n rest h =
        let t : ltb n long_top ≡ true = lt→ltb n long_top h in unfold signed_number in rw t
