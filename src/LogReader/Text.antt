-- ===== src/LogReader/Text.antt =====
-- 17_log_reader/main.c: the functions on C strings that the program calls.
use otus_c_prog.Common.{
  ℕ, ◌==◌, ◌≡◌, refl, sym, leb, ◌&&◌, not, Bool, true, false, if◌then◌else◌, List, [], ◌∷◌, ◌++◌,
  Option, none, some, arith,
}
use mathlib.Core.Bool.{true≢false}

-- `strchr(s, c)`: what is left of the string from the character on.
unfoldable pub strchr : List ℕ → ℕ → Option (List ℕ)
strchr [] c = none
strchr (x ∷ s) c = let rest = strchr s c in if x == c then some (x ∷ s) else rest

-- The characters before the first `c`.
unfoldable pub before : List ℕ → ℕ → List ℕ
before [] c = []
before (x ∷ s) c = let rest = before s c in if x == c then [] else x ∷ rest

-- No character of the text is `c`.
unfoldable pub free_of : ℕ → List ℕ → Bool
free_of c [] = true
free_of c (x ∷ s) = let rest = free_of c s in not (x == c) && rest

pub strchr-++ :
    (a : List ℕ) (c : ℕ) (s : List ℕ) → free_of c a ≡ true → strchr (a ++ c ∷ s) c ≡ some (c ∷ s)
unfolding strchr free_of
strchr-++ [] c s h = ground arith
strchr-++ (x ∷ a) c s h =
    let ne : (x == c) ≡ false = ground arith in
    let later : free_of c a ≡ true = ground arith in rw (ne, strchr-++ a c s later)

pub before-++ : (a : List ℕ) (c : ℕ) (s : List ℕ) → free_of c a ≡ true → before (a ++ c ∷ s) c ≡ a
unfolding before free_of
before-++ [] c s h = ground arith
before-++ (x ∷ a) c s h =
    let ne : (x == c) ≡ false = ground arith in
    let later : free_of c a ≡ true = ground arith in rw (ne, before-++ a c s later)

-- `skip_spaces`
unfoldable pub skip_spaces : List ℕ → List ℕ
skip_spaces [] = []
skip_spaces (x ∷ s) = let rest = skip_spaces s in if x == 32 then rest else x ∷ s

abbrev pub isdigit : ℕ → Bool
isdigit c = leb 48 c && leb c 57

-- `isdigit(*p)`, where the closing zero is no digit.
unfoldable pub starts_digit : List ℕ → Bool
starts_digit [] = false
starts_digit (x ∷ s) = isdigit x

infixl 5 ◌>>=◌
abbrev pub ◌>>=◌ {ℓ κ} : {A : Type ℓ} {B : Type κ} → Option A → (A → Option B) → Option B
none >>= f = none
some a >>= f = f a

-- `p++`
abbrev pub next : List ℕ → List ℕ
next [] = []
next (x ∷ s) = s

pub strchr-skip :
    (a : List ℕ) (c : ℕ) (s : List ℕ) → free_of c a ≡ true → strchr (a ++ s) c ≡ strchr s c
unfolding strchr free_of
strchr-skip [] c s h = refl
strchr-skip (x ∷ a) c s h =
    let ne : (x == c) ≡ false = ground arith in
    let later : free_of c a ≡ true = ground arith in rw (ne, strchr-skip a c s later)

pub skip_spaces-digit : (a s : List ℕ) → starts_digit a ≡ true → skip_spaces (a ++ s) ≡ a ++ s
unfolding skip_spaces starts_digit
skip_spaces-digit [] s h = absurd (true≢false (sym h))
skip_spaces-digit (x ∷ a) s h = let ne : (x == 32) ≡ false = ground arith in rw ne

pub starts_digit-++ : (a s : List ℕ) → starts_digit a ≡ true → starts_digit (a ++ s) ≡ true
unfolding starts_digit
starts_digit-++ [] s h = absurd (true≢false (sym h))
starts_digit-++ (x ∷ a) s h = h
