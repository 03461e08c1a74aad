-- ===== src/Common/Text.antt =====
-- Texts as lists of bytes.
use Prim.Native.Nat.{ℕ, ◌+◌, ◌-◌, ◌^◌}
use Prim.Native.Char.{code}
use Prim.Native.String.{String}
use mathlib.Core.Path.{◌≡◌, refl}
use mathlib.Core.Bool.{Bool, true, false, ◌&&◌}
use mathlib.Core.List.{List, [], ◌∷◌}
use native.Mathlib.Omega.{arith}
use otus_c_prog.Common.Tests.{◌==◌, ltb, if◌then◌else◌}

-- The code points of a text: its bytes, if it is ASCII.
abbrev pub codes : String → List ℕ
codes String.[] = []
codes (String.◌∷◌ c s) = code c ∷ codes s

-- A `char` that is widened to 64 bits without a sign: char is signed.
abbrev pub char_value : ℕ → ℕ
char_value c = if ltb c 128 then c else c + 2 ^ 64 - 256

-- `strcmp(a, b) == 0`
unfoldable pub same : List ℕ → List ℕ → Bool
same [] [] = true
same [] (y ∷ ys) = false
same (x ∷ xs) [] = false
same (x ∷ xs) (y ∷ ys) = let rest = same xs ys in (x == y) && rest

pub same_refl : (a : List ℕ) → same a a ≡ true
unfolding same
same_refl [] = refl
same_refl (x ∷ xs) = ground (arith, same_refl xs)

pub same-eq : (a b : List ℕ) → same a b ≡ true → a ≡ b
unfolding same
same-eq [] [] e = refl
same-eq [] (y ∷ ys) e = cc
same-eq (x ∷ xs) [] e = cc
same-eq (x ∷ xs) (y ∷ ys) e = ground (arith, same-eq xs ys)
