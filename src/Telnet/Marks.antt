-- ===== src/Telnet/Marks.antt =====
-- 21_telnet/main.c: where a mark is found in what was read.
use otus_c_prog.Common.{
  ℕ, ◌+◌, ◌≡◌, ◌≢◌, refl, ap, inl, inr, true, false, none, some, List, [], ◌∷◌, ◌++◌, length, arith,
  Bool-cases,
}
use otus_c_prog.Common.Text.{codes}
use otus_c_prog.Telnet.{begins, strstr}

-- The mark stands somewhere in the text.
abbrev pub Holds : List ℕ → List ℕ → Type 0
Holds mark s = (p : List ℕ) × (q : List ℕ) × (p ++ (mark ++ q) ≡ s)

abbrev pub NoZero : List ℕ → Type 0
NoZero [] = Unit
NoZero (c ∷ cs) = (c ≢ 0) × NoZero cs

begins-prefix : (mark s : List ℕ) → begins mark s ≡ true → (q : List ℕ) × (mark ++ q ≡ s)
unfolding begins
begins-prefix [] s h = (s, refl)
begins-prefix (m ∷ ms) [] h = cc
begins-prefix (m ∷ ms) (c ∷ cs) h =
    let (q, e) = begins-prefix ms cs (ground arith) in (q, ground arith)

begins-append : (mark q : List ℕ) → begins mark (mark ++ q) ≡ true
unfolding begins
begins-append [] q = refl
begins-append (m ∷ ms) q = ground (arith, begins-append ms q)

begins-not : (mark s : List ℕ) → ¬ Holds mark s → begins mark s ≡ false
begins-not mark s h = elim (Bool-cases (begins mark s)) [
  | inl e ↦ let (q, p) = begins-prefix mark s e in absurd (h ([], q, p))
  | inr e ↦ e
]

Holds-tail : (mark : List ℕ) (c : ℕ) (cs : List ℕ) → ¬ Holds mark (c ∷ cs) → ¬ Holds mark cs
Holds-tail mark c cs h (p, q, e) = h (c ∷ p, q, ap (λ t. c ∷ t) e)

pub strstr-none : (mark s : List ℕ) → ¬ Holds mark s → strstr mark s ≡ none
unfolding strstr
strstr-none mark [] h = refl
strstr-none mark (c ∷ cs) h =
    ground (arith, begins-not mark (c ∷ cs) h, strstr-none mark cs (Holds-tail mark c cs h))

-- A mark is found where no zero stands before it.
pub strstr-some :
    (m : ℕ) (mark a b : List ℕ)
    → m ≢ 0
    → NoZero a
    → (n : ℕ) × (strstr (m ∷ mark) (a ++ ((m ∷ mark) ++ b)) ≡ some n)
unfolding strstr
strstr-some m mark [] b h z = (0, ground (arith, begins-append (m ∷ mark) b))
strstr-some m mark (c ∷ a) b h z =
    let (n, e) = strstr-some m mark a b h z.1 in
    elim (Bool-cases (begins (m ∷ mark) (c ∷ (a ++ ((m ∷ mark) ++ b))))) [
      | inl here ↦ (0, ground (arith, z.0))
      | inr later ↦ (n + 1, ground (arith, z.0))
    ]

abbrev pub prompt : List ℕ
prompt = codes "\r\n."

-- The prompt does not begin inside a text that does not hold it.
begins-prompt :
    (c : ℕ) (cs b : List ℕ)
    → ¬ Holds prompt (c ∷ cs)
    → begins prompt (c ∷ (cs ++ (prompt ++ b))) ≡ false
unfolding begins
begins-prompt c [] b h = ground arith
begins-prompt c (d ∷ []) b h = ground arith
begins-prompt c (d ∷ (e ∷ r)) b h = ground (arith, begins-not prompt (c ∷ (d ∷ (e ∷ r))) h)

pub strstr-prompt :
    (a b : List ℕ)
    → NoZero a
    → ¬ Holds prompt a
    → strstr prompt (a ++ (prompt ++ b)) ≡ some (length a)
unfolding strstr
strstr-prompt [] b z h = ground (arith, begins-append prompt b)
strstr-prompt (c ∷ a) b z h =
    ground (arith, z.0, begins-prompt c a b h, strstr-prompt a b z.1 (Holds-tail prompt c a h))
