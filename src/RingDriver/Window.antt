-- ===== src/RingDriver/Window.antt =====
-- 27_driver/ringbuf_driver.c: a circular window of a buffer as a list, oldest byte first.
use native.Mathlib.Nat.{mod-add-mod, mod-eq_of_lt, mod-eq-sub-mod}
use native.Mathlib.Decide.{dec_lt}
use otus_c_prog.Common.{
  ℕ, zero, suc, ◌+◌, ◌-◌, ◌%◌, ◌≤◌, ◌<◌, ◌≡◌, refl, ◌∙◌, ap, List, [], ◌∷◌, ◌++◌, arith, length,
  get_or, take, drop, ◌⊎◌, inl, inr,
}

-- The byte at position `i` of the endless repetition of the buffer.
abbrev pub at : List ℕ → ℕ → ℕ → ℕ
at d size i = get_or d (i % size) 0

unfoldable pub slice : (ℕ → ℕ) → ℕ → ℕ → List ℕ
slice f h zero = []
slice f h (suc n) = f h ∷ slice f (h + 1) n

pub length-slice : (f : ℕ → ℕ) (h n : ℕ) → length (slice f h n) ≡ n
unfolding slice
length-slice f h zero = refl
length-slice f h (suc n) = ap suc (length-slice f (h + 1) n)

pub slice_shift :
    (f g : ℕ → ℕ) (h j n : ℕ)
    → ((k : ℕ) → k < n → f (h + k) ≡ g (j + k))
    → slice f h n ≡ slice g j n
unfolding slice
slice_shift f g h j zero e = refl
slice_shift f g h j (suc n) e =
    let here : f h ≡ g j = (ap f (omega arith) ∙ e 0 (omega arith)) ∙ ap g (omega arith) in
    let rest =
      slice_shift f g (h + 1) (j + 1) n
        (λ k lt. (ap f (omega arith) ∙ e (suc k) (omega arith)) ∙ ap g (omega arith)) in
    rw (here, rest)

pub slice-eq :
    (f : ℕ → ℕ) (h n : ℕ) (xs : List ℕ)
    → n ≤ length xs
    → ((k : ℕ) → k < n → f (h + k) ≡ get_or xs k 0)
    → slice f h n ≡ take n xs
unfolding slice
slice-eq f h zero xs b e = refl
slice-eq f h (suc n) [] b e = absurd (omega arith)
slice-eq f h (suc n) (x ∷ xs) b e =
    let here : f h ≡ x = ap f (omega arith) ∙ e 0 (omega arith) in
    let rest =
      slice-eq f (h + 1) n xs (omega arith)
        (λ k lt. ap f (omega arith) ∙ e (suc k) (omega arith)) in
    rw (here, rest)

pub slice-append : (f : ℕ → ℕ) (h m n : ℕ) → slice f h (m + n) ≡ slice f h m ++ slice f (h + m) n
unfolding slice
slice-append f h zero n =
    let e : zero + n ≡ n = omega arith in let e' : h + zero ≡ h = omega arith in rw (e, e')
slice-append f h (suc m) n =
    let e : suc m + n ≡ suc (m + n) = omega arith in
    let e' : h + suc m ≡ h + 1 + m = omega arith in
    rw (e, e') (ap (λ t. f h ∷ t) (slice-append f (h + 1) m n))

pub drop-slice : (f : ℕ → ℕ) (h n m : ℕ) → drop m (slice f h n) ≡ slice f (h + m) (n - m)
unfolding slice
drop-slice f h n zero =
    let e : n - zero ≡ n = omega arith in let e' : h + zero ≡ h = omega arith in rw (e, e')
drop-slice f h zero (suc m) = let e : zero - suc m ≡ zero = omega arith in rw e
drop-slice f h (suc n) (suc m) =
    let e : suc n - suc m ≡ n - m = omega arith in
    let e' : h + suc m ≡ h + 1 + m = omega arith in rw (e, e') (drop-slice f (h + 1) n m)

pub take-slice : (f : ℕ → ℕ) (h n m : ℕ) → m ≤ n → take m (slice f h n) ≡ slice f h m
unfolding slice
take-slice f h n zero le = refl
take-slice f h zero (suc m) le = absurd (omega arith)
take-slice f h (suc n) (suc m) le = ap (λ t. f h ∷ t) (take-slice f (h + 1) n m (omega arith))

-- A position less than one turn past an index of the buffer.
pub mod_once :
    (size h k : ℕ)
    → h < size
    → k ≤ size
    → ((h + k < size) × ((h + k) % size ≡ h + k))
      ⊎ ((size ≤ h + k) × ((h + k) % size ≡ h + k - size))
mod_once size h k lt le = elim (dec_lt (h + k) size) [
  | yes p ↦ inl (p, mod-eq_of_lt p)
  | no p ↦ inr (
    omega arith,
    mod-eq-sub-mod {n = h + k} {m = size} (omega arith)
        ∙ mod-eq_of_lt {n = h + k - size} {m = size} (omega arith),
  )
]

-- Reducing where a window begins does not change it.
pub slice-mod : (d : List ℕ) (size h n : ℕ) → slice (at d size) (h % size) n ≡ slice (at d size) h n
slice-mod d size h n =
    slice_shift (at d size) (at d size) (h % size) h n
      (λ k lt. ap (λ i. get_or d i 0) (mod-add-mod h size k))
