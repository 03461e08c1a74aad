-- ===== src/RingDriver/Copy.antt =====
-- 27_driver/ringbuf_driver.c: what the driver asks of the kernel's copy_from_user and
-- copy_to_user, and block writes into a buffer.
use otus_c_prog.Common.{
  ℕ, zero, suc, ◌+◌, ◌≤◌, ◌<◌, ◌≡◌, refl, ◌∙◌, ◌⊎◌, List, [], ◌∷◌, ◌++◌, ap, arith, length, get_or,
  set, take, length-set, get_or-set_self, get_or-set_ne,
}

-- The bytes of `xs` written one after the other from index `pos` on.
unfoldable pub blit : List ℕ → ℕ → List ℕ → List ℕ
blit d pos [] = d
blit d pos (x ∷ xs) = blit (set d pos x) (pos + 1) xs

pub length-blit : (d : List ℕ) (pos : ℕ) (xs : List ℕ) → length (blit d pos xs) ≡ length d
unfolding blit
length-blit d pos [] = refl
length-blit d pos (x ∷ xs) = length-blit (set d pos x) (pos + 1) xs ∙ length-set d pos x

pub blit-append :
    (d : List ℕ) (pos : ℕ) (xs ys : List ℕ)
    → blit d pos (xs ++ ys) ≡ blit (blit d pos xs) (pos + length xs) ys
unfolding blit
blit-append d pos [] ys = ap (λ i. blit d i ys) (omega arith)
blit-append d pos (x ∷ xs) ys =
    blit-append (set d pos x) (pos + 1) xs ys
    ∙ ap (λ i. blit (blit (set d pos x) (pos + 1) xs) i ys) (omega arith)

pub get_or-blit_before :
    (d : List ℕ) (pos : ℕ) (xs : List ℕ) (i : ℕ)
    → i < pos
    → get_or (blit d pos xs) i 0 ≡ get_or d i 0
unfolding blit
get_or-blit_before d pos [] i h = refl
get_or-blit_before d pos (x ∷ xs) i h =
    get_or-blit_before (set d pos x) (pos + 1) xs i (omega arith)
    ∙ get_or-set_ne d pos i x 0 (λ e. omega arith)

pub get_or-blit_after :
    (d : List ℕ) (pos : ℕ) (xs : List ℕ) (i : ℕ)
    → pos + length xs ≤ i
    → get_or (blit d pos xs) i 0 ≡ get_or d i 0
unfolding blit
get_or-blit_after d pos [] i h = refl
get_or-blit_after d pos (x ∷ xs) i h =
    get_or-blit_after (set d pos x) (pos + 1) xs i (omega arith)
    ∙ get_or-set_ne d pos i x 0 (λ e. omega arith)

pub get_or-blit_inside :
    (d : List ℕ) (pos : ℕ) (xs : List ℕ) (k : ℕ)
    → k < length xs
    → pos + length xs ≤ length d
    → get_or (blit d pos xs) (pos + k) 0 ≡ get_or xs k 0
unfolding blit
get_or-blit_inside d pos [] k h f = absurd (omega arith)
get_or-blit_inside d pos (x ∷ xs) zero h f =
    let e : pos + 0 ≡ pos = omega arith in
    rw e (
      get_or-blit_before (set d pos x) (pos + 1) xs pos (omega arith)
      ∙ get_or-set_self d pos x 0 (omega arith))
get_or-blit_inside d pos (x ∷ xs) (suc k) h f =
    let e : pos + suc k ≡ pos + 1 + k = omega arith in
    rw e (
      get_or-blit_inside (set d pos x) (pos + 1) xs k (omega arith)
        (omega (arith, length-set d pos x)))

-- The kernel's two copies between a buffer of the kernel and one of the caller, each given the
-- destination, the index to write at, the bytes at the source and their number, and returning how
-- many bytes were not copied, with the destination afterwards. Their documented behaviour: when
-- nothing is left over, the bytes stand at the index, and nothing else of the destination changes;
-- the destination keeps its size whatever happens.
pub record UserCopy : Type 0 where
  pub copy_from_user : List ℕ → ℕ → List ℕ → ℕ → ℕ × List ℕ
  pub copy_to_user : List ℕ → ℕ → List ℕ → ℕ → ℕ × List ℕ
  pub from_user_copies :
      (d : List ℕ) (pos : ℕ) (src : List ℕ) (n : ℕ)
      → (copy_from_user d pos src n).0 ≡ 0
      → (copy_from_user d pos src n).1 ≡ blit d pos (take n src)
  pub from_user_length :
      (d : List ℕ) (pos : ℕ) (src : List ℕ) (n : ℕ)
      → length (copy_from_user d pos src n).1 ≡ length d
  pub from_user_frame :
      (d : List ℕ) (pos : ℕ) (src : List ℕ) (n i : ℕ)
      → (i < pos) ⊎ (pos + n ≤ i)
      → get_or (copy_from_user d pos src n).1 i 0 ≡ get_or d i 0
  pub to_user_copies :
      (d : List ℕ) (pos : ℕ) (src : List ℕ) (n : ℕ)
      → (copy_to_user d pos src n).0 ≡ 0
      → (copy_to_user d pos src n).1 ≡ blit d pos (take n src)
