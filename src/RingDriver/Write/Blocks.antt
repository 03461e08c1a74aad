-- ===== src/RingDriver/Write/Blocks.antt =====
-- 27_driver/ringbuf_driver.c: the one or two blocks that ringbuf_write copies into the buffer.
use native.Mathlib.Nat.{mod-add-mod}
use otus_c_prog.Common.{
  ℕ, ◌+◌, ◌-◌, ◌%◌, ◌≤◌, ◌<◌, ◌≡◌, sym, ◌∙◌, ap, List, arith, length, get_or, take, drop, min, ◌⊎◌,
  inl, inr, length-take, length-drop, get_or-take, get_or-drop,
}
use otus_c_prog.RingDriver.{RingBuffer}
use otus_c_prog.RingDriver.Copy.{UserCopy, blit, get_or-blit_inside}
use otus_c_prog.RingDriver.Window.{at, mod_once}
use otus_c_prog.RingDriver.Inv.{IsValid, write_in}

-- `n` bytes can be copied in behind the window of a valid buffer.
pub record Fits (rb : RingBuffer) (d : List ℕ) (n : ℕ) : Type 0 where
  pub valid : IsValid rb d
  pub room : rb.count + n ≤ rb.size

-- Every byte of `d'` outside the `n` positions from the writing end on is as in `d`.
abbrev pub Untouched : RingBuffer → ℕ → List ℕ → List ℕ → Type 0
Untouched rb n d d' =
    (length d' ≡ length d)
    × ((k : ℕ) → k < rb.count → at d' rb.size (rb.read_pos + k) ≡ at d rb.size (rb.read_pos + k))

-- The allocation `d'` holds the window of `d`, followed by `n` bytes of the source.
pub record Written (rb : RingBuffer) (d : List ℕ) (n : ℕ) (src d' : List ℕ) : Type 0 where
  pub keeps : Untouched rb n d d'
  pub new : (j : ℕ) → j < n → at d' rb.size (rb.read_pos + rb.count + j) ≡ get_or src j 0

-- Where the window's bytes and the free positions stand.
used_index :
    (rb : RingBuffer) (n k : ℕ) (a b : ℕ)
    → rb.read_pos < rb.size
    → rb.count + n ≤ rb.size
    → k < rb.count
    → ((rb.read_pos + k < rb.size) × (a ≡ rb.read_pos + k))
      ⊎ ((rb.size ≤ rb.read_pos + k) × (a ≡ rb.read_pos + k - rb.size))
    → ((rb.read_pos + rb.count < rb.size) × (b ≡ rb.read_pos + rb.count))
      ⊎ ((rb.size ≤ rb.read_pos + rb.count) × (b ≡ rb.read_pos + rb.count - rb.size))
    → ((a < b) ⊎ (b + min n (rb.size - b) ≤ a)) × (n - min n (rb.size - b) ≤ a)
used_index rb n k a b r f lt ca cb = grind arith

abbrev get_or_at : List ℕ → ℕ → ℕ
get_or_at xs i = get_or xs i 0

module _ (k : UserCopy) {rb : RingBuffer} {d : List ℕ} {n : ℕ} (f : Fits rb d n)
    (src : List ℕ) where
  unfoldable pub part1 : ℕ
  part1 = min n (rb.size - rb.write_pos)

  unfoldable pub first : List ℕ
  first = (k.copy_from_user d rb.write_pos src part1).1

  unfoldable pub second : List ℕ
  second = (k.copy_from_user first 0 (drop part1 src) (n - part1)).1

  apart :
      (i : ℕ)
      → i < rb.count
      → let a = (rb.read_pos + i) % rb.size in
        ((a < rb.write_pos) ⊎ (rb.write_pos + part1 ≤ a)) × (n - part1 ≤ a)
  unfolding part1
  apart i lt =
      used_index rb n i ((rb.read_pos + i) % rb.size) rb.write_pos f.valid.read_in f.room lt
        (mod_once rb.size rb.read_pos i f.valid.read_in (omega arith))
        (rw f.valid.write_end
          (mod_once rb.size rb.read_pos rb.count f.valid.read_in f.valid.count_in))

  pub first-Untouched : Untouched rb n d first
  unfolding first
  first-Untouched = (
    k.from_user_length d rb.write_pos src part1,
    λ i lt. k.from_user_frame d rb.write_pos src part1 _ (apart i lt).0,
  )

  pub second-Untouched : Untouched rb n d second
  unfolding second
  second-Untouched = (
    k.from_user_length first 0 (drop part1 src) (n - part1) ∙ first-Untouched.0,
    λ i lt.
        k.from_user_frame first 0 (drop part1 src) (n - part1) _
          (inr (omega (arith, (apart i lt).1)))
        ∙ first-Untouched.1 i lt,
  )

  -- The bytes of the two blocks, once both copies have succeeded.
  module _ (long : n ≤ length src) (ok₁ : (k.copy_from_user d rb.write_pos src part1).0 ≡ 0) where
    first-new : (j : ℕ) → j < part1 → get_or first (rb.write_pos + j) 0 ≡ get_or src j 0
    unfolding first part1
    first-new j lt = rw (k.from_user_copies d rb.write_pos src part1 ok₁) (
        get_or-blit_inside d rb.write_pos (take part1 src) j (omega (arith, length-take part1 src))
          (omega (arith, length-take part1 src, write_in f.valid, f.valid.width))
        ∙ get_or-take part1 src j 0 lt)

    second-keeps : (j : ℕ) → j < part1 → get_or second (rb.write_pos + j) 0 ≡ get_or src j 0
    unfolding second part1
    second-keeps j lt =
        k.from_user_frame first 0 (drop part1 src) (n - part1) (rb.write_pos + j)
          (inr (omega (arith, f.room, write_in f.valid)))
        ∙ first-new j lt

    second-new_low :
        (k.copy_from_user first 0 (drop part1 src) (n - part1)).0 ≡ 0
        → (j : ℕ) → j < n - part1
        → get_or second j 0 ≡ get_or src (part1 + j) 0
    unfolding second
    second-new_low ok₂ j lt =
        let e : j ≡ 0 + j = omega arith in
        let copied = k.from_user_copies first 0 (drop part1 src) (n - part1) ok₂ in
        let len = length-take (n - part1) (drop part1 src) in
        rw copied (
          ap (get_or_at (blit first 0 (take (n - part1) (drop part1 src)))) e
          ∙ get_or-blit_inside first 0 (take (n - part1) (drop part1 src)) j
              (omega (arith, len, length-drop part1 src))
              (omega (arith, len, length-drop part1 src, first-Untouched.0, f.valid.width, f.room))
          ∙ get_or-take (n - part1) (drop part1 src) j 0 lt
          ∙ get_or-drop part1 src j 0)

    -- What the two blocks together have done to the allocation.
    new_at :
        (d' : List ℕ) (j : ℕ)
        → j < n
        → (j < part1 → get_or d' (rb.write_pos + j) 0 ≡ get_or src j 0)
        → (part1 ≤ j → get_or d' (j - part1) 0 ≡ get_or src j 0)
        → at d' rb.size (rb.read_pos + rb.count + j) ≡ get_or src j 0
    unfolding part1
    new_at d' j lt low high =
        let turn = mod-add-mod (rb.read_pos + rb.count) rb.size j in
        let from_end : (rb.read_pos + rb.count + j) % rb.size ≡ (rb.write_pos + j) % rb.size =
          rw f.valid.write_end (sym turn) in
        rw from_end
          (elim (mod_once rb.size rb.write_pos j (write_in f.valid) (omega (arith, f.room))) [
            | inl (inside, e) ↦ rw e (low (omega arith))
            | inr (past, e) ↦
                rw e (ap (get_or_at d') (omega (arith, write_in f.valid)) ∙ high (omega arith))
          ])

    pub first-Written : n - part1 ≡ 0 → Written rb d n src first
    first-Written e = record {
      keeps = first-Untouched;
      new = λ j lt. new_at first j lt (first-new j) (λ h. absurd (omega arith));
    }

    pub second-Written :
        (k.copy_from_user first 0 (drop part1 src) (n - part1)).0 ≡ 0 → Written rb d n src second
    second-Written ok₂ = record {
      keeps = second-Untouched;
      new = λ j lt.
          new_at second j lt (second-keeps j)
            (λ h. second-new_low ok₂ (j - part1) (omega arith) ∙ ap (get_or_at src) (omega arith));
    }
