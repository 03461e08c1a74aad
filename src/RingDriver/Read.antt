-- ===== src/RingDriver/Read.antt =====
-- 27_driver/ringbuf_driver.c: ringbuf_peek and ringbuf_discard.
use native.Mathlib.Nat.{mod-eq_of_lt}
use otus_c_prog.Common.{
  ℕ, ◌+◌, ◌-◌, ◌%◌, ◌≤◌, ◌<◌, ◌≡◌, ◌≢◌, refl, sym, ◌∙◌, ap, List, ◌++◌, some, arith, length, get_or,
  take, drop, min, sub_size, ◌⊎◌, inl, inr, ◌==◌, ==_iff, Bool, ◌||◌, true, false, Bool-cases,
  length-take, length-drop, ltb, get_or-drop,
}
use mathlib.Core.List.{append-nil}
use native.Mathlib.Decide.{ℕ_discrete}
use otus_c_prog.RingDriver.{
  RingBuffer, peek_at, ringbuf_peek, ringbuf_empty, discard_at, ringbuf_discard, drop_oldest,
}
use otus_c_prog.RingDriver.Copy.{UserCopy, blit, blit-append}
use otus_c_prog.RingDriver.Window.{at, slice, slice-eq, slice-append, take-slice, mod_once}
use otus_c_prog.RingDriver.Inv.{
  IsValid, contents_of, contents, contents_lem, drop_oldest-IsValid, drop_oldest-contents,
}

or_true : (b : Bool) → (b || true) ≡ true
or_true true = refl
or_true false = refl

-- No copy to the caller ever leaves a byte over.
abbrev pub AlwaysDelivers : UserCopy → Type 0
AlwaysDelivers k =
    (d : List ℕ) (pos : ℕ) (src : List ℕ) (n : ℕ) → (k.copy_to_user d pos src n).0 ≡ 0

module _ {rb : RingBuffer} {d : List ℕ} (v : IsValid rb d) (n : ℕ) (le : n ≤ rb.count) where
  abbrev head_part : ℕ
  head_part = min n (rb.size - rb.read_pos)

  front : slice (at d rb.size) rb.read_pos head_part ≡ take head_part (drop rb.read_pos d)
  front =
      slice-eq (at d rb.size) rb.read_pos head_part (drop rb.read_pos d)
        (omega (arith, length-drop rb.read_pos d, v.width))
        (λ j lt.
          ap (λ i. get_or d i 0) (mod-eq_of_lt {n = rb.read_pos + j} {m = rb.size} (omega arith))
          ∙ sym (get_or-drop rb.read_pos d j 0))

  back : slice (at d rb.size) (rb.read_pos + head_part) (n - head_part) ≡ take (n - head_part) d
  back =
      slice-eq (at d rb.size) (rb.read_pos + head_part) (n - head_part) d
        (omega (arith, v.width, v.count_in)) (λ j lt. ap (λ i. get_or d i 0) (turned j lt))
    where
      turned : (j : ℕ) → j < n - head_part → (rb.read_pos + head_part + j) % rb.size ≡ j
      turned j lt =
          let e : rb.read_pos + head_part + j ≡ rb.read_pos + (rb.size - rb.read_pos + j) =
            omega arith in
          rw e
            (elim (mod_once rb.size rb.read_pos (rb.size - rb.read_pos + j) v.read_in
              (omega (arith, v.count_in, v.read_in))) [
                | inl (p, q) ↦ absurd (omega (arith, v.read_in))
                | inr (p, q) ↦ omega (arith, q, v.read_in)
              ])

  -- The two pieces that ringbuf_peek copies are the oldest `n` bytes.
  pub pieces :
      take head_part (drop rb.read_pos d) ++ take (n - head_part) d ≡ take n (contents_of rb d)
  pieces =
      rw (← front, ← back)
        (sym (slice-append (at d rb.size) rb.read_pos head_part (n - head_part))
          ∙ ap (slice (at d rb.size) rb.read_pos) (omega arith)
          ∙ sym (take-slice (at d rb.size) rb.read_pos rb.count n le))

-- What ringbuf_peek has done for a caller whose buffer was `ubuf`.
pub record Peeked (k : UserCopy) (n : ℕ) (old ubuf : List ℕ) (r : ℕ × List ℕ) : Type 0 where
  pub effect : ((r.0 ≡ n) × (r.1 ≡ blit ubuf 0 (take n old))) ⊎ ((r.0 ≡ 0) × (AlwaysDelivers k → ⊥))

module _ (k : UserCopy) {rb : RingBuffer} {d : List ℕ} (v : IsValid rb d) (n : ℕ)
    (le : n ≤ rb.count) (ubuf : List ℕ) where
  part1 : ℕ
  part1 = min n (rb.size - rb.read_pos)

  first : ℕ × List ℕ
  first = k.copy_to_user ubuf 0 (drop rb.read_pos d) part1

  second : ℕ × List ℕ
  second = k.copy_to_user first.1 part1 d (n - part1)

  second-eq :
      first.0 ≡ 0
      → second.1 ≡ blit first.1 part1 (take (n - part1) d)
      → second.1 ≡ blit ubuf 0 (take n (contents_of rb d))
  unfolding first part1
  second-eq ok₁ e =
      let one = take part1 (drop rb.read_pos d) in
      let two = take (n - part1) d in
      let len : part1 ≡ 0 + length one =
        omega (arith, length-take part1 (drop rb.read_pos d), length-drop rb.read_pos d, v.width) in
      e
      ∙ ap (λ t. blit t part1 two) (k.to_user_copies ubuf 0 (drop rb.read_pos d) part1 ok₁)
      ∙ ap (λ i. blit (blit ubuf 0 one) i two) len
      ∙ sym (blit-append ubuf 0 one two)
      ∙ ap (blit ubuf 0) (pieces v n le)

  whole : n - part1 ≡ 0 → first.0 ≡ 0 → first.1 ≡ blit ubuf 0 (take n (contents_of rb d))
  unfolding first part1
  whole e ok =
      let one = take part1 (drop rb.read_pos d) in
      let joined : one ≡ take n (contents_of rb d) =
        sym (append-nil one) ∙ (rw e at (pieces v n le)) in
      k.to_user_copies ubuf 0 (drop rb.read_pos d) part1 ok ∙ ap (blit ubuf 0) joined

  -- The call on an allocation, when there is something to read.
  peeked :
      n ≢ 0
      → (len : ℕ) → min len rb.count ≡ n
      → Peeked k n (contents_of rb d) ubuf (peek_at k (some d) rb ubuf len)
  unfolding peek_at ringbuf_empty first second part1
  peeked ne len is =
      let p = part1 in
      let e : sub_size rb.size rb.read_pos ≡ rb.size - rb.read_pos =
        omega (arith, v.read_in, v.high) in
      let left : sub_size n p ≡ n - p = omega (arith, v.count_in, v.high) in
      let some_used : (rb.count == 0) ≡ false = ground arith in
      let some_asked : (n == 0) ≡ false = ground arith in
      rw (is, e, left, some_used, some_asked)
        (elim (Bool-cases (first.0 == 0)) [
          | inr e₁ ↦ rw e₁ (record {
            effect = inr (refl, λ all. ground (arith, all ubuf 0 (drop rb.read_pos d) p));
          })
          | inl e₁ ↦
              let ok₁ = (==_iff first.0 0).0 e₁ in
              elim (Bool-cases (n - p == 0)) [
                | inl z ↦
                    rw (e₁, z) (record { effect = inl (refl, whole ((==_iff (n - p) 0).0 z) ok₁) })
                | inr z ↦ elim (Bool-cases (second.0 == 0)) [
                  | inr e₂ ↦
                      rw (e₁, z, e₂)
                        (record {
                          effect = inr (refl, λ all. ground (arith, all first.1 p d (n - p)));
                        })
                  | inl e₂ ↦
                      let ok₂ = (==_iff second.0 0).0 e₂ in
                      rw (e₁, z, e₂)
                        (record {
                          effect =
                              inl (refl, second-eq ok₁ (k.to_user_copies first.1 p d (n - p) ok₂));
                        })
                ]
              ]
        ])

module _ (k : UserCopy) {rb : RingBuffer} {d : List ℕ} (v : IsValid rb d) (ubuf : List ℕ)
    (len : ℕ) where
  -- ringbuf_peek on a valid buffer.
  pub ringbuf_peek-Peeked :
      Peeked k (min len rb.count) (contents rb) ubuf (ringbuf_peek k rb ubuf len)
  unfolding ringbuf_peek
  ringbuf_peek-Peeked =
      let e : ringbuf_peek k rb ubuf len ≡ peek_at k (some d) rb ubuf len =
        ap (λ o. peek_at k o rb ubuf len) v.stored in
      rw (contents_lem v, e)
        (elim (ℕ_discrete (min len rb.count) 0) [
          | no ne ↦ peeked k v (min len rb.count) (omega arith) ubuf ne len refl
          | yes z ↦ rw z (nothing z)
        ])
    where
      nothing :
          min len rb.count ≡ 0 → Peeked k 0 (contents_of rb d) ubuf (peek_at k (some d) rb ubuf len)
      nothing z =
          let empty_request : (min len rb.count == 0) ≡ true = ground arith in
          unfold peek_at blit in rw (empty_request, or_true) (record { effect = inl (refl, refl) })

module _ {rb : RingBuffer} {d : List ℕ} (v : IsValid rb d) (len : ℕ) where
  -- ringbuf_discard of bytes that are there.
  pub ringbuf_discard_lem :
      len ≤ rb.count
      → IsValid (ringbuf_discard rb len) d
        × (contents (ringbuf_discard rb len) ≡ drop len (contents rb))
  unfolding ringbuf_discard discard_at
  ringbuf_discard_lem le =
      let in_use : ltb rb.count len ≡ false = ground arith in
      let e : ringbuf_discard rb len ≡ drop_oldest rb len =
        ap (λ o. discard_at o rb len) v.stored ∙ rw in_use in
      let valid = drop_oldest-IsValid v len le in
      rw (e, contents_lem v) (valid, contents_lem valid ∙ drop_oldest-contents v len le)
