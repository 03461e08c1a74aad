-- ===== src/RingDriver/Overwrite.antt =====
-- 27_driver/ringbuf_driver.c: ringbuf_write as the driver's clients see it.
use otus_c_prog.Common.{
  ℕ, ◌+◌, ◌-◌, ◌^◌, ◌≤◌, ◌<◌, ◌≡◌, ◌≢◌, refl, ◌∙◌, ap, List, ◌++◌, some, arith, length, take, drop,
  min, sub_size, ◌⊎◌, inl, inr, ◌==◌, false, Bool-cases, length-drop, ltb,
}
use mathlib.Core.List.{append-nil}
use mathlib.Core.Path.{subst₂}
use native.Mathlib.Decide.{ℕ_discrete}
use otus_c_prog.RingDriver.{RingBuffer, make_room, clip_source, copy_in, write_at, ringbuf_write}
use otus_c_prog.RingDriver.Copy.{UserCopy}
use otus_c_prog.RingDriver.Window.{at, length-slice}
use otus_c_prog.RingDriver.Inv.{IsValid, contents_of, contents, contents_lem}
use otus_c_prog.RingDriver.Write.{
  AlwaysCopies, Outcome, copy_in-Outcome, last_of, keep_last, make_room-Fits,
}

-- What ringbuf_write has done when it returns, for a buffer of `size` bytes that held `old`.
pub record Wrote (k : UserCopy) (size : ℕ) (old ubuf : List ℕ) (len : ℕ) (r : ℕ × RingBuffer)
    : Type 0 where
  pub alloc : List ℕ
  pub valid : IsValid r.1 alloc
  pub same_size : r.1.size ≡ size
  pub effect :
      ((r.0 ≡ min len size) × (contents r.1 ≡ last_of size (old ++ take len ubuf)))
      ⊎ ((r.0 ≡ 0)
          × (contents r.1 ≡ drop (length old + min len size - size) old)
          × (AlwaysCopies k → ⊥))

module _ (k : UserCopy) {rb : RingBuffer} {d : List ℕ} (v : IsValid rb d) (ubuf : List ℕ) (len : ℕ)
    (long : len ≤ length ubuf) (fits : len < 2 ^ 64) where
  clip_lem : clip_source rb ubuf len ≡ (drop (len - min len rb.size) ubuf, min len rb.size)
  unfolding clip_source
  clip_lem = elim (Bool-cases (ltb rb.size len)) [
    | inl e ↦
        let a : sub_size len rb.size ≡ len - min len rb.size = ground arith in
        let b : min len rb.size ≡ rb.size = ground arith in rw (e, a, b)
    | inr e ↦
        let a : len - min len rb.size ≡ 0 = ground arith in
        let b : min len rb.size ≡ len = ground arith in rw (e, a, b)
  ]

  -- What the call returns, from the outcome of the copies into a buffer with room.
  from_Outcome :
      {r : ℕ × RingBuffer}
      → Outcome k rb.size
          (drop (rb.count + min len rb.size - rb.size) (contents_of rb d))
          (drop (len - min len rb.size) ubuf)
          (min len rb.size)
          r
      → Wrote k rb.size (contents_of rb d) ubuf len r
  from_Outcome {r} o =
      let count : length (contents_of rb d) ≡ rb.count =
        length-slice (at d rb.size) rb.read_pos rb.count in
      record {
        alloc = o.alloc;
        valid = o.valid;
        same_size = o.same_size;
        effect = elim o.effect [
          | inl (n, c) ↦ inl (
            n,
            contents_lem o.valid
                ∙ c
                ∙ keep_last rb.size rb.count len (contents_of rb d) ubuf count v.count_in long,
          )
          | inr (z, c, not_all) ↦ inr (z, contents_lem o.valid ∙ rw count c, not_all)
        ];
      }

  written : len ≢ 0 → Wrote k rb.size (contents_of rb d) ubuf len (write_at k (some d) rb ubuf len)
  unfolding write_at
  written ne =
      let n = min len rb.size in
      let room = make_room-Fits k v ubuf n (omega arith) in
      let o =
        copy_in-Outcome k room.0 (drop (len - n) ubuf)
          (omega (arith, length-drop (len - n) ubuf)) in
      let nonzero : (len == 0) ≡ false = ground arith in
      let r = copy_in k (make_room rb n) d (drop (len - n) ubuf) n in
      let old = drop (rb.count + n - rb.size) (contents_of rb d) in
      let sized =
        subst₂ (λ s c. Outcome k s c (drop (len - n) ubuf) n r) {y = rb.size} {v = old} room.2
          room.1 o in
      rw (clip_lem, nonzero) (from_Outcome sized)

  nothing : len ≡ 0 → Wrote k rb.size (contents_of rb d) ubuf len (0, rb)
  nothing e =
      let old = contents_of rb d in
      let count : length old ≡ rb.count = length-slice (at d rb.size) rb.read_pos rb.count in
      let none_over : length old - rb.size ≡ 0 = omega (arith, v.count_in) in
      record {
        alloc = d;
        valid = v;
        same_size = refl;
        effect = inl (omega arith, contents_lem v ∙ rw (e, append-nil old, none_over));
      }

  -- A call of ringbuf_write on a valid buffer leaves it valid, over an allocation of the same size.
  -- Either it returns the number of bytes that fit, at most the size of the buffer, and then the
  -- buffer holds the last `size` bytes of what it held followed by what was written; or a copy from
  -- the caller failed, it returns 0, and only the oldest bytes, those that had to make room, are
  -- gone.
  pub ringbuf_write-Wrote : Wrote k rb.size (contents rb) ubuf len (ringbuf_write k rb ubuf len)
  unfolding ringbuf_write write_at
  ringbuf_write-Wrote =
      let e : ringbuf_write k rb ubuf len ≡ write_at k (some d) rb ubuf len =
        ap (λ o. write_at k o rb ubuf len) v.stored in
      rw (contents_lem v, e)
        (elim (ℕ_discrete len 0) [ yes z ↦ rw z (rw z at (nothing z)) | no ne ↦ written ne ])
