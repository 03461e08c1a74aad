-- ===== src/RingDriver/Device/FileOps.antt =====
-- 27_driver/ringbuf_driver.c: dev_read and dev_llseek.
use otus_c_prog.Common.{
  ℕ, ◌+◌, ◌≤◌, ◌≡◌, refl, ap, false, Option, none, some, List, arith, min, ltb, take, drop, ◌⊎◌,
  inl, inr, Bool-cases,
}
use otus_c_prog.Common.Int.{ℤ, pos, negsuc}
use otus_c_prog.RingDriver.{RingBuffer, ok, err, einval, ringbuf_peek}
use otus_c_prog.RingDriver.Copy.{UserCopy, blit}
use otus_c_prog.RingDriver.Inv.{IsValid, contents}
use otus_c_prog.RingDriver.Read.{AlwaysDelivers, Peeked, ringbuf_peek-Peeked, ringbuf_discard_lem}
use otus_c_prog.RingDriver.Device.{
  ReadResult, after_peek, dev_read, Whence, seek_target, move_to, dev_llseek,
}

-- What dev_read has done for a caller that asked for `n` bytes of those there.
pub record ReadDone (k : UserCopy) (d : List ℕ) (n : ℕ) (old ubuf : List ℕ) (off : ℕ)
    (rb : RingBuffer) (r : ReadResult) : Type 0 where
  pub valid : IsValid r.rb d
  pub effect :
      ((r.ret ≡ ok n)
        × (r.ubuf ≡ blit ubuf 0 (take n old))
        × (contents r.rb ≡ drop n old)
        × (r.off ≡ off + n))
      ⊎ ((r.ret ≡ ok 0) × (contents r.rb ≡ old) × (r.off ≡ off) × (AlwaysDelivers k → ⊥))

module _ (k : UserCopy) {rb : RingBuffer} {d : List ℕ} (v : IsValid rb d) (off : ℕ) where
  after_peek-ReadDone :
      (ubuf : List ℕ) (n : ℕ)
      → n ≤ rb.count
      → (p : ℕ × List ℕ) → Peeked k n (contents rb) ubuf p
      → ReadDone k d n (contents rb) ubuf off rb (after_peek p rb off)
  unfolding after_peek
  after_peek-ReadDone ubuf n le (m, u) p = elim p.effect [
    | inl (e, f) ↦ elim (Bool-cases (ltb 0 m)) [
      | inl some_read ↦
          let done = ringbuf_discard_lem v m (omega arith) in
          rw some_read (record {
            valid = done.0;
            effect = inl (ap ok e, f, rw (← e) done.1, ap (λ t. off + t) e);
          })
      | inr none_read ↦
          let z : n ≡ 0 = ground arith in
          rw none_read (record { valid = v; effect = inl (ap ok e, f, rw z, omega (arith, z)) })
    ]
    | inr (z, not_all) ↦ rw z (record { valid = v; effect = inr (refl, refl, refl, not_all) })
  ]

  -- dev_read of a valid ring, once it has the lock, leaves it valid. Either it returns how many bytes were read, as many as
  -- were asked for and are there, puts the oldest of them at the start of the caller's buffer, takes
  -- exactly these out of the ring and advances the offset; or a copy to the caller failed, it
  -- returns 0, and ring and offset are as before.
  pub dev_read-ReadDone :
      (ubuf : List ℕ) (len : ℕ)
      → ReadDone k d (min len rb.count) (contents rb) ubuf off rb (dev_read k false rb ubuf len off)
  unfolding dev_read
  dev_read-ReadDone ubuf len =
      after_peek-ReadDone ubuf (min len rb.count) (omega arith) (ringbuf_peek k rb ubuf len)
        (ringbuf_peek-Peeked k v ubuf len)

-- dev_llseek, once it has the lock, refuses an unknown `whence` and a target below zero, and leaves
-- the position of the file as it was; it moves every other file to the target or, if that is past
-- the bytes in the ring, to their end, and returns that position, which is at most their number.
pub dev_llseek_lem :
    (rb : RingBuffer) (f_pos : ℕ) (off : ℤ) (whence : Whence)
    → let r = dev_llseek false rb f_pos off whence in
      ((r.0 ≡ err einval)
        × (r.1 ≡ f_pos)
        × ((seek_target whence rb.count f_pos off ≡ none)
            ⊎ ((n : ℕ) × (seek_target whence rb.count f_pos off ≡ some (negsuc n)))))
      ⊎ ((n : ℕ) × (seek_target whence rb.count f_pos off ≡ some (pos n))
          × (r.0 ≡ ok (min n rb.count))
          × (r.1 ≡ min n rb.count))
unfolding dev_llseek
dev_llseek_lem rb f_pos off whence = by_target (seek_target whence rb.count f_pos off)
  where
    by_target :
        (t : Option ℤ)
        → let r = move_to t rb.count f_pos in
          ((r.0 ≡ err einval) × (r.1 ≡ f_pos) × ((t ≡ none) ⊎ ((n : ℕ) × (t ≡ some (negsuc n)))))
          ⊎ ((n : ℕ) × (t ≡ some (pos n)) × (r.0 ≡ ok (min n rb.count)) × (r.1 ≡ min n rb.count))
    by_target none = unfold move_to in inl (refl, refl, inl refl)
    by_target (some (negsuc n)) = unfold move_to in inl (ground arith, ground arith, inr (n, refl))
    by_target (some (pos n)) = unfold move_to in inr (n, refl, ground arith, ground arith)
