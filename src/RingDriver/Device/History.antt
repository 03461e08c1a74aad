-- ===== src/RingDriver/Device/History.antt =====
-- 27_driver/ringbuf_driver.c: the device as a queue that forgets its oldest bytes, over any sequence
-- of reads and writes.
use otus_c_prog.Common.{
  ℕ, ◌≡◌, ◌<◌, ◌^◌, refl, List, [], ◌∷◌, ◌++◌, arith, inl, inr, length, false, ap, sym, take, drop,
  min, ◌∙◌, take-min, drop-min, take_all,
}
use mathlib.Core.Path.{ap₂}
use otus_c_prog.RingDriver.{RingBuffer, Result, ok, ringbuf_write}
use otus_c_prog.RingDriver.Copy.{UserCopy, blit}
use otus_c_prog.RingDriver.Window.{at, length-slice}
use otus_c_prog.RingDriver.Inv.{IsValid, contents, contents_lem}
use otus_c_prog.RingDriver.Write.{AlwaysCopies, last_of}
use otus_c_prog.RingDriver.Read.{AlwaysDelivers}
use otus_c_prog.RingDriver.Overwrite.{ringbuf_write-Wrote}
use otus_c_prog.RingDriver.Device.{dev_read, dev_write}
use otus_c_prog.RingDriver.Device.FileOps.{dev_read-ReadDone}

-- A caller writes `ubuf`, or reads `len` bytes into `ubuf`.
pub data Op : Type 0 where
  write : List ℕ → Op
  read : List ℕ → ℕ → Op

-- What the caller sees: the result, and its buffer after a read.
abbrev pub Reply : Type 0
Reply = Result × List ℕ

-- The device on its ring.
unfoldable pub run : UserCopy → RingBuffer → List Op → List Reply
run k rb [] = []
run k rb (write ubuf ∷ ops) =
    let (r, rb') = dev_write k false rb ubuf (length ubuf) in (r, ubuf) ∷ run k rb' ops
run k rb (read ubuf len ∷ ops) =
    let r = dev_read k false rb ubuf len 0 in (r.ret, r.ubuf) ∷ run k r.rb ops

-- The queue: a write appends and keeps the last `cap` bytes, a read takes from the front.
unfoldable pub run_queue : ℕ → List ℕ → List Op → List Reply
run_queue cap q [] = []
run_queue cap q (write ubuf ∷ ops) =
    (ok (min (length ubuf) cap), ubuf) ∷ run_queue cap (last_of cap (q ++ ubuf)) ops
run_queue cap q (read ubuf len ∷ ops) =
    (ok (min len (length q)), blit ubuf 0 (take len q)) ∷ run_queue cap (drop len q) ops

-- The buffers that callers write have a size that a `size_t` holds.
abbrev pub Sized : List Op → Type 0
Sized [] = Unit
Sized (write ubuf ∷ ops) = (length ubuf < 2 ^ 64) × Sized ops
Sized (read ubuf len ∷ ops) = Sized ops

module _ (k : UserCopy) (copies : AlwaysCopies k) (delivers : AlwaysDelivers k) where
  -- One write, as the queue sees it.
  write_step :
      {rb : RingBuffer} {d : List ℕ}
      → IsValid rb d
      → (ubuf : List ℕ) → length ubuf < 2 ^ 64
      → let r = ringbuf_write k rb ubuf (length ubuf) in
        (e : List ℕ) × IsValid r.1 e
        × (r.0 ≡ min (length ubuf) rb.size)
        × (contents r.1 ≡ last_of rb.size (contents rb ++ ubuf))
        × (r.1.size ≡ rb.size)
  write_step {rb} v ubuf fits =
      let w = ringbuf_write-Wrote k v ubuf (length ubuf) (omega arith) fits in
      let whole = take_all (length ubuf) ubuf (omega arith) in
      elim w.effect [
        | inl (n, c) ↦ (
          w.alloc,
          w.valid,
          n,
          c ∙ ap (λ t. last_of rb.size (contents rb ++ t)) whole,
          w.same_size,
        )
        | inr (_, _, not_all) ↦ absurd (not_all copies)
      ]

  read_step :
      {rb : RingBuffer} {d : List ℕ}
      → IsValid rb d
      → (ubuf : List ℕ) (len : ℕ)
      → let r = dev_read k false rb ubuf len 0 in
        let n = min len (length (contents rb)) in
        IsValid r.rb d
        × (r.ret ≡ ok n)
        × (r.ubuf ≡ blit ubuf 0 (take len (contents rb)))
        × (contents r.rb ≡ drop len (contents rb))
        × (r.rb.size ≡ rb.size)
  read_step {rb} {d} v ubuf len =
      let r = dev_read-ReadDone k v 0 ubuf len in
      let used : length (contents rb) ≡ rb.count =
        ap length (contents_lem v) ∙ length-slice (at d rb.size) rb.read_pos rb.count in
      elim r.effect [
        | inl (n, u, c, _) ↦ (
          r.valid,
          rw used n,
          u
              ∙ ap (blit ubuf 0) (
                  ap (λ m. take (min len m) (contents rb)) (sym used) ∙ take-min len (contents rb)),
          c ∙ ap (λ m. drop (min len m) (contents rb)) (sym used) ∙ drop-min len (contents rb),
          sym r.valid.width ∙ v.width,
        )
        | inr (_, _, _, not_all) ↦ absurd (not_all delivers)
      ]

  -- With copies that do not fail, a valid ring answers any sequence of reads and writes as a queue
  -- does that starts with the ring's bytes, takes reads from its front, appends writes at its end
  -- and forgets its oldest bytes beyond the size of the ring.
  pub run_refines :
      (ops : List Op) {rb : RingBuffer} {d : List ℕ}
      → IsValid rb d
      → Sized ops
      → run k rb ops ≡ run_queue rb.size (contents rb) ops
  unfolding run run_queue dev_write
  run_refines [] v s = refl
  run_refines (write ubuf ∷ ops) {rb} v s =
      let (e, v', n, c, same) = write_step v ubuf s.0 in
      ap₂ ◌∷◌ (ap (λ m. (ok m, ubuf)) n)
        (run_refines ops v' s.1 ∙ ap₂ (λ cap q. run_queue cap q ops) same c)
  run_refines (read ubuf len ∷ ops) {rb} v s =
      let (v', n, u, c, same) = read_step v ubuf len in
      ap₂ ◌∷◌ (ap₂ (λ ret out. (ret, out)) n u)
        (run_refines ops v' s ∙ ap₂ (λ cap q. run_queue cap q ops) same c)
