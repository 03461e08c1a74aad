-- ===== src/RingDriver/Inv.antt =====
-- 27_driver/ringbuf_driver.c: the representation invariant of `rb`, and dropping the oldest bytes.
use native.Mathlib.Nat.{mod-add-mod, mod-lt}
use otus_c_prog.Common.{
  ℕ, ◌+◌, ◌-◌, ◌%◌, ◌≤◌, ◌<◌, ◌≡◌, sym, ◌∙◌, ap, List, Option, some, none, [], arith, length, drop,
  add_size, sub_size,
}
use otus_c_prog.RingDriver.{RingBuffer, drop_oldest, ringbuf_space}
use otus_c_prog.RingDriver.Window.{at, slice, drop-slice, slice-mod}

-- `rb` stands over an allocation `d` of `size` bytes, of which `count` are in use from `read_pos`.
pub record IsValid (rb : RingBuffer) (d : List ℕ) : Type 0 where
  pub stored : rb.bytes ≡ some d
  pub width : length d ≡ rb.size
  pub low : 16 ≤ rb.size
  pub high : rb.size ≤ 65536
  pub read_in : rb.read_pos < rb.size
  pub count_in : rb.count ≤ rb.size
  pub write_end : rb.write_pos ≡ (rb.read_pos + rb.count) % rb.size

-- The bytes in use, oldest first.
abbrev pub contents_of : RingBuffer → List ℕ → List ℕ
contents_of rb d = slice (at d rb.size) rb.read_pos rb.count

abbrev pub contents_at : Option (List ℕ) → RingBuffer → List ℕ
contents_at none rb = []
contents_at (some d) rb = contents_of rb d

abbrev pub contents : RingBuffer → List ℕ
contents rb = contents_at rb.bytes rb

pub contents_lem : {rb : RingBuffer} {d : List ℕ} → IsValid rb d → contents rb ≡ contents_of rb d
contents_lem {rb} v = ap (λ o. contents_at o rb) v.stored

module _ {rb : RingBuffer} {d : List ℕ} (v : IsValid rb d) where
  pub write_in : rb.write_pos < rb.size
  write_in = rw v.write_end (mod-lt (rb.read_pos + rb.count) (omega arith))

  pub space_lem : ringbuf_space rb ≡ rb.size - rb.count
  unfolding ringbuf_space
  space_lem = omega arith

  module _ (n : ℕ) (le : n ≤ rb.count) where
    -- Dropping bytes in use moves the window on.
    moved : (rb.read_pos + n) % rb.size ≡ add_size rb.read_pos n % rb.size
    moved = ap (λ t. t % rb.size) (omega arith)

    pub drop_oldest-IsValid : IsValid (drop_oldest rb n) d
    unfolding drop_oldest
    drop_oldest-IsValid = record {
      stored = v.stored;
      width = v.width;
      low = v.low;
      high = v.high;
      read_in = mod-lt (add_size rb.read_pos n) (omega arith);
      count_in = omega arith;
      write_end =
          v.write_end
          ∙ ap (λ t. t % rb.size) (omega arith)
          ∙ sym (mod-add-mod (add_size rb.read_pos n) rb.size (sub_size rb.count n));
    }

    pub drop_oldest-contents : contents_of (drop_oldest rb n) d ≡ drop n (contents_of rb d)
    unfolding drop_oldest
    drop_oldest-contents = rw (← moved) (
        slice-mod d rb.size (rb.read_pos + n) (sub_size rb.count n)
        ∙ ap (slice (at d rb.size) (rb.read_pos + n)) (omega arith)
        ∙ sym (drop-slice (at d rb.size) rb.read_pos rb.count n))
