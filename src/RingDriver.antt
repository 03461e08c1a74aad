-- ===== src/RingDriver.antt =====
-- 27_driver/ringbuf_driver.c: the ring buffer behind /dev/ringbuf, with the functions that change
-- it. One that updates the static `rb` returns the new value beside its result. What the kernel
-- does for the driver (locking, allocation, copies to and from the caller) is an argument.
pub mod Copy
pub mod Window
pub mod Inv
pub mod Write
pub mod Overwrite
pub mod Read
pub mod Device
use otus_c_prog.Common.{
  ℕ, ◌+◌, ◌-◌, ◌%◌, ◌^◌, min, Bool, true, false, ◌&&◌, ◌||◌, not, Option, none, some, List, [], ◌∷◌,
  ltb, leb, ◌==◌, if◌then◌else◌, add_size, sub_size, drop, length, replicate,
}
use Copy.{UserCopy}

-- `struct ring_buffer`; `none` is the null pointer.
pub record RingBuffer : Type 0 where
  pub bytes : Option (List ℕ)
  pub size : ℕ
  pub count : ℕ
  pub read_pos : ℕ
  pub write_pos : ℕ

abbrev pub erestartsys : ℕ
erestartsys = 512

abbrev pub enomem : ℕ
enomem = 12

abbrev pub einval : ℕ
einval = 22

-- A result that is a number of bytes, or an error code that C returns negated.
pub data Result : Type 0 where
  ok : ℕ → Result
  err : ℕ → Result

unfoldable pub ringbuf_empty : RingBuffer → Bool
ringbuf_empty rb = rb.count == 0

unfoldable pub ringbuf_full : RingBuffer → Bool
ringbuf_full rb = rb.count == rb.size

unfoldable pub ringbuf_space : RingBuffer → ℕ
ringbuf_space rb = sub_size rb.size rb.count

-- The two tests at the head of ringbuf_write after the null test: a source that is too long loses
-- its head, and a buffer with too little space loses its oldest bytes.
pub clip_source : RingBuffer → List ℕ → ℕ → List ℕ × ℕ
clip_source rb ubuf len =
    if ltb rb.size len then (drop (sub_size len rb.size) ubuf, rb.size) else (ubuf, len)

-- Advances the reading end by `excess` bytes.
pub drop_oldest : RingBuffer → ℕ → RingBuffer
drop_oldest rb excess = record rb {
  read_pos = add_size rb.read_pos excess % rb.size;
  count = sub_size rb.count excess;
}

pub make_room : RingBuffer → ℕ → RingBuffer
make_room rb len =
    if ltb (ringbuf_space rb) len then drop_oldest rb (sub_size len (ringbuf_space rb)) else rb

module _ (k : UserCopy) where
  -- The second copy, made only when the block wraps, and the update of the positions.
  pub finish_write : RingBuffer → List ℕ → List ℕ → ℕ → ℕ → ℕ × RingBuffer
  finish_write rb d ubuf len to_write =
      let part2 = sub_size len to_write in
      let second = k.copy_from_user d 0 (drop to_write ubuf) part2 in
      let done = λ (d' : List ℕ). record rb {
        bytes = some d';
        write_pos = add_size rb.write_pos len % rb.size;
        count = add_size rb.count len;
      } in
      if part2 == 0
      then (len, done d)
      else if second.0 == 0
      then (len, done second.1)
      else (0, record rb { bytes = some second.1 })

  pub copy_in : RingBuffer → List ℕ → List ℕ → ℕ → ℕ × RingBuffer
  copy_in rb d ubuf len =
      let to_write = min len (sub_size rb.size rb.write_pos) in
      let first = k.copy_from_user d rb.write_pos ubuf to_write in
      if first.0 == 0
      then finish_write rb first.1 ubuf len to_write
      else (0, record rb { bytes = some first.1 })

  pub write_at : Option (List ℕ) → RingBuffer → List ℕ → ℕ → ℕ × RingBuffer
  write_at none rb ubuf len = (0, rb)
  write_at (some d) rb ubuf len =
      let (ubuf', len') = clip_source rb ubuf len in
      if len == 0 then (0, rb) else copy_in (make_room rb len') d ubuf' len'

  pub ringbuf_write : RingBuffer → List ℕ → ℕ → ℕ × RingBuffer
  ringbuf_write rb ubuf len = write_at rb.bytes rb ubuf len

  -- The caller's buffer is `ubuf`, and its state afterwards is returned.
  pub peek_at : Option (List ℕ) → RingBuffer → List ℕ → ℕ → ℕ × List ℕ
  peek_at none rb ubuf len = (0, ubuf)
  peek_at (some d) rb ubuf len =
      let avail = min len rb.count in
      let part1 = min avail (sub_size rb.size rb.read_pos) in
      let part2 = sub_size avail part1 in
      let first = k.copy_to_user ubuf 0 (drop rb.read_pos d) part1 in
      let second = k.copy_to_user first.1 part1 d part2 in
      if ringbuf_empty rb || avail == 0
      then (0, ubuf)
      else if not (first.0 == 0)
      then (0, first.1)
      else if part2 == 0
      then (avail, first.1)
      else if second.0 == 0
      then (avail, second.1)
      else (0, second.1)

  pub ringbuf_peek : RingBuffer → List ℕ → ℕ → ℕ × List ℕ
  ringbuf_peek rb ubuf len = peek_at rb.bytes rb ubuf len

pub discard_at : Option (List ℕ) → RingBuffer → ℕ → RingBuffer
discard_at none rb len = rb
discard_at (some d) rb len = if ltb rb.count len then rb else drop_oldest rb len

pub ringbuf_discard : RingBuffer → ℕ → RingBuffer
ringbuf_discard rb len = discard_at rb.bytes rb len
