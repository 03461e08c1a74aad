-- ===== src/RingDriver/Device/Tests.antt =====
-- 27_driver/ringbuf_driver.c: runs of the model, and its theorems at inputs of test_ringbuf.c.
use otus_c_prog.Common.{
  ℕ, ◌+◌, ◌≡◌, ◌<◌, ◌≤◌, refl, none, some, List, [], ◌∷◌, arith, length, false, take, replicate,
  length-replicate, length-take, inl, inr, ◌⊎◌, get_or,
}
use otus_c_prog.Common.Int.{pos, negsuc, ◌+ℤ◌}
use otus_c_prog.RingDriver.{
  RingBuffer, ok, ringbuf_write, write_at, clip_source, make_room, drop_oldest, ringbuf_space,
  copy_in, finish_write, ringbuf_peek, peek_at, ringbuf_empty, ringbuf_discard, discard_at,
}
use otus_c_prog.RingDriver.Copy.{UserCopy, blit, length-blit, get_or-blit_before, get_or-blit_after}
use otus_c_prog.RingDriver.Window.{slice}
use otus_c_prog.RingDriver.Inv.{IsValid, contents}
use otus_c_prog.RingDriver.Overwrite.{Wrote, ringbuf_write-Wrote}
use otus_c_prog.RingDriver.Device.{
  dev_read, dev_write, dev_llseek, after_peek, move_to, seek_target, seek_end, Driver, int,
  buf_size_set, with_memory, Kernel, ringbuf_init, init_over, register,
}
use otus_c_prog.RingDriver.Device.Resize.{Resized, buf_size_set-Resized}
use otus_c_prog.RingDriver.Device.Load.{held, same}
use otus_c_prog.RingDriver.Device.History.{Op, write, read, run, run_queue, run_refines}
use otus_c_prog.Common.Text.{codes}

keeps_rest :
    (d : List ℕ) (at : ℕ) (src : List ℕ) (n i : ℕ)
    → (i < at) ⊎ (at + n ≤ i)
    → get_or (blit d at (take n src)) i 0 ≡ get_or d i 0
keeps_rest d at src n i (inl h) = get_or-blit_before d at (take n src) i h
keeps_rest d at src n i (inr h) =
    get_or-blit_after d at (take n src) i (omega (arith, length-take n src))

-- A caller whose memory is all there.
abbrev present : UserCopy
present = record {
  copy_from_user = λ d at src n. (0, blit d at (take n src));
  copy_to_user = λ d at src n. (0, blit d at (take n src));
  from_user_copies = λ d at src n e. refl;
  from_user_length = λ d at src n. length-blit d at (take n src);
  from_user_frame = keeps_rest;
  to_user_copies = λ d at src n e. refl;
}

abbrev fresh : RingBuffer
fresh = record { bytes = some (replicate 16 0); size = 16; count = 0; read_pos = 0; write_pos = 0 }

fresh-IsValid : IsValid fresh (replicate 16 0)
fresh-IsValid = record {
  stored = refl;
  width = refl;
  low = omega arith;
  high = omega arith;
  read_in = omega arith;
  count_in = omega arith;
  write_end = refl;
}

-- What the driver's functions compute with.
program : Unit {0}
unfolding ringbuf_write write_at clip_source make_room drop_oldest ringbuf_space copy_in
    finish_write ringbuf_peek peek_at ringbuf_empty ringbuf_discard discard_at blit slice dev_read
    dev_write after_peek dev_llseek move_to seek_target ◌+ℤ◌ buf_size_set with_memory ringbuf_init
    init_over register held same run run_queue
program = tt

abbrev hello : RingBuffer
hello = (ringbuf_write present fresh (codes "Hello") 5).1

-- The two writes of test_ringbuf.c, of which the ring keeps the last 16 bytes.
last_sixteen :
    contents (ringbuf_write present hello (codes ", ring buffer world!") 20).1
    ≡ codes "ng buffer world!"
unfolding program
last_sixteen = refl

abbrev session : List Op
session = write (codes "Hello") ∷ read (replicate 4 0) 4 ∷ write (codes ", ring buffer world!") ∷ []

session_runs :
    run present fresh session
    ≡ (ok 5, codes "Hello") ∷ (ok 4, codes "Hell") ∷ (ok 16, codes ", ring buffer world!") ∷ []
unfolding program
session_runs = refl

ringbuf_write-Wrote_example :
    Wrote present 16
      (contents fresh)
      (codes "Hello")
      5
      (ringbuf_write present fresh (codes "Hello") 5)
ringbuf_write-Wrote_example =
    ringbuf_write-Wrote present fresh-IsValid (codes "Hello") 5 (omega arith) (omega arith)

dev_llseek_end : dev_llseek false (record fresh { count = 5 }) 0 (negsuc 1) seek_end ≡ (ok 3, 3)
unfolding program
dev_llseek_end = refl

run_refines_example : run present fresh session ≡ run_queue 16 (contents fresh) session
run_refines_example =
    run_refines present (λ d at src n. refl) (λ d at src n. refl) session fresh-IsValid
      (omega arith)

allocated : (n : ℕ) (d : List ℕ) → some (replicate n 0) ≡ some d → length d ≡ n
allocated n d e = let same : replicate n 0 ≡ d = cc in rw (← same) (length-replicate n 0)

abbrev driver : Driver
driver = record { rb = fresh; param_buf_size = 16 }

buf_size_set-Resized_example :
    Resized
      (λ n. some (replicate n 0))
      false
      driver
      (int (pos 54))
      (buf_size_set (λ n. some (replicate n 0)) false driver (int (pos 54)))
buf_size_set-Resized_example =
    buf_size_set-Resized (λ n. some (replicate n 0)) allocated false driver (int (pos 54))

-- A kernel that grants everything.
abbrev granting : Kernel
granting = record {
  kmalloc = λ n. some (replicate n 0);
  alloc_chrdev_region = none;
  cdev_add = none;
  class_create = none;
  device_create = none;
}
