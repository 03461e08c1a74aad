-- ===== src/RingDriver/Device.antt =====
-- 27_driver/ringbuf_driver.c: the file operations of /dev/ringbuf, its module parameter, and the
-- loading and unloading of the module. An interrupted wait for the mutex, the outcome of an
-- allocation and the parsed parameter come from the kernel and are arguments.
pub mod FileOps
pub mod Resize
pub mod Load
pub mod History
mod Tests
use otus_c_prog.Common.{
  ℕ, ◌+◌, ◌-◌, ◌≤◌, Bool, true, false, ◌||◌, Option, none, some, List, [], ◌∷◌, ltb, leb, ◌==◌,
  if◌then◌else◌, take, drop,
}
use otus_c_prog.Common.Int.{ℤ, pos, negsuc, ◌+ℤ◌, ltb_ℤ, pos_part}
use otus_c_prog.RingDriver.{
  RingBuffer, Result, ok, err, erestartsys, enomem, einval, ringbuf_peek, ringbuf_discard,
  ringbuf_write,
}
use otus_c_prog.RingDriver.Copy.{UserCopy}

pub dev_open : RingBuffer → Result
dev_open rb = elim rb.bytes [ none ↦ err enomem | some d ↦ ok 0 ]

-- What a read leaves: its result, the caller's buffer, the file offset and the ring.
pub record ReadResult : Type 0 where
  pub ret : Result
  pub ubuf : List ℕ
  pub off : ℕ
  pub rb : RingBuffer

pub after_peek : ℕ × List ℕ → RingBuffer → ℕ → ReadResult
after_peek (n, ubuf) rb off =
    if ltb 0 n
    then record { ret = ok n; ubuf = ubuf; off = off + n; rb = ringbuf_discard rb n }
    else record { ret = ok n; ubuf = ubuf; off = off; rb = rb }

module _ (k : UserCopy) (interrupted : Bool) where
  pub dev_read : RingBuffer → List ℕ → ℕ → ℕ → ReadResult
  dev_read rb ubuf len off =
      if interrupted
      then record { ret = err erestartsys; ubuf = ubuf; off = off; rb = rb }
      else after_peek (ringbuf_peek k rb ubuf len) rb off

  pub dev_write : RingBuffer → List ℕ → ℕ → Result × RingBuffer
  dev_write rb ubuf len =
      let (written, rb') = ringbuf_write k rb ubuf len in
      if interrupted then (err erestartsys, rb) else (ok written, rb')

pub data Whence : Type 0 where
  seek_set seek_cur seek_end unknown : Whence

-- The switch of dev_llseek; `none` is its default case.
pub seek_target : Whence → ℕ → ℕ → ℤ → Option ℤ
seek_target seek_set cnt f_pos off = some off
seek_target seek_cur cnt f_pos off = some (pos f_pos +ℤ off)
seek_target seek_end cnt f_pos off = some (pos cnt +ℤ off)
seek_target unknown cnt f_pos off = none

pub move_to : Option ℤ → ℕ → ℕ → Result × ℕ
move_to none cnt f_pos = (err einval, f_pos)
move_to (some newpos) cnt f_pos =
    let p = if ltb cnt (pos_part newpos) then cnt else pos_part newpos in
    if ltb_ℤ newpos (pos 0) then (err einval, f_pos) else (ok p, p)

-- The result and the position of the file afterwards.
pub dev_llseek : Bool → RingBuffer → ℕ → ℤ → Whence → Result × ℕ
dev_llseek interrupted rb f_pos off whence =
    if interrupted
    then (err erestartsys, f_pos)
    else move_to (seek_target whence rb.count f_pos off) rb.count f_pos

-- The module parameter beside the ring.
pub record Driver : Type 0 where
  pub rb : RingBuffer
  pub param_buf_size : ℕ

-- The outcome of kstrtoint: the number read, or the code of its error.
pub data Parsed : Type 0 where
  int : ℤ → Parsed
  bad : ℕ → Parsed

-- buf_size_set from the call of kmalloc on, which has freed the old bytes.
pub with_memory : Option (List ℕ) → Driver → ℕ → Result × Driver
with_memory none s new_size = (err enomem, record s { rb = record s.rb { bytes = none } })
with_memory (some d) s new_size = (
  ok 0,
  record {
    rb = record { bytes = some d; size = new_size; count = 0; read_pos = 0; write_pos = 0 };
    param_buf_size = new_size;
  },
)

pub buf_size_set : (ℕ → Option (List ℕ)) → Bool → Driver → Parsed → Result × Driver
buf_size_set kmalloc interrupted s (bad code) = (err code, s)
buf_size_set kmalloc interrupted s (int new_size) =
    if ltb_ℤ new_size (pos 16) || ltb_ℤ (pos 65536) new_size
    then (err einval, s)
    else if interrupted
    then (err erestartsys, s)
    else with_memory (kmalloc (pos_part new_size)) s (pos_part new_size)

-- What ringbuf_init acquires from the kernel, in its order.
pub data Resource : Type 0 where
  buffer region cdev class device : Resource

pub data Action : Type 0 where
  acquire : Resource → Action
  release : Resource → Action

-- Whether each call of ringbuf_init succeeds; a failure has its error code.
pub record Kernel : Type 0 where
  pub kmalloc : ℕ → Option (List ℕ)
  pub alloc_chrdev_region : Option ℕ
  pub cdev_add : Option ℕ
  pub class_create : Option ℕ
  pub device_create : Option ℕ

-- The labels at the end of ringbuf_init: each falls through to the next.
pub err_buf : List Action
err_buf = release buffer ∷ []

pub err_region : List Action
err_region = release region ∷ err_buf

pub err_cdev : List Action
err_cdev = release cdev ∷ err_region

pub err_class : List Action
err_class = release class ∷ err_cdev

pub register : Kernel → Result × List Action
register k = elim k.alloc_chrdev_region [
  | some e ↦ (err e, err_buf)
  | none ↦ elim k.cdev_add [
    | some e ↦ (err e, acquire region ∷ err_region)
    | none ↦ elim k.class_create [
      | some e ↦ (err e, acquire region ∷ acquire cdev ∷ err_cdev)
      | none ↦ elim k.device_create [
        | some e ↦ (err e, acquire region ∷ acquire cdev ∷ acquire class ∷ err_class)
        | none ↦ (ok 0, acquire region ∷ acquire cdev ∷ acquire class ∷ acquire device ∷ [])
      ]
    ]
  ]
]

pub record Loaded : Type 0 where
  pub ret : Result
  pub actions : List Action
  pub rb : RingBuffer

pub init_over : Option (List ℕ) → Kernel → RingBuffer → Loaded
init_over none k rb = record { ret = err enomem; actions = []; rb = record rb { bytes = none } }
init_over (some d) k rb = record {
  ret = (register k).0;
  actions = acquire buffer ∷ (register k).1;
  rb = record { bytes = some d; size = rb.size; count = 0; read_pos = 0; write_pos = 0 };
}

pub ringbuf_init : Kernel → RingBuffer → Loaded
ringbuf_init k rb = init_over (k.kmalloc rb.size) k rb

pub ringbuf_exit : List Action
ringbuf_exit = release device ∷ release class ∷ release cdev ∷ release region ∷ release buffer ∷ []
