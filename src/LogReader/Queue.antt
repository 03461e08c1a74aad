-- ===== src/LogReader/Queue.antt =====
-- 17_log_reader/main.c: the queue of files and the workers that empty it. What a worker does under
-- the mutex is one step.
use otus_c_prog.Common.{
  ℕ, zero, suc, ◌+◌, ◌-◌, ◌≤◌, ◌<◌, ◌==◌, ◌≡◌, ltb, leb, ◌&&◌, ◌||◌, not, Bool, true, false,
  if◌then◌else◌, List, [], ◌∷◌, ◌++◌,
}
pub mod Inv

-- `FileQueue`: a file is its index in `files`.
pub record FileQueue : Type 0 where
  pub count : ℕ
  pub next : ℕ
  pub finished : Bool

-- What a turn of a worker's loop leads to: the wait on the condition variable, the end of the
-- thread, or a file to read.
pub data Turn : Type 0 where
  asleep : Turn
  leave : Turn
  reading : ℕ → Turn

pub record Taken : Type 0 where
  pub turn : Turn
  pub queue : FileQueue

unfoldable pub take_file : FileQueue → Taken
take_file q =
    if leb q.count q.next && not q.finished
    then record { turn = asleep; queue = q }
    else if q.finished && leb q.count q.next
    then record { turn = leave; queue = q }
    else record {
      turn = reading q.next;
      queue = record {
        count = q.count;
        next = q.next + 1;
        finished = if q.next + 1 == q.count then true else q.finished;
      };
    }

unfoldable pub start : ℕ → FileQueue
start file_count = record { count = file_count; next = 0; finished = false }

-- main, once the threads run.
unfoldable pub finish_empty : FileQueue → FileQueue
finish_empty q =
    if q.count == 0 then record { count = q.count; next = q.next; finished = true } else q

-- The steps of the workers and of main on the queue, with the files taken so far, the last first,
-- and how many workers have left.
pub data Reach (file_count : ℕ) : FileQueue → List ℕ → ℕ → Type 0 where
  begin : Reach file_count (start file_count) [] 0
  by_main :
      {q : FileQueue} {taken : List ℕ} {left : ℕ}
      → Reach file_count q taken left
      → Reach file_count (finish_empty q) taken left
  read_file :
      {q : FileQueue} {taken : List ℕ} {left i : ℕ}
      → Reach file_count q taken left
      → (take_file q).turn ≡ reading i
      → Reach file_count (take_file q).queue (i ∷ taken) left
  wait :
      {q : FileQueue} {taken : List ℕ} {left : ℕ}
      → Reach file_count q taken left
      → (take_file q).turn ≡ asleep
      → Reach file_count (take_file q).queue taken left
  exit :
      {q : FileQueue} {taken : List ℕ} {left : ℕ}
      → Reach file_count q taken left
      → (take_file q).turn ≡ leave
      → Reach file_count (take_file q).queue taken (left + 1)
