-- ===== src/Logger/Queue.antt =====
-- 12_error_handling/logger.c: the queue of an asynchronous logger, a linked list, and the thread that
-- writes its messages. What happens under the mutex is one step. A pointer is an address, and reading
-- or writing a block that is not allocated has no result.
pub mod Linked
pub mod Fifo
pub mod Order
use otus_c_prog.Common.{
  ℕ, zero, suc, ◌==◌, ◌≡◌, ◌≢◌, Bool, true, false, if◌then◌else◌, List, [], ◌∷◌, ◌++◌, Option, none,
  some,
}

-- `log_message_t`
pub record LogMessage : Type 0 where
  pub text : List ℕ
  pub next : Option ℕ

-- The allocated messages.
abbrev pub Memory : Type 0
Memory = ℕ → Option LogMessage

-- `queue_head`, `queue_tail` and the messages.
pub record MessageQueue : Type 0 where
  pub memory : Memory
  pub queue_head : Option ℕ
  pub queue_tail : Option ℕ

unfoldable pub store_at : Memory → ℕ → Option LogMessage → Memory
store_at memory address content other = if address == other then content else memory other

infixl 5 ◌>>=◌
abbrev pub ◌>>=◌ {ℓ κ} : {A : Type ℓ} {B : Type κ} → Option A → (A → Option B) → Option B
none >>= f = none
some a >>= f = f a

-- `queue_tail->next = msg`, or the first message.
unfoldable pub link : MessageQueue → Option ℕ → ℕ → Option MessageQueue
link q none msg = some (record { memory = q.memory; queue_head = some msg; queue_tail = some msg })
link q (some tail) msg = do
  last ← q.memory tail
  some (record {
    memory = store_at q.memory tail (some (record { text = last.text; next = some msg }));
    queue_head = q.queue_head;
    queue_tail = some msg;
  })

-- async_logger_enqueue with what malloc returns; without memory the message is dropped.
unfoldable pub async_logger_enqueue : MessageQueue → List ℕ → Option ℕ → Option MessageQueue
async_logger_enqueue q msg_text none = some q
async_logger_enqueue q msg_text (some msg) =
    link
      (record q { memory = store_at q.memory msg (some (record { text = msg_text; next = none })) })
      q.queue_tail msg

unfoldable pub tail_after : Option ℕ → Option ℕ → Option ℕ
tail_after none queue_tail = none
tail_after (some head) queue_tail = queue_tail

-- async_writer_thread takes the first message out of the list.
unfoldable pub take_first : MessageQueue → ℕ → Option MessageQueue
take_first q msg = do
  first ← q.memory msg
  some (record q { queue_head = first.next; queue_tail = tail_after first.next q.queue_tail })

unfoldable pub free_message : MessageQueue → ℕ → MessageQueue
free_message q msg = record q { memory = store_at q.memory msg none }

-- Outside the mutex, the thread reads the text of its message, which is written, and frees both.
unfoldable pub write_message : MessageQueue → ℕ → Option (List ℕ × MessageQueue)
write_message q msg = do message ← q.memory msg; some (message.text, free_message q msg)

-- The last loop of async_writer_thread: what it writes, and the list it leaves, whose `queue_tail`
-- it does not change.
unfoldable pub drain : ℕ → MessageQueue → Option ℕ → Option (List (List ℕ) × MessageQueue)
drain turns q none = some ([], q)
drain zero q (some msg) = none
drain (suc turns) q (some msg) = do
  first ← q.memory msg
  rest ← drain turns (free_message (record q { queue_head = first.next }) msg) first.next
  some (first.text ∷ rest.0, rest.1)

-- Where the thread is: at the head of its loop, at a message outside the mutex, or at its end.
pub data Writer : Type 0 where
  idle : Writer
  writing : ℕ → Writer
  ended : Writer

-- The logger, and the messages given to write_single_log_message so far.
pub record AsyncLogger : Type 0 where
  pub queue : MessageQueue
  pub running : Bool
  pub writer : Writer
  pub written : List (List ℕ)

unfoldable pub created : Memory → AsyncLogger
created memory = record {
  queue = record { memory = memory; queue_head = none; queue_tail = none };
  running = true;
  writer = idle;
  written = [];
}

-- The steps of the threads that log, of the writer and of destroy_async_logger, with the messages
-- for which there was memory: those that were queued before the writer ended, and those after, while
-- `file` is not yet NULL. malloc returns a block that is not in use. Queueing that touches a block
-- which is not allocated has no step.
pub data Reach (memory : Memory) : AsyncLogger → List (List ℕ) → List (List ℕ) → Type 0 where
  begin : Reach memory (created memory) [] []
  log :
      {s : AsyncLogger} {sent late : List (List ℕ)} {q : MessageQueue} (text : List ℕ) (msg : ℕ)
      → Reach memory s sent late
      → s.writer ≢ ended
      → s.queue.memory msg ≡ none
      → async_logger_enqueue s.queue text (some msg) ≡ some q
      → Reach memory (record s { queue = q }) (sent ++ (text ∷ [])) late
  log_late :
      {s : AsyncLogger} {sent late : List (List ℕ)} {q : MessageQueue} (text : List ℕ) (msg : ℕ)
      → Reach memory s sent late
      → s.writer ≡ ended
      → s.queue.memory msg ≡ none
      → async_logger_enqueue s.queue text (some msg) ≡ some q
      → Reach memory (record s { queue = q }) sent (late ++ (text ∷ []))
  take_out :
      {s : AsyncLogger} {sent late : List (List ℕ)} {q : MessageQueue} (msg : ℕ)
      → Reach memory s sent late
      → s.running ≡ true
      → s.writer ≡ idle
      → s.queue.queue_head ≡ some msg
      → take_first s.queue msg ≡ some q
      → Reach memory (record s { queue = q; writer = writing msg }) sent late
  write_out :
      {s : AsyncLogger} {sent late : List (List ℕ)} {q : MessageQueue} (text : List ℕ) (msg : ℕ)
      → Reach memory s sent late
      → s.writer ≡ writing msg
      → write_message s.queue msg ≡ some (text, q)
      → Reach memory
          (record s { queue = q; writer = idle; written = s.written ++ (text ∷ []) })
          sent
          late
  stop :
      {s : AsyncLogger} {sent late : List (List ℕ)}
      → Reach memory s sent late
      → Reach memory (record s { running = false }) sent late
  finish :
      {s : AsyncLogger} {sent late : List (List ℕ)} {q : MessageQueue} (turns : ℕ)
      (texts : List (List ℕ))
      → Reach memory s sent late
      → s.running ≡ false
      → s.writer ≡ idle
      → drain turns s.queue s.queue.queue_head ≡ some (texts, q)
      → Reach memory
          (record s { queue = q; writer = ended; written = s.written ++ texts })
          sent
          late
