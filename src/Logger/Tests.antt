-- ===== src/Logger/Tests.antt =====
-- 12_error_handling/logger.c: a program with the prefix A_ and a file for level INFO.
use otus_c_prog.Common.{ℕ, ◌≡◌, ◌≢◌, refl, true, if◌then◌else◌, List, [], ◌∷◌, Option, none, some}
use otus_c_prog.Common.Int.{pos}
use otus_c_prog.Common.Text.{codes, same}
use otus_c_prog.Logger.Levels.{log_warning, is_valid_level, level_from_string, to_int, signed}
use otus_c_prog.Logger.State.{System, initial, logger_log, logger_set_env_prefix}
use otus_c_prog.Logger.Calls.{
  Call, set_env_prefix, init, set_level, shutdown, after_call, after_calls, Consistent,
  after_calls-Consistent,
}
use otus_c_prog.Logger.Sink.{written_to, environment_sink, logger_log-written}
use otus_c_prog.Logger.Queue.{
  Memory, MessageQueue, idle, writing, ended, AsyncLogger, store_at, link, async_logger_enqueue,
  take_first, write_message, drain, created, Reach, begin,
}
use otus_c_prog.Logger.Queue.Order.{Live, Reach-written, Reach-safe}

abbrev variables : List ℕ → Option (List ℕ)
variables name =
    if same name (codes "A_LOGGING_ENABLED")
    then some (codes "True")
    else if same name (codes "A_LOG_LEVEL")
    then some (codes "info")
    else if same name (codes "A_INFO_LOG_FILE")
    then some (codes "i.log")
    else none

abbrev system : System
system = record {
  getenv = variables;
  opens = λ name. true;
  starts = λ level. true;
  strtol = λ str. (pos 0, str);
}

abbrev prefixed : List Call
prefixed = set_env_prefix (some (codes "A_")) ∷ []

-- (int)4294967299 is 3.
wraps : to_int (pos 4294967299) ≡ pos 3
unfolding to_int signed
wraps = refl

names : level_from_string (λ str. (pos 0, str)) (some (codes "warning")) ≡ pos log_warning
unfolding level_from_string same
names = refl

after_calls-Consistent_example :
    Consistent (after_calls initial (init system ∷ set_level (pos 7) ∷ shutdown ∷ []))
after_calls-Consistent_example =
    after_calls-Consistent (init system ∷ set_level (pos 7) ∷ shutdown ∷ [])

logger_log-written_example :
    let s = (logger_log system (after_calls initial prefixed) (pos 3) none).0 in
    let called = logger_log system s (pos 7) (some (codes "m")) in
    (called.0 ≡ s)
    × (written_to s 7 none called.1 ≡ environment_sink system (after_calls initial prefixed) 7)
unfolding after_calls after_call initial logger_set_env_prefix is_valid_level
logger_log-written_example =
    logger_log-written prefixed system system (pos 3) none 7 (codes "m") none refl refl

abbrev no_memory : Memory
no_memory address = none

abbrev one_message : MessageQueue
one_message = record {
  memory = store_at no_memory 1 (some (record { text = codes "m"; next = none }));
  queue_head = some 1;
  queue_tail = some 1;
}

abbrev one_logged : AsyncLogger
one_logged = record { queue = one_message; running = true; writer = idle; written = [] }

one_logged-Reach : Reach no_memory one_logged (codes "m" ∷ []) []
unfolding created async_logger_enqueue link
one_logged-Reach = Reach.log (codes "m") 1 begin (λ h. cc) refl refl

Reach-written_example :
    (idle ≢ ended → Live one_message idle [] (codes "m" ∷ []))
    × (idle ≡ ended → [] ≡ codes "m" ∷ [])
Reach-written_example = Reach-written one_logged-Reach

Reach-safe_example :
    ((text : List ℕ) (msg : ℕ)
      → one_message.memory msg ≡ none
      → (q : MessageQueue) × (async_logger_enqueue one_message text (some msg) ≡ some q))
    × ((msg : ℕ)
        → idle ≡ idle
        → some 1 ≡ some msg
        → (q : MessageQueue) × (take_first one_message msg ≡ some q))
    × ((msg : ℕ)
        → idle ≡ writing msg
        → (text : List ℕ) × (q : MessageQueue) × (write_message one_message msg ≡ some (text, q)))
    × ((turns : ℕ) × (texts : List (List ℕ)) × (q : MessageQueue) × (drain turns one_message
            (some 1)
          ≡ some (texts, q)))
Reach-safe_example = Reach-safe one_logged-Reach (λ h. cc)
