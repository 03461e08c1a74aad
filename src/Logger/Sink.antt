-- ===== src/Logger/Sink.antt =====
-- 12_error_handling/logger.c: where the bytes of a message end up, once write_single_log_message has
-- written it.
use otus_c_prog.Common.{
  ℕ, ◌==◌, ◌≡◌, refl, ap, ◌∙◌, inl, inr, ◌&&◌, not, true, false, if◌then◌else◌, List, Option, none,
  some, length, get_or, Bool-cases, Option-cases,
}
use otus_c_prog.Common.Int.{ℤ, pos, ltb_ℤ}
use otus_c_prog.Common.Text.{codes}
use otus_c_prog.Logger.Levels.{log_info, log_debug, is_valid_level}
use otus_c_prog.Logger.State.{
  System, LoggerState, initial, not_empty, open_common, level_of, get_env_with_prefix,
  check_logging_enabled, start_logging, is_file, CommonFile, no_file, std_err, opened, no_logger,
  valid_levels, Delivery, left_out, queued, at_once, logger_log,
}
use otus_c_prog.Logger.Write.{
  Allocated, Stream, to_stdout, to_file, is_level, is_std_err, write_single_log_message,
}
use otus_c_prog.Logger.Calls.{Consistent, Call, after_calls, after_calls-Consistent}
use otus_c_prog.Logger.Slots.{levels_fit, valid_member}
use otus_c_prog.Logger.Routed.{
  own_file, destination, Created-at, levels_distinct, log_first, logger_log-destination,
}

pub data Sink : Type 0 where
  nowhere : Sink
  standard_output : Sink
  standard_error : Sink
  file_named : List ℕ → Sink

unfoldable pub common_sink : CommonFile → Sink
common_sink no_file = nowhere
common_sink std_err = standard_error
common_sink (opened name) = file_named name

unfoldable pub own_sink : Option (List ℕ) → Sink
own_sink none = nowhere
own_sink (some name) = file_named name

-- The sink of what write_single_log_message has written, with that of its file.
unfoldable pub stream_sink : Sink → Option (Stream × List ℕ) → Sink
stream_sink file none = nowhere
stream_sink file (some (to_stdout, bytes)) = standard_output
stream_sink file (some (to_file, bytes)) = file

-- The end of logger_log, or of the thread that takes the message out of its queue, with the
-- stack's text and memory for what is written.
unfoldable pub written_to : LoggerState → ℕ → Option Allocated → Delivery → Sink
unfolding common_sink own_sink stream_sink
written_to s level stack left_out = nowhere
written_to s level stack (queued index text) =
    let logger = get_or s.async_loggers index no_logger in
    stream_sink (own_sink logger.file)
      (write_single_log_message s.common_file s.current_level (pos logger.level) text stack true)
written_to s level stack (at_once common_file text) =
    stream_sink (common_sink common_file)
      (write_single_log_message s.common_file s.current_level (pos level) text stack true)

-- Where the environment sends a message: nowhere, if logging is off or the message is less important
-- than the level; for level INFO without a common file, to stdout; to the file of its level, if that
-- can be used; else to the common file, or to stderr without one.
unfoldable pub environment_sink : System → LoggerState → ℕ → Sink
unfolding common_sink
environment_sink sys s level =
    let common =
      open_common sys (not_empty (get_env_with_prefix sys s.env_prefix (codes "LOG_FILE"))) in
    if not (check_logging_enabled sys s.env_prefix)
    then nowhere
    else if ltb_ℤ
        (level_of sys s.current_level
          (not_empty (get_env_with_prefix sys s.env_prefix (codes "LOG_LEVEL"))))
        (pos level)
    then nowhere
    else if level == log_info && is_std_err common
    then standard_output
    else elim (own_file sys s.env_prefix level) [
      | none ↦ common_sink common
      | some name ↦ file_named name
    ]

-- write_single_log_message with memory writes to stdout or to its file.
stream_sink-written :
    (common_file : CommonFile) (current_level : ℤ) (level : ℕ) (text : List ℕ)
    (stack : Option Allocated) (file : Sink)
    → stream_sink file
        (write_single_log_message common_file current_level (pos level) text stack true)
      ≡ (if level == log_info && is_std_err common_file then standard_output else file)
unfolding stream_sink write_single_log_message is_level
stream_sink-written common_file current_level level text stack file =
    elim (Bool-cases (level == log_info && is_std_err common_file)) [
      | inl e ↦ rw e refl
      | inr e ↦ elim (Bool-cases (is_level current_level log_debug)) [
        | inl d ↦ rw (e, d) refl
        | inr d ↦ rw (e, d) refl
      ]
    ]

written_to-environment :
    (sys : System) (s : LoggerState) (level : ℕ) (text : List ℕ) (stack : Option Allocated)
    → Consistent s
    → s.initialized ≡ false
    → is_valid_level (pos level) ≡ true
    → check_logging_enabled sys s.env_prefix ≡ true
    → written_to (start_logging sys s) level stack (destination sys s level text)
      ≡ environment_sink sys s level
unfolding written_to destination environment_sink start_logging is_file own_sink
written_to-environment sys s level text stack c off valid enabled =
    let common =
      open_common sys (not_empty (get_env_with_prefix sys s.env_prefix (codes "LOG_FILE"))) in
    let least =
      level_of sys s.current_level
        (not_empty (get_env_with_prefix sys s.env_prefix (codes "LOG_LEVEL"))) in
    let slot =
      Created-at sys s.env_prefix valid_levels s.async_loggers level
        (levels_fit (length s.async_loggers) c.eight) levels_distinct (valid_member level valid)
        ((c.closed off).0 level) in
    elim (Bool-cases (ltb_ℤ least (pos level))) [
      | inl less ↦ rw (enabled, less) refl
      | inr kept ↦ elim (Option-cases (own_file sys s.env_prefix level)) [
        | inl none_own ↦
            rw (enabled, kept, none_own)
              (stream_sink-written common least level text stack (common_sink common))
        | inr (name, own) ↦
            let file = slot.0 ∙ own in
            let same = slot.1 (rw own refl) in
            rw (enabled, kept, own, file, same)
              (stream_sink-written common least level text stack (file_named name))
      ]
    ]

-- In a library that any calls have left, and that is not initialised, the first call of logger_log
-- reads the environment, and the bytes of a message of a valid level in a call after it are written,
-- where there is memory for them, to where that environment sends it, whatever the environment is by
-- then: nowhere, if logging is off or the message is less important than the level; to stdout, if it
-- has level INFO and LOG_FILE is not set or does not open; else to the file of its level, if that is
-- set and can be used; else to LOG_FILE; else to stderr.
pub logger_log-written :
    (calls : List Call) (sys sys' : System) (first : ℤ) (text : Option (List ℕ)) (level : ℕ)
    (msg_text : List ℕ) (stack : Option Allocated)
    → (after_calls initial calls).initialized ≡ false
    → is_valid_level (pos level) ≡ true
    → let s = (logger_log sys (after_calls initial calls) first text).0 in
      let called = logger_log sys' s (pos level) (some msg_text) in
      (called.0 ≡ s)
      × (written_to s level stack called.1 ≡ environment_sink sys (after_calls initial calls) level)
unfolding destination environment_sink written_to
logger_log-written calls sys sys' first text level msg_text stack off valid =
    let s = after_calls initial calls in
    let s' = (logger_log sys s first text).0 in
    let called = logger_log-destination calls sys sys' first text level msg_text off valid in
    let begun = log_first sys s first text off in
    let sink : written_to s' level stack (destination sys s level msg_text)
        ≡ environment_sink sys s level =
      elim (Bool-cases (check_logging_enabled sys s.env_prefix)) [
        | inl enabled ↦
            let on : s' ≡ start_logging sys s = rw enabled at begun in
            ap (λ t. written_to t level stack (destination sys s level msg_text)) on
            ∙ written_to-environment sys s level msg_text stack (after_calls-Consistent calls) off
                valid enabled
        | inr disabled ↦ rw disabled refl
      ] in
    (ap (λ c. c.0) called, ap (λ c. written_to s' level stack c.1) called ∙ sink)
