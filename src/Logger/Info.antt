-- ===== src/Logger/Info.antt =====
-- 12_error_handling/logger.c: messages of level INFO that have a file of their own.
use otus_c_prog.Common.{
  ℕ, ◌≡◌, refl, ap, ◌∙◌, ◌⊎◌, inl, inr, Bool, true, false, List, Option, none, some,
}
use otus_c_prog.Common.Int.{ℤ, pos, ltb_ℤ}
use otus_c_prog.Common.Text.{codes}
use otus_c_prog.Logger.Levels.{log_info, is_valid_level}
use otus_c_prog.Logger.State.{
  System, std_err, LoggerState, initial, not_empty, open_common, level_of, get_env_with_prefix,
  check_logging_enabled, start_logging, is_file, queued, logger_log,
}
use otus_c_prog.Logger.Calls.{Call, after_calls}
use otus_c_prog.Logger.Routed.{own_file, destination, log_first, logger_log-destination}
use otus_c_prog.Logger.Write.{to_stdout, Allocated, is_level, is_std_err, write_single_log_message}

written_to_stdout :
    (current_level : ℤ) (msg_text : List ℕ) (stack : Option Allocated) (memory : Bool)
    → (write_single_log_message std_err current_level (pos log_info) msg_text stack memory ≡ none)
      ⊎ ((bytes : List ℕ) × (write_single_log_message std_err current_level
              (pos log_info)
              msg_text
              stack
              memory
            ≡ some (to_stdout, bytes)))
unfolding write_single_log_message is_level is_std_err
written_to_stdout current_level msg_text stack false = inl refl
written_to_stdout current_level msg_text stack true = inr (_, refl)

-- Where logging is on, LOG_FILE is not set and the file for INFO is open, a message of level INFO is
-- put into the queue for that file, and whatever writes it with the settings of that state writes
-- it to stdout, if it writes at all.
pub info-stdout :
    (calls : List Call) (sys sys' : System) (first : Option (List ℕ)) (msg_text name : List ℕ)
    → (after_calls initial calls).initialized ≡ false
    → check_logging_enabled sys (after_calls initial calls).env_prefix ≡ true
    → ltb_ℤ
        (level_of sys (after_calls initial calls).current_level (
          not_empty
            (get_env_with_prefix sys (after_calls initial calls).env_prefix (codes "LOG_LEVEL"))))
        (pos log_info)
      ≡ false
    → not_empty (get_env_with_prefix sys (after_calls initial calls).env_prefix (codes "LOG_FILE"))
      ≡ none
    → own_file sys (after_calls initial calls).env_prefix log_info ≡ some name
    → (s : LoggerState) × (logger_log sys'
          (logger_log sys (after_calls initial calls) (pos log_info) first).0
          (pos log_info)
          (some msg_text)
        ≡ (s, queued log_info msg_text))
      × ((stack : Option Allocated) (memory : Bool)
          → (write_single_log_message s.common_file s.current_level
                (pos log_info)
                msg_text
                stack
                memory
              ≡ none)
            ⊎ ((bytes : List ℕ) × (write_single_log_message s.common_file s.current_level
                    (pos log_info)
                    msg_text
                    stack
                    memory
                  ≡ some (to_stdout, bytes))))
unfolding destination is_valid_level start_logging open_common is_file
info-stdout calls sys sys' first msg_text name off enabled level unset own =
    let s = after_calls initial calls in
    let s' = (logger_log sys s (pos log_info) first).0 in
    let there =
      logger_log-destination calls sys sys' (pos log_info) first log_info msg_text off refl in
    let begun = log_first sys s (pos log_info) first off in
    let state : s' ≡ start_logging sys s = rw enabled at begun in
    let common : s'.common_file ≡ std_err =
      ap (λ (t : LoggerState). t.common_file) state ∙ rw unset refl in
    let queue : destination sys s log_info msg_text ≡ queued log_info msg_text =
      rw (enabled, level, own) refl in
    (
      s',
      there ∙ ap (λ d. (s', d)) queue,
      λ stack memory. rw common (written_to_stdout s'.current_level msg_text stack memory),
    )
