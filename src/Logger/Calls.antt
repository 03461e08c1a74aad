-- ===== src/Logger/Calls.antt =====
-- 12_error_handling/logger.c: what holds of the library after any calls of its functions.
use otus_c_prog.Common.{
  ℕ, ◌≤◌, ◌≡◌, refl, sym, ◌∙◌, inl, inr, not, Bool, true, false, if◌then◌else◌, List, [], ◌∷◌,
  length, replicate, Option, none, some, arith, Bool-cases, length-take, get_or-replicate,
}
use mathlib.Core.Bool.{true≢false}
use otus_c_prog.Common.Int.{ℤ}
use otus_c_prog.Logger.Levels.{is_valid_level, level_from_string-valid}
use otus_c_prog.Logger.State.{
  System, CommonFile, no_file, std_err, opened, AsyncSlot, no_logger, LoggerState, initial,
  level_of, valid_levels, check_logging_enabled, start_logging, do_init, logger_init, prefix_of,
  logger_set_env_prefix, logger_set_level, is_file, is_open, destroy_loggers, close_common,
  logger_shutdown, logger_log,
}
use otus_c_prog.Logger.Slots.{
  logger_at, member, open_after, open_created, length-create_loggers, length-destroy_loggers,
  levels_fit,
}

-- A call of a public function, with the environment that it finds.
pub data Call : Type 0 where
  set_env_prefix : Option (List ℕ) → Call
  init : System → Call
  set_level : ℤ → Call
  log : System → ℤ → Option (List ℕ) → Call
  shutdown : Call

unfoldable pub after_call : LoggerState → Call → LoggerState
after_call s (set_env_prefix prefix) = logger_set_env_prefix s prefix
after_call s (init sys) = logger_init sys s
after_call s (set_level level) = logger_set_level s level
after_call s (log sys level msg_text) = (logger_log sys s level msg_text).0
after_call s shutdown = logger_shutdown s

unfoldable pub after_calls : LoggerState → List Call → LoggerState
after_calls s [] = s
after_calls s (call ∷ calls) = after_calls (after_call s call) calls

pub record Consistent (s : LoggerState) : Type 0 where
  pub level_valid : is_valid_level s.current_level ≡ true
  pub prefix_le : length s.env_prefix ≤ 63
  pub eight : length s.async_loggers ≡ 8
  pub only_valid :
      (level : ℕ)
      → is_open (logger_at s.async_loggers level) ≡ true
      → member level valid_levels ≡ true
  pub closed :
      s.initialized ≡ false
      → ((level : ℕ) → is_open (logger_at s.async_loggers level) ≡ false)
        × (close_common s.common_file ≡ s.common_file)

level_of-valid :
    (sys : System) (current_level : ℤ) (str : Option (List ℕ))
    → is_valid_level current_level ≡ true
    → is_valid_level (level_of sys current_level str) ≡ true
unfolding level_of
level_of-valid sys current_level none h = h
level_of-valid sys current_level (some str) h = level_from_string-valid sys.strtol (some str)

close_common_again : (file : CommonFile) → close_common (close_common file) ≡ close_common file
unfolding close_common
close_common_again no_file = refl
close_common_again std_err = refl
close_common_again (opened name) = refl

start_logging-Consistent :
    (sys : System) (s : LoggerState)
    → Consistent s
    → s.initialized ≡ false
    → Consistent (start_logging sys s)
unfolding start_logging
start_logging-Consistent sys s c off = record {
  level_valid = level_of-valid sys s.current_level _ c.level_valid;
  prefix_le = c.prefix_le;
  eight = length-create_loggers sys s.env_prefix valid_levels s.async_loggers ∙ c.eight;
  only_valid = λ level still.
      elim (open_created sys s.env_prefix valid_levels s.async_loggers level
        (levels_fit (length s.async_loggers) c.eight) still) [
          | inl before ↦ absurd (true≢false (sym before ∙ (c.closed off).0 level))
          | inr among ↦ among
        ];
  closed = λ h. absurd (true≢false h);
}

if-Consistent :
    (b : Bool) (s t : LoggerState)
    → (b ≡ true → Consistent s)
    → (b ≡ false → Consistent t)
    → Consistent (if b then s else t)
if-Consistent true s t first second = first refl
if-Consistent false s t first second = second refl

do_init-Consistent : (sys : System) (s : LoggerState) → Consistent s → Consistent (do_init sys s)
unfolding do_init
do_init-Consistent sys s c =
    if-Consistent s.initialized s _ (λ on. c)
      (λ off.
        if-Consistent (check_logging_enabled sys s.env_prefix) (start_logging sys s) _
          (λ enabled. start_logging-Consistent sys s c off)
          (λ disabled. record {
            level_valid = c.level_valid;
            prefix_le = c.prefix_le;
            eight = c.eight;
            only_valid = c.only_valid;
            closed = λ h. absurd (true≢false h);
          }))

logger_init-Consistent :
    (sys : System) (s : LoggerState) → Consistent s → Consistent (logger_init sys s)
unfolding logger_init
logger_init-Consistent sys s c =
    if-Consistent (not s.initialized) _ s (λ off. do_init-Consistent sys s c) (λ on. c)

prefix_of-le : (prefix : Option (List ℕ)) → length (prefix_of prefix) ≤ 63
unfolding prefix_of
prefix_of-le none = omega arith
prefix_of-le (some prefix) = omega (arith, length-take 63 prefix)

set_prefix-Consistent :
    (s : LoggerState) (prefix : Option (List ℕ))
    → Consistent s
    → Consistent (logger_set_env_prefix s prefix)
unfolding logger_set_env_prefix
set_prefix-Consistent s prefix c =
    if-Consistent s.initialized s _ (λ on. c)
      (λ off. record {
        level_valid = c.level_valid;
        prefix_le = prefix_of-le prefix;
        eight = c.eight;
        only_valid = c.only_valid;
        closed = c.closed;
      })

set_level-Consistent :
    (s : LoggerState) (level : ℤ) → Consistent s → Consistent (logger_set_level s level)
unfolding logger_set_level
set_level-Consistent s level c =
    if-Consistent (is_valid_level level) _ s
      (λ valid. record {
        level_valid = valid;
        prefix_le = c.prefix_le;
        eight = c.eight;
        only_valid = c.only_valid;
        closed = c.closed;
      })
      (λ other. c)

shutdown-Consistent : (s : LoggerState) → Consistent s → Consistent (logger_shutdown s)
unfolding logger_shutdown
shutdown-Consistent s c =
    if-Consistent (not s.initialized) s _ (λ off. c)
      (λ on. record {
        level_valid = c.level_valid;
        prefix_le = c.prefix_le;
        eight = length-destroy_loggers valid_levels s.async_loggers ∙ c.eight;
        only_valid = λ level still. absurd (none_open level still);
        closed = λ _. (all_closed, close_common_again s.common_file);
      })
  where
    none_open :
        (level : ℕ)
        → ¬ (is_open (logger_at (destroy_loggers valid_levels s.async_loggers) level) ≡ true)
    none_open level still =
        let (before, apart) =
          open_after valid_levels s.async_loggers level
            (levels_fit (length s.async_loggers) c.eight) still in
        true≢false (sym (c.only_valid level before) ∙ apart)

    all_closed :
        (level : ℕ)
        → is_open (logger_at (destroy_loggers valid_levels s.async_loggers) level) ≡ false
    all_closed level =
        elim (Bool-cases
          (is_open (logger_at (destroy_loggers valid_levels s.async_loggers) level))) [
            | inl still ↦ absurd (none_open level still)
            | inr shut ↦ shut
          ]

after_call-Consistent :
    (s : LoggerState) (call : Call) → Consistent s → Consistent (after_call s call)
unfolding after_call logger_log
after_call-Consistent s (set_env_prefix prefix) c = set_prefix-Consistent s prefix c
after_call-Consistent s (init sys) c = logger_init-Consistent sys s c
after_call-Consistent s (set_level level) c = set_level-Consistent s level c
after_call-Consistent s (log sys level msg_text) c = logger_init-Consistent sys s c
after_call-Consistent s shutdown c = shutdown-Consistent s c

all_calls : (s : LoggerState) (calls : List Call) → Consistent s → Consistent (after_calls s calls)
unfolding after_calls
all_calls s [] c = c
all_calls s (call ∷ calls) c = all_calls (after_call s call) calls (after_call-Consistent s call c)

initial-Consistent : Consistent initial
unfolding initial is_valid_level is_open is_file close_common
initial-Consistent = record {
  level_valid = refl;
  prefix_le = omega arith;
  eight = refl;
  only_valid = λ level still. absurd (true≢false (sym still ∙ shut level));
  closed = λ _. (shut, refl);
}
  where
    shut : (level : ℕ) → is_open (logger_at (replicate 8 no_logger) level) ≡ false
    shut level = rw (get_or-replicate {A = AsyncSlot} 8 level no_logger)

-- After any calls of the public functions, in whatever environments, the current level is one of the
-- four, the prefix fits its buffer, only the files of the four levels are open, and between
-- logger_shutdown and the next use none is, nor a common file.
pub after_calls-Consistent : (calls : List Call) → Consistent (after_calls initial calls)
after_calls-Consistent calls = all_calls initial calls initial-Consistent
