-- ===== src/Logger/Routed.antt =====
-- 12_error_handling/logger.c: where the environment sends the messages.
use otus_c_prog.Common.{
  ℕ, ◌<◌, ◌==◌, ◌≡◌, leb, refl, sym, ap, ◌∙◌, inl, inr, ◌&&◌, not, ltb, true, false, if◌then◌else◌,
  List, [], ◌∷◌, length, Option, none, some, arith, Bool-cases,
}
use mathlib.Core.Path.{subst}
use otus_c_prog.Common.Int.{ℤ, pos, ltb_ℤ}
use otus_c_prog.Common.Text.{codes}
use otus_c_prog.Logger.Levels.{is_valid_level}
use otus_c_prog.Logger.State.{
  System, AsyncSlot, LoggerState, initial, not_empty, suffix_of, open_common, level_of,
  create_async_logger, created_slot, create_if_named, valid_levels, get_env_with_prefix,
  check_logging_enabled, create_loggers, start_logging, do_init, logger_init, is_file, is_open,
  Delivery, left_out, queued, at_once, own_logger, send_to, deliver, logger_log,
}
use otus_c_prog.Logger.Calls.{Consistent, Call, after_calls, after_calls-Consistent}
use otus_c_prog.Logger.Slots.{
  logger_at, member, Inside, set_at, length-create_if_named, created_apart, levels_fit,
  valid_member,
}

-- The file of a level's own logger, if its variable is set.
unfoldable pub opened_file : System → ℕ → Option (List ℕ) → Option (List ℕ)
opened_file sys level none = none
opened_file sys level (some name) = if sys.opens name && sys.starts level then some name else none

unfoldable pub own_file : System → List ℕ → ℕ → Option (List ℕ)
own_file sys env_prefix level =
    opened_file sys level (not_empty (get_env_with_prefix sys env_prefix (suffix_of level)))

-- Where the environment sends a message: nowhere, if logging is off or the message is less important
-- than the level; to the file of its level, if that can be used; else to the common file.
unfoldable pub destination : System → LoggerState → ℕ → List ℕ → Delivery
destination sys s level msg_text =
    if not (check_logging_enabled sys s.env_prefix)
    then left_out
    else if ltb_ℤ
        (level_of sys s.current_level
          (not_empty (get_env_with_prefix sys s.env_prefix (codes "LOG_LEVEL"))))
        (pos level)
    then left_out
    else if is_file (own_file sys s.env_prefix level)
    then queued level msg_text
    else at_once
        (open_common sys (not_empty (get_env_with_prefix sys s.env_prefix (codes "LOG_FILE"))))
        msg_text

-- No level stands twice in the list.
abbrev pub Once : List ℕ → Type 0
Once [] = Unit
Once (k ∷ ks) = (member k ks ≡ false) × Once ks

untouched :
    (sys : System) (env_prefix levels : List ℕ) (loggers : List AsyncSlot) (level : ℕ)
    → Inside (length loggers) levels
    → member level levels ≡ false
    → logger_at (create_loggers sys env_prefix levels loggers) level ≡ logger_at loggers level
unfolding create_loggers member Inside
untouched sys env_prefix [] loggers level inside absent = refl
untouched sys env_prefix (k ∷ levels) loggers level inside absent =
    let filename = not_empty (get_env_with_prefix sys env_prefix (suffix_of k)) in
    let created = create_if_named sys loggers k filename in
    let len = length-create_if_named sys loggers k filename in
    let apart : (k == level) ≡ false = ground (arith, absent) in
    let later : member level levels ≡ false = ground (arith, absent) in
    untouched sys env_prefix levels created level (subst (λ n. Inside n levels) (sym len) inside.1)
      later
    ∙ created_apart sys loggers k level filename inside.0 apart

no_file_open : (logger : AsyncSlot) → is_open logger ≡ false → logger.file ≡ none
unfolding is_open is_file
no_file_open logger h = ground (arith, h)

-- A logger with this file, which knows its level if it has one.
abbrev pub Created : ℕ → Option (List ℕ) → AsyncSlot → Type 0
Created level file slot = (slot.file ≡ file) × (is_file file ≡ true → slot.level ≡ level)

Created-here :
    (sys : System) (loggers : List AsyncSlot) (k : ℕ) (filename : Option (List ℕ))
    → k < length loggers
    → is_open (logger_at loggers k) ≡ false
    → Created k (opened_file sys k filename) (logger_at (create_if_named sys loggers k filename) k)
unfolding create_if_named create_async_logger created_slot opened_file is_file
Created-here sys loggers k none inside shut = (no_file_open (logger_at loggers k) shut, λ e. cc)
Created-here sys loggers k (some name) inside shut =
    let itself : (k == k) ≡ true = ground arith in
    let fits : leb (length loggers) k ≡ false = ground (arith, inside) in
    let here = set_at loggers k k (created_slot sys k name) inside in
    let slot = rw itself at here in
    rw fits (ap (λ (x : AsyncSlot). x.file) slot, λ own. ap (λ (x : AsyncSlot). x.level) slot)

pub Created-at :
    (sys : System) (env_prefix levels : List ℕ) (loggers : List AsyncSlot) (level : ℕ)
    → Inside (length loggers) levels
    → Once levels
    → member level levels ≡ true
    → is_open (logger_at loggers level) ≡ false
    → Created level
        (own_file sys env_prefix level)
        (logger_at (create_loggers sys env_prefix levels loggers) level)
unfolding create_loggers member Inside own_file
Created-at sys env_prefix [] loggers level inside once among shut = cc
Created-at sys env_prefix (k ∷ levels) loggers level inside once among shut =
    let filename = not_empty (get_env_with_prefix sys env_prefix (suffix_of k)) in
    let created = create_if_named sys loggers k filename in
    let len = length-create_if_named sys loggers k filename in
    let inside' = subst (λ n. Inside n levels) (sym len) inside.1 in
    elim (Bool-cases (k == level)) [
      | inl e ↦
          let at : k ≡ level = ground arith in
          subst
            (λ (x : ℕ).
              Created x
                (opened_file sys x (not_empty (get_env_with_prefix sys env_prefix (suffix_of x))))
                (logger_at (create_loggers sys env_prefix levels created) x))
            at
            (subst (Created k (opened_file sys k filename))
              (sym (untouched sys env_prefix levels created k inside' once.0))
              (Created-here sys loggers k filename inside.0
                (subst (λ x. is_open (logger_at loggers x) ≡ false) (sym at) shut)))
      | inr e ↦
          Created-at sys env_prefix levels created level inside' once.1 (rw e at among)
            (ap is_open (created_apart sys loggers k level filename inside.0 e) ∙ shut)
    ]

pub levels_distinct : Once valid_levels
unfolding member
levels_distinct = (refl, (refl, (refl, (refl, tt))))

-- logger_log of a library that is initialised leaves it as it is.
initialized_already :
    (sys : System) (s : LoggerState) → s.initialized ≡ true → logger_init sys s ≡ s
unfolding logger_init
initialized_already sys s on = ground (arith, on)

-- What logger_log does of a message in a library that is initialised.
verdict : LoggerState → ℤ → List ℕ → Delivery
verdict s level msg_text =
    if not s.logging_enabled
    then left_out
    else if ltb_ℤ s.current_level level
    then left_out
    else deliver s level (some msg_text)

log_again :
    (sys : System) (s : LoggerState) (level : ℤ) (msg_text : List ℕ)
    → s.initialized ≡ true
    → logger_log sys s level (some msg_text) ≡ (s, verdict s level msg_text)
unfolding logger_log verdict
log_again sys s level msg_text on =
    ap (λ t. (t, verdict t level msg_text)) (initialized_already sys s on)

below_eight : (level : ℕ) → is_valid_level (pos level) ≡ true → ltb level 8 ≡ true
unfolding is_valid_level
below_eight level h = ground (arith, h)

verdict-destination :
    (sys : System) (s : LoggerState) (level : ℕ) (msg_text : List ℕ)
    → Consistent s
    → s.initialized ≡ false
    → is_valid_level (pos level) ≡ true
    → check_logging_enabled sys s.env_prefix ≡ true
    → verdict (start_logging sys s) (pos level) msg_text ≡ destination sys s level msg_text
unfolding verdict start_logging destination deliver own_logger is_open send_to
verdict-destination sys s level msg_text c off valid enabled =
    let (file, _) =
      Created-at sys s.env_prefix valid_levels s.async_loggers level
        (levels_fit (length s.async_loggers) c.eight) levels_distinct (valid_member level valid)
        ((c.closed off).0 level) in
    elim (Bool-cases (is_file (own_file sys s.env_prefix level))) [
      | inl own ↦ rw (enabled, below_eight level valid, file, own) refl
      | inr other ↦ rw (enabled, below_eight level valid, file, other) refl
    ]

-- The first call of logger_log initialises the library.
pub log_first :
    (sys : System) (s : LoggerState) (level : ℤ) (msg_text : Option (List ℕ))
    → s.initialized ≡ false
    → (logger_log sys s level msg_text).0 ≡ (
        if check_logging_enabled sys s.env_prefix
        then start_logging sys s
        else record s { logging_enabled = false; initialized = true })
unfolding logger_log logger_init do_init
log_first sys s level msg_text off = rw off

-- In a library that any calls have left, and that is not initialised, the first call of logger_log
-- reads the environment, and a message of a valid level in a call after it goes where that
-- environment says, whatever the environment is by then.
pub logger_log-destination :
    (calls : List Call) (sys sys' : System) (first : ℤ) (text : Option (List ℕ)) (level : ℕ)
    (msg_text : List ℕ)
    → (after_calls initial calls).initialized ≡ false
    → is_valid_level (pos level) ≡ true
    → logger_log sys'
        (logger_log sys (after_calls initial calls) first text).0
        (pos level)
        (some msg_text)
      ≡ (
        (logger_log sys (after_calls initial calls) first text).0,
        destination sys (after_calls initial calls) level msg_text,
      )
unfolding verdict destination start_logging
logger_log-destination calls sys sys' first text level msg_text off valid =
    let s = after_calls initial calls in
    let begun = log_first sys s first text off in
    elim (Bool-cases (check_logging_enabled sys s.env_prefix)) [
      | inl enabled ↦
          let on = rw enabled at begun in
          rw on (
            log_again sys' (start_logging sys s) (pos level) msg_text refl
            ∙ ap (λ d. (start_logging sys s, d))
                (verdict-destination sys s level msg_text (after_calls-Consistent calls) off valid
                  enabled))
      | inr disabled ↦
          let silent = rw disabled at begun in
          rw (silent, disabled)
            (log_again sys' (record s { logging_enabled = false; initialized = true }) (pos level)
              msg_text refl)
    ]
