-- ===== src/Logger/State.antt =====
-- 12_error_handling/logger.c: the state of the library and its public functions.
use otus_c_prog.Common.{
  ℕ, ◌==◌, leb, ltb, ◌&&◌, not, Bool, true, false, if◌then◌else◌, List, [], ◌∷◌, take, length,
  get_or, set, replicate, Option, none, some,
}
use otus_c_prog.Common.Int.{ℤ, pos, negsuc, ltb_ℤ}
use otus_c_prog.Common.Text.{codes}
use otus_c_prog.Logger.Levels.{
  log_error, log_warning, log_info, log_debug, is_valid_level, level_from_string, make_env_name,
  is_switch_on,
}

-- The environment, and whether a file opens for appending, a thread starts; what strtol reads in base
-- 10, the value and the rest of the text.
pub record System : Type 0 where
  pub getenv : List ℕ → Option (List ℕ)
  pub opens : List ℕ → Bool
  pub starts : ℕ → Bool
  pub strtol : List ℕ → ℤ × List ℕ

-- `common_file`: NULL, stderr or the file of a name.
pub data CommonFile : Type 0 where
  no_file : CommonFile
  std_err : CommonFile
  opened : List ℕ → CommonFile

-- `async_logger_t` without its queue: `file` is the name of the open file.
pub record AsyncSlot : Type 0 where
  pub file : Option (List ℕ)
  pub running : Bool
  pub level : ℕ

pub record LoggerState : Type 0 where
  pub env_prefix : List ℕ
  pub logging_enabled : Bool
  pub current_level : ℤ
  pub common_file : CommonFile
  pub async_loggers : List AsyncSlot
  pub initialized : Bool

abbrev pub no_logger : AsyncSlot
no_logger = record { file = none; running = false; level = 0 }

-- The static variables at the start.
unfoldable pub initial : LoggerState
initial = record {
  env_prefix = [];
  logging_enabled = false;
  current_level = pos log_error;
  common_file = no_file;
  async_loggers = replicate 8 no_logger;
  initialized = false;
}

-- A variable that is set, and not to the empty text.
unfoldable pub not_empty : Option (List ℕ) → Option (List ℕ)
not_empty none = none
not_empty (some []) = none
not_empty (some (c ∷ s)) = some (c ∷ s)

unfoldable pub open_common : System → Option (List ℕ) → CommonFile
open_common sys none = std_err
open_common sys (some name) = if sys.opens name then opened name else std_err

unfoldable pub level_of : System → ℤ → Option (List ℕ) → ℤ
level_of sys current_level none = current_level
level_of sys current_level (some str) = level_from_string sys.strtol (some str)

-- What create_async_logger leaves of a logger: on a failure only the file is missing.
unfoldable pub created_slot : System → ℕ → List ℕ → AsyncSlot
created_slot sys level filename = record {
  file = if sys.opens filename && sys.starts level then some filename else none;
  running = true;
  level = level;
}

-- `level >= 8` is a test against the length of the array.
unfoldable pub create_async_logger : System → List AsyncSlot → ℕ → List ℕ → List AsyncSlot
create_async_logger sys loggers level filename =
    if leb (length loggers) level
    then loggers
    else set loggers level (created_slot sys level filename)

unfoldable pub create_if_named : System → List AsyncSlot → ℕ → Option (List ℕ) → List AsyncSlot
create_if_named sys loggers level none = loggers
create_if_named sys loggers level (some filename) = create_async_logger sys loggers level filename

abbrev pub valid_levels : List ℕ
valid_levels = log_error ∷ log_warning ∷ log_info ∷ log_debug ∷ []

unfoldable pub suffix_of : ℕ → List ℕ
suffix_of level =
    if level == log_error
    then codes "ERROR_LOG_FILE"
    else if level == log_warning
    then codes "WARNING_LOG_FILE"
    else if level == log_info
    then codes "INFO_LOG_FILE"
    else codes "DEBUG_LOG_FILE"

module _ (sys : System) where
  unfoldable pub get_env_with_prefix : List ℕ → List ℕ → Option (List ℕ)
  get_env_with_prefix env_prefix suffix = sys.getenv (make_env_name env_prefix suffix)

  unfoldable pub check_logging_enabled : List ℕ → Bool
  check_logging_enabled env_prefix =
      is_switch_on (get_env_with_prefix env_prefix (codes "LOGGING_ENABLED"))

  -- The loop of do_init over the levels.
  unfoldable pub create_loggers : List ℕ → List ℕ → List AsyncSlot → List AsyncSlot
  create_loggers env_prefix [] loggers = loggers
  create_loggers env_prefix (level ∷ levels) loggers = create_loggers env_prefix levels (
      create_if_named sys loggers level
        (not_empty (get_env_with_prefix env_prefix (suffix_of level))))

  unfoldable pub start_logging : LoggerState → LoggerState
  start_logging s = record {
    env_prefix = s.env_prefix;
    logging_enabled = true;
    current_level =
        level_of sys s.current_level
          (not_empty (get_env_with_prefix s.env_prefix (codes "LOG_LEVEL")));
    common_file = open_common sys (not_empty (get_env_with_prefix s.env_prefix (codes "LOG_FILE")));
    async_loggers = create_loggers s.env_prefix valid_levels s.async_loggers;
    initialized = true;
  }

  unfoldable pub do_init : LoggerState → LoggerState
  do_init s =
      if s.initialized
      then s
      else if check_logging_enabled s.env_prefix
      then start_logging s
      else record s { logging_enabled = false; initialized = true }

  unfoldable pub logger_init : LoggerState → LoggerState
  logger_init s = if not s.initialized then do_init s else s

-- What is copied of a prefix by strncpy.
unfoldable pub prefix_of : Option (List ℕ) → List ℕ
prefix_of none = []
prefix_of (some prefix) = take 63 prefix

unfoldable pub logger_set_env_prefix : LoggerState → Option (List ℕ) → LoggerState
logger_set_env_prefix s prefix =
    if s.initialized then s else record s { env_prefix = prefix_of prefix }

unfoldable pub logger_set_level : LoggerState → ℤ → LoggerState
logger_set_level s level = if is_valid_level level then record s { current_level = level } else s

unfoldable pub is_file : Option (List ℕ) → Bool
is_file none = false
is_file (some name) = true

-- `async_loggers[lvl].file`
unfoldable pub is_open : AsyncSlot → Bool
is_open logger = is_file logger.file

-- destroy_async_logger, once the thread has ended.
unfoldable pub destroy_async_logger : AsyncSlot → AsyncSlot
destroy_async_logger logger =
    if is_open logger then record logger { file = none; running = false } else logger

-- The loop of logger_shutdown.
unfoldable pub destroy_loggers : List ℕ → List AsyncSlot → List AsyncSlot
destroy_loggers [] loggers = loggers
destroy_loggers (level ∷ levels) loggers =
    destroy_loggers levels
      (set loggers level (destroy_async_logger (get_or loggers level no_logger)))

unfoldable pub close_common : CommonFile → CommonFile
close_common no_file = no_file
close_common std_err = std_err
close_common (opened name) = no_file

unfoldable pub logger_shutdown : LoggerState → LoggerState
logger_shutdown s = if not s.initialized then s else record s {
  async_loggers = destroy_loggers valid_levels s.async_loggers;
  common_file = close_common s.common_file;
  initialized = false;
}

-- What becomes of a message: it is left out, put into the queue of a level, or written at once to the
-- common file.
pub data Delivery : Type 0 where
  left_out : Delivery
  queued : ℕ → List ℕ → Delivery
  at_once : CommonFile → List ℕ → Delivery

-- The logger of a level whose file is open.
unfoldable pub own_logger : LoggerState → ℤ → Option ℕ
own_logger s (pos level) =
    if ltb level 8 && is_open (get_or s.async_loggers level no_logger) then some level else none
own_logger s (negsuc level) = none

unfoldable pub send_to : LoggerState → Option ℕ → List ℕ → Delivery
send_to s (some level) msg_text = queued level msg_text
send_to s none msg_text = at_once s.common_file msg_text

unfoldable pub deliver : LoggerState → ℤ → Option (List ℕ) → Delivery
deliver s level none = left_out
deliver s level (some msg_text) = send_to s (own_logger s level) msg_text

-- logger_log with what format_log_message makes of the message, NULL without memory.
unfoldable pub logger_log : System → LoggerState → ℤ → Option (List ℕ) → LoggerState × Delivery
logger_log sys s level msg_text =
    let s' = logger_init sys s in
    (
      s',
      if not s'.logging_enabled
          then left_out
          else if ltb_ℤ s'.current_level level
          then left_out
          else deliver s' level msg_text,
    )
