-- ===== src/Daemon/Config.antt =====
-- 15_daemon/config.c: load_config. The events of the YAML library are a parameter.
pub mod Mapping
use otus_c_prog.Common.{
  ℕ, ◌+◌, Bool, true, false, ◌||◌, Option, none, some, List, [], ◌∷◌, if◌then◌else◌,
}
use otus_c_prog.Common.Text.{codes, same}

pub record Config : Type 0 where
  pub file_path : Option (List ℕ)
  pub socket_path : Option (List ℕ)
  pub pid_path : Option (List ℕ)

-- What yaml_parser_parse gives, call after call: scalars and other events, and at last the end of
-- the stream or an error.
pub data Events : Type 0 where
  scalar : List ℕ → Events → Events
  other : Events → Events
  stream_end : Events
  parse_error : Events

-- The variables of the loop, and how many texts strdup was asked to copy.
pub record Loading : Type 0 where
  pub config : Config
  pub in_file_path : Bool
  pub in_socket_path : Bool
  pub in_pid_path : Bool
  pub copies : ℕ

abbrev pub empty : Config
empty = record { file_path = none; socket_path = none; pid_path = none }

unfoldable pub at_start : Loading
at_start = record {
  config = empty;
  in_file_path = false;
  in_socket_path = false;
  in_pid_path = false;
  copies = 0;
}

abbrev pub is_null : Option (List ℕ) → Bool
is_null none = true
is_null (some s) = false

unfoldable pub checked : Option Config → Option Config
checked none = none
checked (some c) =
    if is_null c.file_path || is_null c.socket_path || is_null c.pid_path then none else some c

-- `memory` tells which calls of strdup find memory.
module _ (memory : ℕ → Bool) where
  unfoldable pub strdup : Loading → List ℕ → Option (List ℕ)
  strdup l text = if memory l.copies then some text else none

  -- A scalar, in the branches of the switch.
  unfoldable pub take_scalar : Loading → List ℕ → Loading
  unfolding strdup
  take_scalar l text =
      if l.in_file_path
      then record l {
        config = record (l.config) { file_path = strdup l text };
        in_file_path = false;
        copies = l.copies + 1;
      }
      else if l.in_socket_path
      then record l {
        config = record (l.config) { socket_path = strdup l text };
        in_socket_path = false;
        copies = l.copies + 1;
      }
      else if l.in_pid_path
      then record l {
        config = record (l.config) { pid_path = strdup l text };
        in_pid_path = false;
        copies = l.copies + 1;
      }
      else if same text (codes "file_path")
      then record l { in_file_path = true }
      else if same text (codes "socket_path")
      then record l { in_socket_path = true }
      else if same text (codes "pid_path")
      then record l { in_pid_path = true }
      else l

  -- The loop; `none` is the branch that frees the configuration.
  unfoldable pub load : Loading → Events → Option Config
  load l (scalar text events) = load (take_scalar l text) events
  load l (other events) = load l events
  load l stream_end = some l.config
  load l parse_error = none

  -- load_config on the events of the file, or on no file; `room` tells whether calloc succeeds.
  unfoldable pub load_config : Bool → Option Events → Option Config
  unfolding load checked take_scalar at_start
  load_config room none = none
  load_config room (some events) = if room then checked (load at_start events) else none
