-- ===== src/Daemon/Main.antt =====
-- 15_daemon/main.c: main. What the system calls return is a parameter; the path of the file with
-- the number of the process does not depend on the working directory.
pub mod Started
use otus_c_prog.Common.{
  ℕ, Bool, true, false, not, Option, none, some, List, [], ◌∷◌, ◌==◌, if◌then◌else◌,
}
use otus_c_prog.Common.Text.{codes}
use otus_c_prog.Common.Getopt.{Given, getopt}
use otus_c_prog.Daemon.Config.{Config, Events, load_config}
use otus_c_prog.Daemon.PidFile.{Signalled, check_pid_file, create_pid_file, remove_pid_file}
use otus_c_prog.Daemon.Server.{
  Network, Turn, Returned, not_yet, returned, by_signal, Server, run_server,
}

-- The loop over the options: whether to become a daemon and the name of the file of options, which
-- may be NULL; or an exit, with success or not.
pub data Chosen : Type 0 where
  starts : Bool → Option (List ℕ) → Chosen
  exits : Bool → Chosen

unfoldable pub choose : Bool → Option (List ℕ) → List Given → Chosen
choose daemonize_flag config_file [] = starts daemonize_flag config_file
choose daemonize_flag config_file ((opt, optarg) ∷ rest) =
    let with_d = choose true config_file rest in
    let with_c = choose daemonize_flag optarg rest in
    if opt == b'd'
    then with_d
    else if opt == b'c'
    then with_c
    else if opt == b'h'
    then exits true
    else exits false

unfoldable pub parse_options : List (List ℕ) → Chosen
unfolding choose
parse_options args = choose false (some (codes "config.yaml")) (getopt (codes "dch:") args).0

pub data Fork : Type 0 where
  fork_failed : Fork
  is_parent : Fork
  is_child : Fork

-- What fork, setsid, fork and chdir give.
pub record Forks : Type 0 where
  pub first : Fork
  pub setsid : Bool
  pub second : Fork
  pub chdir : Bool

-- A fork in daemonize, with what follows in the child.
unfoldable pub forked : Fork → Option Bool → Option Bool
forked fork_failed then_child = some false
forked is_parent then_child = some true
forked is_child then_child = then_child

-- daemonize: an _exit with success or not, or nothing when it returns.
unfoldable pub daemonize : Forks → Option Bool
unfolding forked
daemonize f = forked f.first (
    if not f.setsid then some false else forked f.second (if not f.chdir then some false else none))

pub record System : Type 0 where
  pub read_config : List ℕ → Option Events
  pub room : Bool
  pub memory : ℕ → Bool
  pub reads : Bool
  pub kill : ℕ → Signalled
  pub forks : Forks
  pub pid : ℕ
  pub creates : Bool
  pub stored : Bool
  pub network : Network
  pub socket_exists : Bool
  pub turns : List Turn

-- How the program goes: fopen got NULL; it has exited, with success or not, and left the file with
-- the number of a process as it is now; or it serves, with that file.
pub data Outcome : Type 0 where
  undefined : Outcome
  ended : Bool → Option (List ℕ) → Outcome
  serving : Server → Option (List ℕ) → Outcome

-- The exit after run_server, with the handler that removes the file; a process that SIGPIPE kills
-- runs no handler.
unfoldable pub after_server : Server → Returned → Option (List ℕ) → Outcome
unfolding remove_pid_file
after_server s not_yet file = serving s file
after_server s by_signal file = ended false file
after_server s (returned status) file = ended status (remove_pid_file file)

unfoldable pub serve_requests : System → Option (List ℕ) → Outcome
unfolding after_server create_pid_file
serve_requests sys file =
    if not sys.creates
    then ended false file
    else let s = run_server sys.network sys.socket_exists sys.turns in
      after_server s s.result (create_pid_file sys.stored sys.pid)

unfoldable pub become_daemon : System → Option (List ℕ) → Option Bool → Outcome
unfolding serve_requests
become_daemon sys file none = serve_requests sys file
become_daemon sys file (some status) = ended status file

-- main from the check of the file on, whose result is given.
unfoldable pub checked_start : System → Bool → Bool × Option (List ℕ) → Outcome
unfolding become_daemon daemonize
checked_start sys daemonize_flag (false, file) = ended false file
checked_start sys daemonize_flag (true, file) =
    become_daemon sys file (if daemonize_flag then daemonize sys.forks else none)

unfoldable pub configured_start : System → Bool → Option (List ℕ) → Option Config → Outcome
unfolding checked_start
configured_start sys daemonize_flag file none = ended false file
configured_start sys daemonize_flag file (some c) =
    checked_start sys daemonize_flag (check_pid_file sys.reads sys.kill file)

unfoldable pub chosen_start : System → Option (List ℕ) → Chosen → Outcome
unfolding configured_start
chosen_start sys file (exits status) = ended status file
chosen_start sys file (starts daemonize_flag none) = undefined
chosen_start sys file (starts daemonize_flag (some name)) =
    configured_start sys daemonize_flag file
      (load_config sys.memory sys.room (sys.read_config name))

-- main on the arguments behind the name of the program, and the file that there is.
unfoldable pub main : System → List (List ℕ) → Option (List ℕ) → Outcome
unfolding chosen_start
main sys args file = chosen_start sys file (parse_options args)
