-- ===== src/Daemon/Main/Started.antt =====
-- 15_daemon/main.c: one daemon at a time, and the option for the configuration.
use otus_c_prog.Common.{
  ℕ, ◌<◌, ◌≤◌, ◌≡◌, ◌≢◌, refl, ap, ◌∙◌, inl, inr, Bool, true, false, Option, none, some, List, [],
  ◌∷◌, if◌then◌else◌, arith,
}
use otus_c_prog.Common.Text.{codes}
use otus_c_prog.Common.Getopt.{getopt, letters, kind}
use otus_c_prog.Daemon.Config.{Config, load_config}
use otus_c_prog.Daemon.PidFile.{
  Signalled, no_process, check_pid_file, create_pid_file, int_max, check_pid_file-create_pid_file,
}
use otus_c_prog.Daemon.Server.{Returned, not_yet, returned, by_signal, Server, run_server}
use otus_c_prog.Daemon.Main.{
  Chosen, starts, exits, choose, parse_options, daemonize, System, Outcome, undefined, ended,
  serving, after_server, serve_requests, become_daemon, checked_start, configured_start,
  chosen_start, main,
}

-- A system whose program serves has its own number in the file.
after_server-serving :
    (s t : Server) (r : Returned) (file f : Option (List ℕ))
    → after_server s r file ≡ serving t f
    → file ≡ f
unfolding after_server
after_server-serving s t not_yet file f e = cc
after_server-serving s t (returned status) file f e = cc
after_server-serving s t by_signal file f e = cc

serve_requests-serving :
    (sys : System) (t : Server) (file f : Option (List ℕ))
    → serve_requests sys file ≡ serving t f
    → f ≡ create_pid_file sys.stored sys.pid
unfolding serve_requests
serve_requests-serving sys t file f e = ground (
  arith,
  after_server-serving (run_server sys.network sys.socket_exists sys.turns) t
      (run_server sys.network sys.socket_exists sys.turns).result
      (create_pid_file sys.stored sys.pid) f,
)

become_daemon-serving :
    (sys : System) (t : Server) (file f : Option (List ℕ)) (d : Option Bool)
    → become_daemon sys file d ≡ serving t f
    → f ≡ create_pid_file sys.stored sys.pid
unfolding become_daemon
become_daemon-serving sys t file f none e = serve_requests-serving sys t file f e
become_daemon-serving sys t file f (some status) e = cc

checked_start-serving :
    (sys : System) (t : Server) (f : Option (List ℕ)) (flag : Bool) (r : Bool × Option (List ℕ))
    → checked_start sys flag r ≡ serving t f
    → f ≡ create_pid_file sys.stored sys.pid
unfolding checked_start
checked_start-serving sys t f flag (false, after) e = cc
checked_start-serving sys t f flag (true, after) e =
    become_daemon-serving sys t after f (if flag then daemonize sys.forks else none) e

configured_start-serving :
    (sys : System) (t : Server) (file f : Option (List ℕ)) (flag : Bool) (c : Option Config)
    → configured_start sys flag file c ≡ serving t f
    → f ≡ create_pid_file sys.stored sys.pid
unfolding configured_start
configured_start-serving sys t file f flag none e = cc
configured_start-serving sys t file f flag (some c) e =
    checked_start-serving sys t f flag (check_pid_file sys.reads sys.kill file) e

chosen_start-serving :
    (sys : System) (t : Server) (file f : Option (List ℕ)) (c : Chosen)
    → chosen_start sys file c ≡ serving t f
    → f ≡ create_pid_file sys.stored sys.pid
unfolding chosen_start
chosen_start-serving sys t file f (exits status) e = cc
chosen_start-serving sys t file f (starts flag none) e = cc
chosen_start-serving sys t file f (starts flag (some name)) e =
    configured_start-serving sys t file f flag
      (load_config sys.memory sys.room (sys.read_config name)) e

-- The program has ended and left the file as it was, or had no name for its configuration.
abbrev pub LeavesFile : Option (List ℕ) → Outcome → Type 0
LeavesFile file undefined = Unit
LeavesFile file (ended status after) = after ≡ file
LeavesFile file (serving s after) = ⊥

configured_start-refused :
    (sys : System) (file : Option (List ℕ)) (flag : Bool) (c : Option Config)
    → check_pid_file sys.reads sys.kill file ≡ (false, file)
    → LeavesFile file (configured_start sys flag file c)
unfolding configured_start checked_start
configured_start-refused sys file flag none e = refl
configured_start-refused sys file flag (some c) e = rw e refl

chosen_start-refused :
    (sys : System) (file : Option (List ℕ)) (c : Chosen)
    → check_pid_file sys.reads sys.kill file ≡ (false, file)
    → LeavesFile file (chosen_start sys file c)
unfolding chosen_start
chosen_start-refused sys file (exits status) e = refl
chosen_start-refused sys file (starts flag none) e = tt
chosen_start-refused sys file (starts flag (some name)) e =
    configured_start-refused sys file flag (load_config sys.memory sys.room (sys.read_config name))
      e

check-refused :
    (kill : ℕ → Signalled) (pid : ℕ)
    → 0 < pid
    → pid ≤ int_max
    → kill pid ≢ no_process
    → check_pid_file true kill (create_pid_file true pid) ≡ (false, create_pid_file true pid)
check-refused kill pid p h alive = elim (check_pid_file-create_pid_file kill pid p h) [
  | inl (gone, e) ↦ absurd (alive gone)
  | inr (there, e) ↦ e
]

-- While a program serves, with a positive int as its number that has got into the file, and its
-- process is there for a second one that is started over the same file and can read it, whatever
-- else the arguments and the system of the second are: the second one does not serve, and leaves
-- the file as it is, unless it has no name for its configuration.
pub main_second :
    (first second : System) (args args' : List (List ℕ)) (file f : Option (List ℕ)) (s : Server)
    → main first args file ≡ serving s f
    → first.stored ≡ true
    → second.reads ≡ true
    → 0 < first.pid
    → first.pid ≤ int_max
    → second.kill first.pid ≢ no_process
    → LeavesFile f (main second args' f)
unfolding main
main_second first second args args' file f s e stored reads p h alive =
    let own =
      chosen_start-serving first s file f (parse_options args) e
      ∙ ap (λ b. create_pid_file b first.pid) stored in
    let refused = check-refused second.kill first.pid p h alive in
    chosen_start-refused second f (parse_options args') (rw (reads, own) refused)

-- Behind the option -c, main takes no name for its configuration, whatever stands there, as long as
-- it does not begin with a dash.
pub main-c_option :
    (sys : System) (c : ℕ) (name : List ℕ) (args : List (List ℕ)) (file : Option (List ℕ))
    → c ≢ b'-'
    → main sys (codes "-c" ∷ ((c ∷ name) ∷ args)) file ≡ undefined
unfolding main parse_options getopt letters kind choose chosen_start
main-c_option sys c [] args file h = refl
main-c_option sys c (d ∷ ds) [] file h = ground arith
main-c_option sys c (d ∷ ds) (a ∷ args) file h = ground arith
