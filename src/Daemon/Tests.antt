-- ===== src/Daemon/Tests.antt =====
-- 15_daemon: a daemon with the number 7 that serves one client, and a second one.
use otus_c_prog.Common.{
  ℕ, ◌≡◌, ◌≢◌, refl, ◌⊎◌, true, false, none, some, List, [], ◌∷◌, ◌==◌, if◌then◌else◌, arith,
}
use otus_c_prog.Common.Text.{codes, same}
use otus_c_prog.Common.Decimal.{decimal}
use otus_c_prog.Common.Getopt.{getopt}
use otus_c_prog.Daemon.Config.{load_config}
use otus_c_prog.Daemon.Config.Mapping.{mapping, last_value, all_three, load_config-mapping}
use otus_c_prog.Daemon.PidFile.{
  Signalled, running, no_process, check_pid_file, create_pid_file, check_pid_file-create_pid_file,
}
use otus_c_prog.Daemon.Server.{size, whole, Turn, Network, Server, run_server}
use otus_c_prog.Daemon.Server.Served.{
  Refused, Serves, is_ready, loop_end, messages, turns_taken, run_server-Serves,
}
use otus_c_prog.Daemon.Main.{System, undefined, serving, main, is_child, parse_options}
use otus_c_prog.Daemon.Main.Started.{LeavesFile, main_second, main-c_option}

abbrev lines : List (List ℕ × List ℕ)
lines =
    (codes "file_path", codes "/a")
    ∷ ((codes "mode", codes "slow")
        ∷ ((codes "socket_path", codes "/s")
            ∷ ((codes "pid_path", codes "/p") ∷ ((codes "file_path", codes "/b") ∷ []))))

load_config-mapping_example :
    load_config (λ n. true) true (some (mapping lines))
    ≡ all_three
        (last_value none (codes "file_path") lines)
        (last_value none (codes "socket_path") lines)
        (last_value none (codes "pid_path") lines)
unfolding same
load_config-mapping_example =
    load_config-mapping (λ n. true) (λ n. refl) lines (refl, (refl, (refl, (refl, (refl, tt)))))

last_file_path : last_value none (codes "file_path") lines ≡ some (codes "/b")
unfolding same
last_file_path = refl

-- A value that is spelled like an option takes the key behind it for the option's value.
misread :
    load_config
      (λ n. true)
      true
      (some (
        mapping (
          (codes "mode", codes "file_path")
          ∷ ((codes "socket_path", codes "/s") ∷ ((codes "pid_path", codes "/p") ∷ [])))))
    ≡ none
unfolding load_config same
misread = refl

abbrev only_seven : ℕ → Signalled
only_seven n = if n == 7 then running else no_process

check_pid_file-create_pid_file_example :
    ((only_seven 7 ≡ no_process)
      × (check_pid_file true only_seven (create_pid_file true 7) ≡ (true, none)))
    ⊎ ((only_seven 7 ≢ no_process)
        × (check_pid_file true only_seven (create_pid_file true 7)
            ≡ (false, create_pid_file true 7)))
check_pid_file-create_pid_file_example =
    check_pid_file-create_pid_file only_seven 7 (omega arith) (omega arith)

abbrev network : Network
network = record {
  strdup = true;
  socket = true;
  bind = true;
  listen = true;
  path_fits = true;
  signalled = false;
}

abbrev one_client : List Turn
one_client =
    record { client = some (size 35, whole); signalled = false }
    ∷ (record { client = none; signalled = true } ∷ [])

run_server-Serves_example :
    ((is_ready network ≡ false) × Refused (run_server network false one_client))
    ⊎ ((is_ready network ≡ true)
        × Serves
            (run_server network false one_client)
            true
            (loop_end network one_client)
            (messages (turns_taken network one_client)))
run_server-Serves_example = run_server-Serves network false one_client (omega arith, (tt, tt))

told_the_size : (run_server network false one_client).sent ≡ codes "35\n" ∷ []
unfolding run_server decimal
told_the_size = refl

abbrev system : List Turn → ℕ → System
system turns pid = record {
  read_config = λ name. some (mapping lines);
  room = true;
  memory = λ n. true;
  reads = true;
  kill = only_seven;
  forks = record { first = is_child; setsid = true; second = is_child; chdir = true };
  pid = pid;
  creates = true;
  stored = true;
  network = network;
  socket_exists = false;
  turns = turns;
}

abbrev waiting : Server
waiting = run_server network false []

first_serves : main (system [] 7) (codes "-d" ∷ []) none ≡ serving waiting (create_pid_file true 7)
unfolding main parse_options getopt load_config same check_pid_file run_server
first_serves = refl

main_second_example :
    LeavesFile
      (create_pid_file true 7)
      (main (system [] 8) (codes "-d" ∷ []) (create_pid_file true 7))
main_second_example =
    main_second (system [] 7) (system [] 8) (codes "-d" ∷ []) (codes "-d" ∷ []) none
      (create_pid_file true 7) waiting first_serves refl refl (omega arith) (omega arith)
      (ground arith)

main-c_option_example :
    main (system [] 7) (codes "-c" ∷ (codes "/etc/filesizer.yaml" ∷ [])) none ≡ undefined
main-c_option_example =
    main-c_option (system [] 7) b'/' (codes "etc/filesizer.yaml") [] none (ground arith)
