-- ===== src/HttpServer/Tests.antt =====
-- 23_http_server/main.c: a server with one file.
use otus_c_prog.Common.{
  ℕ, ◌+◌, ◌≡◌, refl, arith, Bool, true, if◌then◌else◌, List, [], ◌∷◌, ◌++◌, length, get_or, take,
  none, some, ◌≤◌,
}
use otus_c_prog.Common.Int.{pos}
use otus_c_prog.Common.Text.{codes, same}
use mathlib.Core.Option.{some-ne-none}
use otus_c_prog.HttpServer.{
  Connection, state_sending_header, state_closing, with_send, close_connection,
}
use otus_c_prog.HttpServer.Write.{
  sent, again, broken, read_error, read_more, handle_write, if_open, by_state, file_part, continue,
  next_block, with_block, send_block, after_header, to_file, send_rest,
}
use otus_c_prog.HttpServer.Sent.{Turn, writes, IsPrefix, Allowed, ReadAllowed}
use otus_c_prog.HttpServer.Sent.Calls.Served.{
  Answering, AllAllowed, TurnAllowed, writes-prefix, writes-whole,
}
use otus_c_prog.HttpServer.Request.{System, regular, missing, handle_request, bytes}
use otus_c_prog.HttpServer.Safe.{OpensSafely, handle_request-safe}
use otus_c_prog.HttpServer.Loop.{Waited, ready, failed, on_listener, on_read, main}
use otus_c_prog.HttpServer.Loop.Bounded.{Bounded, main-Bounded}
use otus_c_prog.HttpServer.Slots.{Slots, fresh, accept_connection, is_open, free_conns}
use otus_c_prog.HttpServer.Slots.Compact.{
  open_conns, Holds, free_conns-Holds, accept_connection-stale,
}
use otus_c_prog.HttpServer.Listen.{
  Calls, parse_args, setup_listen_socket, port_of, parse_address, parse_address-decimal,
}
use otus_c_prog.Common.Getopt.{getopt}
use otus_c_prog.Common.Decimal.{decimal, strtol}

abbrev file_path : List ℕ
file_path = codes "/srv//a.txt"

-- A parser of the one request of the example, and one file of five bytes.
abbrev sys : System
sys = record {
  sscanf = λ s. some (codes "GET", (codes "/a.txt", codes "HTTP/1.1"));
  strtol = λ s. (pos 0, 0);
  decimal = λ n. (48 + n) ∷ [];
  path_max = 4096;
  root_dir = codes "/srv";
  stat = λ path. if same path file_path then regular 5 else missing;
  readable = λ path. true;
  opens = λ path. if same path file_path then some 7 else none;
  registers = true;
}

abbrev request : List ℕ
request = codes "GET /a.txt HTTP/1.1" ++ (13 ∷ 10 ∷ 13 ∷ 10 ∷ [])

handle_request-safe_example :
    ((handle_request sys (fresh (some 4))).recv_buf ≡ [])
    × OpensSafely sys (handle_request sys (fresh (some 4))).file_fd
handle_request-safe_example = handle_request-safe sys (fresh (some 4)) refl

-- An answer of two bytes to a request for a file of three.
abbrev answering : Connection
answering = record {
  fd = some 4;
  state = state_sending_header;
  recv_buf = [];
  file_fd = some 7;
  file_offset = 0;
  file_size = 3;
  send_buf = 72 ∷ 73 ∷ [];
  send_sent = 0;
}

abbrev content : List ℕ
content = 1 ∷ 2 ∷ 3 ∷ []

answering-Answering : Answering answering
unfolding Answering
answering-Answering = (refl, (refl, (some-ne-none 7, refl)))

-- The header and two bytes of the file, the third, and its end.
abbrev turns : List Turn
turns =
    record { first = sent 2; read = read_more 8; second = sent 2 }
    ∷ record { first = sent 1; read = read_more 8; second = again }
    ∷ []

turns-Allowed : AllAllowed true content turns
unfolding AllAllowed TurnAllowed Allowed ReadAllowed
turns-Allowed = ((tt, (tt, tt)), ((tt, (tt, tt)), tt))

turns_close : (writes content turns answering).0.state ≡ state_closing
unfolding writes handle_write if_open by_state file_part continue next_block with_block send_block
    after_header to_file send_rest with_send close_connection
turns_close = refl

writes-prefix_example :
    IsPrefix
      (writes content
        (record { first = sent 1; read = read_error; second = broken } ∷ [])
        answering).1
      (answering.send_buf ++ content)
writes-prefix_example =
    writes-prefix content (record { first = sent 1; read = read_error; second = broken } ∷ [])
      answering answering-Answering

writes-whole_example : (writes content turns answering).1 ≡ answering.send_buf ++ content
writes-whole_example =
    writes-whole content turns answering answering-Answering turns-Allowed turns_close

-- A table with one slot that is closed and one that is open.
abbrev closed_one : Slots
closed_one = record { conns = fresh none ∷ fresh (some 5) ∷ []; nconns = 2 }

free_conns-Holds_example :
    Holds (free_conns closed_one) (open_conns (take closed_one.nconns closed_one.conns)) 2
free_conns-Holds_example = free_conns-Holds closed_one (omega arith)

one_open : length (open_conns (take 2 closed_one.conns)) ≡ 1
unfolding is_open
one_open = refl

last_open : is_open (get_or closed_one.conns 1 (fresh none)).fd ≡ true
unfolding is_open
last_open = refl

accept_connection-stale_example :
    let after = (accept_connection 6 true true (free_conns closed_one)).conns in
    (get_or after 0 (fresh none) ≡ fresh (some 5)) × (get_or after 1 (fresh none) ≡ fresh (some 6))
accept_connection-stale_example =
    accept_connection-stale closed_one 1 6 refl (omega arith) (omega arith) last_open one_open

parse_address-decimal_example :
    parse_address (codes "127.0.0.1" ++ (b':' ∷ decimal 8080)) ≡ some (codes "127.0.0.1", 8080)
parse_address-decimal_example =
    parse_address-decimal (codes "127.0.0.1") 8080 (omega arith) (omega arith) fits
  where
    fits : length (codes "127.0.0.1" ++ (b':' ∷ decimal 8080)) ≤ 63
    fits = unfold decimal in omega arith

abbrev args : List (List ℕ)
args = codes "-d" ∷ codes "/srv" ∷ codes "-l" ∷ codes "0.0.0.0:80" ∷ []

abbrev working : Calls
working = record {
  socket = true;
  setsockopt = true;
  inet_pton = λ host. true;
  bind = λ host port. true;
  listen = true;
  nonblocking = true;
}

-- A client is accepted and sends its request; then waiting fails.
abbrev waits : List Waited
waits =
    ready (on_listener (some 6) true true ∷ on_read (some 0) true (bytes request) ∷ [])
    ∷ failed
    ∷ []

args_parsed : parse_args args ≡ some (codes "/srv", codes "0.0.0.0:80")
unfolding parse_args getopt
args_parsed = refl

set_up : (setup_listen_socket working (codes "0.0.0.0:80")).0 ≡ true
unfolding setup_listen_socket port_of strtol
set_up = refl

main-Bounded_example :
    (s : Slots) × (running : Bool) × (main sys working true true waits args ≡ some (s, running))
    × Bounded sys s
main-Bounded_example =
    main-Bounded sys working true true waits args (codes "/srv") (codes "0.0.0.0:80") args_parsed
      set_up refl refl
