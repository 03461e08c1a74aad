-- ===== src/HttpServer/Loop.antt =====
-- 23_http_server/main.c: main. What the system calls return stands in the events; the files and
-- their names do not change while the server runs.
pub mod Bounded
use otus_c_prog.Common.{
  ℕ, ◌&&◌, Bool, true, false, if◌then◌else◌, List, [], ◌∷◌, ◌++◌, replicate, get_or, set, take,
  Option, none, some,
}
use otus_c_prog.HttpServer.{Connection}
use otus_c_prog.HttpServer.Request.{System, Received, handle_read}
use otus_c_prog.HttpServer.Write.{Answer, ReadAnswer, handle_write}
use otus_c_prog.HttpServer.Slots.{max_conn, fresh, Slots, accept_connection, free_conns}
use otus_c_prog.HttpServer.Listen.{Calls, parse_args, setup_listen_socket}

-- An event of kqueue: at the listening socket, with what accept, set_nonblocking and
-- add_kqueue_event give, or for a slot of the table, the `udata`, with what the handler's calls
-- give, which are for a read the registering of the write event and recv.
pub data Event : Type 0 where
  on_listener : Option ℕ → Bool → Bool → Event
  on_read : Option ℕ → Bool → Received → Event
  on_write : Option ℕ → List ℕ → Answer → ReadAnswer → Answer → Event
  other : Event

-- What kevent returns: events, EINTR, or another error.
pub data Waited : Type 0 where
  ready : List Event → Waited
  interrupted : Waited
  failed : Waited

-- The handler's effect on the slot that `udata` points to.
unfoldable pub at_slot : Slots → Option ℕ → (Connection → Connection) → Slots
at_slot s none handle = s
at_slot s (some i) handle = record s {
  conns = set s.conns i (handle (get_or s.conns i (fresh none)));
}

unfoldable pub initial : Slots
initial = record { conns = replicate max_conn (fresh none); nconns = 0 }

-- cleanup: the descriptors it closes, of the socket, of the table and of the queue.
abbrev of_option : Option ℕ → List ℕ
of_option none = []
of_option (some fd) = fd ∷ []

unfoldable pub of_conns : List Connection → List ℕ
of_conns [] = []
of_conns (c ∷ cs) = of_option c.fd ++ (of_option c.file_fd ++ of_conns cs)

unfoldable pub cleanup : Option ℕ → Option ℕ → Slots → List ℕ
unfolding of_conns
cleanup listen_fd kq s = of_option listen_fd ++ (of_conns (take s.nconns s.conns) ++ of_option kq)

module _ (sys : System) where
  unfoldable pub handle_event : Slots → Event → Slots
  unfolding at_slot
  handle_event s (on_listener none nonblocking added) = s
  handle_event s (on_listener (some client_fd) nonblocking added) =
      accept_connection client_fd nonblocking added s
  handle_event s (on_read udata registers received) =
      at_slot s udata (λ conn. handle_read (record sys { registers = registers }) conn received)
  handle_event s (on_write udata content first block second) =
      at_slot s udata (λ conn. (handle_write content first block second conn).0)
  handle_event s other = s

  unfoldable pub handle_events : Slots → List Event → Slots
  unfolding handle_event
  handle_events s [] = s
  handle_events s (e ∷ events) = handle_events (handle_event s e) events

  -- The loop of main: the table, and whether the server still runs.
  unfoldable pub main_loop : Slots → List Waited → Slots × Bool
  unfolding handle_events
  main_loop s [] = (s, true)
  main_loop s (ready events ∷ waits) = main_loop (free_conns (handle_events s events)) waits
  main_loop s (interrupted ∷ waits) = main_loop s waits
  main_loop s (failed ∷ waits) = (s, false)

-- What is behind parse_args; whether kqueue and the registering of the socket succeed.
unfoldable pub start :
    System → Calls → Bool → Bool → List Waited → Option (List ℕ × List ℕ) → Option (Slots × Bool)
unfolding main_loop initial
start sys calls kqueue added waits none = none
start sys calls kqueue added waits (some (root_dir, listen_addr)) =
    let served = main_loop (record sys { root_dir = root_dir }) initial waits in
    if (setup_listen_socket calls listen_addr).0 && kqueue && added then some served else none

-- The server, or `none` where it fails before its loop.
unfoldable pub main :
    System → Calls → Bool → Bool → List Waited → List (List ℕ) → Option (Slots × Bool)
unfolding start
main sys calls kqueue added waits argv = start sys calls kqueue added waits (parse_args argv)
