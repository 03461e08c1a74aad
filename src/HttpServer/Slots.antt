-- ===== src/HttpServer/Slots.antt =====
-- 23_http_server/main.c: the table of connections.
pub mod Compact
use otus_c_prog.Common.{
  ℕ, zero, suc, ◌+◌, ◌==◌, leb, not, Bool, true, false, if◌then◌else◌, List, [], get_or, set,
  Option, none, some,
}
use otus_c_prog.HttpServer.{state_reading, Connection}

abbrev pub max_conn : ℕ
max_conn = 1024

-- A slot as main leaves it, or memset and accept_connection.
abbrev pub fresh : Option ℕ → Connection
fresh fd = record {
  fd = fd;
  state = state_reading;
  recv_buf = [];
  file_fd = none;
  file_offset = 0;
  file_size = 0;
  send_buf = [];
  send_sent = 0;
}

pub record Slots : Type 0 where
  pub conns : List Connection
  pub nconns : ℕ

-- accept_connection once accept has given a descriptor; the answers of set_nonblocking and
-- add_kqueue_event. A descriptor that is not kept is closed.
unfoldable pub accept_connection : ℕ → Bool → Bool → Slots → Slots
accept_connection client_fd nonblocking added s =
    if leb max_conn s.nconns then s else if not nonblocking then s else record {
      conns = set s.conns s.nconns (fresh (some client_fd));
      nconns = if added then s.nconns + 1 else s.nconns;
    }

unfoldable pub is_open : Option ℕ → Bool
is_open none = false
is_open (some fd) = true

-- The loop of free_conns from slot `i` on, with the slots that are left, and `j`.
unfoldable pub free_from : List Connection → ℕ → ℕ → ℕ → Slots
free_from conns zero i j = record { conns = conns; nconns = j }
free_from conns (suc n) i j =
    let skipped = free_from conns n (i + 1) j in
    let kept = free_from conns n (i + 1) (j + 1) in
    let moved = free_from (set conns j (get_or conns i (fresh none))) n (i + 1) (j + 1) in
    if is_open (get_or conns i (fresh none)).fd then if i == j then kept else moved else skipped

unfoldable pub free_conns : Slots → Slots
free_conns s = free_from s.conns s.nconns 0 0
