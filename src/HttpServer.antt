-- ===== src/HttpServer.antt =====
-- 23_http_server/main.c: a server of static files on kqueue. What the system calls return is an
-- argument; a file does not change while it is served.
pub mod Write
pub mod Sent
pub mod Request
pub mod Safe
pub mod Slots
pub mod Listen
pub mod Loop
mod Tests
use otus_c_prog.Common.{ℕ, Bool, true, false, List, [], Option, none, some}

-- `enum conn_state`
pub data ConnState : Type 0 where
  state_reading : ConnState
  state_sending_header : ConnState
  state_sending_file : ConnState
  state_closing : ConnState

-- `struct connection`: a descriptor of -1 is none, the buffers are their first `recv_len` and
-- `send_len` bytes.
pub record Connection : Type 0 where
  pub fd : Option ℕ
  pub state : ConnState
  pub recv_buf : List ℕ
  pub file_fd : Option ℕ
  pub file_offset : ℕ
  pub file_size : ℕ
  pub send_buf : List ℕ
  pub send_sent : ℕ

-- The kernel drops the events of the descriptors that are closed.
unfoldable pub close_connection : Connection → Connection
close_connection conn = record {
  fd = none;
  state = state_closing;
  recv_buf = conn.recv_buf;
  file_fd = none;
  file_offset = conn.file_offset;
  file_size = conn.file_size;
  send_buf = conn.send_buf;
  send_sent = conn.send_sent;
}

-- `conn->send_buf`, `conn->send_len` and `conn->send_sent` anew.
unfoldable pub with_send : Connection → List ℕ → ℕ → Connection
with_send conn buf sent = record {
  fd = conn.fd;
  state = conn.state;
  recv_buf = conn.recv_buf;
  file_fd = conn.file_fd;
  file_offset = conn.file_offset;
  file_size = conn.file_size;
  send_buf = buf;
  send_sent = sent;
}
