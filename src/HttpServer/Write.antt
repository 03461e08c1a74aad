-- ===== src/HttpServer/Write.antt =====
-- 23_http_server/main.c: handle_write.
use otus_c_prog.Common.{
  ℕ, ◌+◌, ltb, if◌then◌else◌, min, List, [], ◌∷◌, ◌++◌, length, take, drop, Option, none, some,
}
use otus_c_prog.HttpServer.{
  ConnState, state_reading, state_sending_header, state_sending_file, state_closing, Connection,
  close_connection, with_send,
}

-- What `send` returns: at most so many bytes as it was given, EAGAIN, or another error.
pub data Answer : Type 0 where
  sent : ℕ → Answer
  again : Answer
  broken : Answer

-- What `pread` returns: an error, or the bytes at the offset, at least one where there is one.
pub data ReadAnswer : Type 0 where
  read_error : ReadAnswer
  read_more : ℕ → ReadAnswer

abbrev pub send_buf_size : ℕ
send_buf_size = 8192

-- Whether handle_write returns after a send, and the bytes that went out.
pub data Step : Type 0 where
  stop : Connection → List ℕ → Step
  go_on : Connection → List ℕ → Step

-- The send of what is left of the buffer.
unfoldable pub send_rest : Connection → Answer → Step
send_rest conn (sent k) =
    let out = drop conn.send_sent conn.send_buf in
    let n = min k (length out) in
    let now = with_send conn conn.send_buf (conn.send_sent + n) in
    if ltb (conn.send_sent + n) (length conn.send_buf)
    then stop now (take n out)
    else go_on now (take n out)
send_rest conn again = stop conn []
send_rest conn broken = stop (close_connection conn) []

-- The state after the header: the file, if there is one.
unfoldable pub to_file : Connection → Option ℕ → List ℕ → Step
to_file conn none out = stop (close_connection conn) out
to_file conn (some fd) out =
    go_on
      (record {
        fd = conn.fd;
        state = state_sending_file;
        recv_buf = conn.recv_buf;
        file_fd = conn.file_fd;
        file_offset = conn.file_offset;
        file_size = conn.file_size;
        send_buf = [];
        send_sent = 0;
      })
      out

unfoldable pub after_header : Step → Step
after_header (stop conn out) = stop conn out
after_header (go_on conn out) = to_file conn conn.file_fd out

-- The first send of a block that was read.
unfoldable pub send_block : Connection → Answer → Connection × List ℕ
send_block conn (sent k) =
    let n = min k (length conn.send_buf) in (with_send conn conn.send_buf n, take n conn.send_buf)
send_block conn again = (conn, [])
send_block conn broken = (close_connection conn, [])

unfoldable pub with_block : Connection → List ℕ → Answer → Connection × List ℕ
with_block conn [] a = (close_connection conn, [])
with_block conn (b ∷ bs) a =
    send_block
      (record {
        fd = conn.fd;
        state = conn.state;
        recv_buf = conn.recv_buf;
        file_fd = conn.file_fd;
        file_offset = conn.file_offset + length (b ∷ bs);
        file_size = conn.file_size;
        send_buf = b ∷ bs;
        send_sent = 0;
      })
      a

unfoldable pub next_block : List ℕ → ReadAnswer → Answer → Connection → Connection × List ℕ
next_block content read_error a conn = (close_connection conn, [])
next_block content (read_more k) a conn =
    with_block conn (take (min (k + 1) send_buf_size) (drop conn.file_offset content)) a

unfoldable pub continue : List ℕ → ReadAnswer → Answer → Step → Connection × List ℕ
continue content r a (stop conn out) = (conn, out)
continue content r a (go_on conn out) =
    let after = next_block content r a conn in (after.0, out ++ after.1)

-- The second part of handle_write: the rest of a block, then the next.
unfoldable pub file_part : List ℕ → Answer → ReadAnswer → Answer → Connection → Connection × List ℕ
file_part content a₁ r a₂ conn =
    if ltb conn.send_sent (length conn.send_buf)
    then continue content r a₂ (send_rest conn a₁)
    else next_block content r a₂ conn

unfoldable pub by_state :
    List ℕ → Answer → ReadAnswer → Answer → Connection → ConnState → Connection × List ℕ
by_state content a₁ r a₂ conn state_reading = (conn, [])
by_state content a₁ r a₂ conn state_sending_header =
    continue content r a₂ (after_header (send_rest conn a₁))
by_state content a₁ r a₂ conn state_sending_file = file_part content a₁ r a₂ conn
by_state content a₁ r a₂ conn state_closing = (conn, [])

unfoldable pub if_open : Connection → Option ℕ → Connection × List ℕ → Connection × List ℕ
if_open conn none done = (conn, [])
if_open conn (some fd) done = done

-- handle_write on a connection whose file has the bytes `content`, with the answers of the first
-- send, of pread and of the second send: the connection and the bytes that went out.
unfoldable pub handle_write :
    List ℕ → Answer → ReadAnswer → Answer → Connection → Connection × List ℕ
handle_write content a₁ r a₂ conn = if_open conn conn.fd (by_state content a₁ r a₂ conn conn.state)
