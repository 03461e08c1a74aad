-- ===== src/HttpServer/Safe/Written.antt =====
-- 23_http_server/main.c: what handle_write keeps of a connection.
use otus_c_prog.Common.{
  ℕ, ◌+◌, inl, inr, ltb, min, List, [], ◌∷◌, length, take, drop, Option, none, some, Bool-cases,
}
use otus_c_prog.HttpServer.{
  ConnState, state_reading, state_sending_header, state_sending_file, state_closing, Connection,
  with_send,
}
use otus_c_prog.HttpServer.Request.{System}
use otus_c_prog.HttpServer.Safe.{Fine, closed-Fine}
use otus_c_prog.HttpServer.Write.{
  Answer, sent, again, broken, ReadAnswer, read_error, read_more, Step, stop, go_on, send_rest,
  to_file, after_header, send_block, with_block, next_block, continue, file_part, by_state, if_open,
  handle_write, send_buf_size,
}

module _ (sys : System) where
  FineStep : Step → Type 0
  FineStep (stop conn out) = Fine sys conn
  FineStep (go_on conn out) = Fine sys conn

  with_send-Fine :
      (conn : Connection) (buf : List ℕ) (n : ℕ) → Fine sys conn → Fine sys (with_send conn buf n)
  unfolding Fine with_send
  with_send-Fine conn buf n h = h

  send_rest-Fine : (conn : Connection) (a : Answer) → Fine sys conn → FineStep (send_rest conn a)
  unfolding FineStep send_rest
  send_rest-Fine conn (sent k) h =
      let n = min k (length (drop conn.send_sent conn.send_buf)) in
      let now = with_send-Fine conn conn.send_buf (conn.send_sent + n) h in
      elim (Bool-cases (ltb (conn.send_sent + n) (length conn.send_buf))) [
        | inl e ↦ rw e now
        | inr e ↦ rw e now
      ]
  send_rest-Fine conn again h = h
  send_rest-Fine conn broken h = closed-Fine sys conn h

  to_file-Fine :
      (conn : Connection) (fd : Option ℕ) (out : List ℕ)
      → Fine sys conn
      → FineStep (to_file conn fd out)
  unfolding FineStep to_file Fine
  to_file-Fine conn none out h = closed-Fine sys conn h
  to_file-Fine conn (some fd) out h = h

  after_header-Fine : (st : Step) → FineStep st → FineStep (after_header st)
  unfolding FineStep after_header
  after_header-Fine (stop conn out) h = h
  after_header-Fine (go_on conn out) h = to_file-Fine conn conn.file_fd out h

  send_block-Fine :
      (conn : Connection) (a : Answer) → Fine sys conn → Fine sys (send_block conn a).0
  unfolding send_block
  send_block-Fine conn (sent k) h =
      with_send-Fine conn conn.send_buf (min k (length conn.send_buf)) h
  send_block-Fine conn again h = h
  send_block-Fine conn broken h = closed-Fine sys conn h

  with_block-Fine :
      (conn : Connection) (block : List ℕ) (a : Answer)
      → Fine sys conn
      → Fine sys (with_block conn block a).0
  unfolding with_block Fine
  with_block-Fine conn [] a h = closed-Fine sys conn h
  with_block-Fine conn (b ∷ bs) a h = send_block-Fine _ a h

  module _ (content : List ℕ) (block : ReadAnswer) (second : Answer) where
    next_block-Fine :
        (conn : Connection) → Fine sys conn → Fine sys (next_block content block second conn).0
    unfolding next_block
    next_block-Fine conn h = of_read block
      where
        of_read : (r : ReadAnswer) → Fine sys (next_block content r second conn).0
        of_read read_error = closed-Fine sys conn h
        of_read (read_more k) =
            with_block-Fine conn (take (min (k + 1) send_buf_size) (drop conn.file_offset content))
              second h

    continue-Fine : (st : Step) → FineStep st → Fine sys (continue content block second st).0
    unfolding FineStep continue
    continue-Fine (stop conn out) h = h
    continue-Fine (go_on conn out) h = next_block-Fine conn h

    file_part-Fine :
        (conn : Connection) (first : Answer)
        → Fine sys conn
        → Fine sys (file_part content first block second conn).0
    unfolding file_part
    file_part-Fine conn first h = elim (Bool-cases (ltb conn.send_sent (length conn.send_buf))) [
      | inl e ↦ rw e (continue-Fine (send_rest conn first) (send_rest-Fine conn first h))
      | inr e ↦ rw e (next_block-Fine conn h)
    ]

    by_state-Fine :
        (conn : Connection) (first : Answer) (st : ConnState)
        → Fine sys conn
        → Fine sys (by_state content first block second conn st).0
    unfolding by_state
    by_state-Fine conn first state_reading h = h
    by_state-Fine conn first state_sending_header h =
        continue-Fine (after_header (send_rest conn first))
          (after_header-Fine (send_rest conn first) (send_rest-Fine conn first h))
    by_state-Fine conn first state_sending_file h = file_part-Fine conn first h
    by_state-Fine conn first state_closing h = h

    -- handle_write leaves the received bytes as they are, and keeps the file or closes it.
    pub handle_write-Fine :
        (conn : Connection) (first : Answer)
        → Fine sys conn
        → Fine sys (handle_write content first block second conn).0
    unfolding handle_write
    handle_write-Fine conn first h = opened conn.fd
      where
        opened :
            (fd : Option ℕ)
            → Fine sys (if_open conn fd (by_state content first block second conn conn.state)).0
        opened none = unfold if_open in h
        opened (some fd) = unfold if_open in by_state-Fine conn first conn.state h
