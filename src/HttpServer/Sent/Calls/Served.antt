-- ===== src/HttpServer/Sent/Calls/Served.antt =====
-- 23_http_server/main.c: all the calls of handle_write for one answer.
use otus_c_prog.Common.{
  ℕ, ◌≤◌, ◌≡◌, ◌≢◌, refl, sym, ap, ◌∙◌, inl, inr, ltb, Bool, true, false, List, [], ◌∷◌, ◌++◌,
  length, drop, drop_all, Option, none, some, arith, Bool-cases,
}
use mathlib.Core.Path.{subst}
use otus_c_prog.HttpServer.{
  ConnState, state_reading, state_sending_header, state_sending_file, state_closing, Connection,
}
use otus_c_prog.HttpServer.Write.{
  Answer, sent, again, broken, ReadAnswer, read_error, read_more, next_block, file_part, by_state,
  if_open, handle_write,
}
use otus_c_prog.HttpServer.Sent.{
  Turn, writes, IsPrefix, append_nil, Allowed, ReadAllowed, Due, After, next_block-After,
}
use otus_c_prog.HttpServer.Sent.Calls.{both_After, pending-After, header-After}

module _ (fine : Bool) (content : List ℕ) where
  -- All three answers keep to it.
  unfoldable pub TurnAllowed : Turn → Type 0
  TurnAllowed t =
      Allowed fine content t.first
      × (ReadAllowed fine content t.read × Allowed fine content t.second)

  by_state-After :
      (conn : Connection) (t : Turn) (due : List ℕ) (st : ConnState)
      → conn.state ≡ st
      → Due fine content st conn due
      → TurnAllowed t
      → After fine content due (by_state content t.first t.read t.second conn st)
  unfolding by_state file_part Due After TurnAllowed
  by_state-After conn t due state_reading e d h = absurd d
  by_state-After conn t due state_sending_header e d h =
      header-After fine content conn t.first t.read t.second due e d.0 d.1.0 d.1.1 h.0 h.1.0 h.1.1
  by_state-After conn t due state_sending_file e d h =
      elim (Bool-cases (ltb conn.send_sent (length conn.send_buf))) [
        | inl some_left ↦
            rw some_left
              (pending-After fine content conn t.first t.read t.second due e d h.0 h.1.0 h.1.1)
        | inr none_left ↦
            let all : length conn.send_buf ≤ conn.send_sent = ground arith in
            let nothing = drop_all conn.send_sent conn.send_buf all in
            let here : drop conn.file_offset content ≡ due =
              ap (λ t. t ++ drop conn.file_offset content) (sym nothing) ∙ d in
            rw none_left (
              subst (λ u. After fine content u (next_block content t.read t.second conn)) here
                (next_block-After fine content conn t.read t.second e h.1.0 h.1.1))
      ]
  by_state-After conn t due state_closing e d h =
      (due, (refl, subst (λ s. Due fine content s conn due) (sym e) d))

  if_open-After :
      (conn : Connection) (fd : Option ℕ) (done : Connection × List ℕ) (due : List ℕ)
      → Due fine content conn.state conn due
      → After fine content due done
      → After fine content due (if_open conn fd done)
  unfolding if_open After
  if_open-After conn none done due d h = (due, (refl, d))
  if_open-After conn (some fd) done due d h = h

  unfoldable pub AllAllowed : List Turn → Type 0
  AllAllowed [] = Unit
  AllAllowed (t ∷ ts) = TurnAllowed t × AllAllowed ts

  writes-After :
      (ts : List Turn) (conn : Connection) (due : List ℕ)
      → AllAllowed ts
      → Due fine content conn.state conn due
      → After fine content due (writes content ts conn)
  unfolding writes AllAllowed handle_write After
  writes-After [] conn due h d = (due, (refl, d))
  writes-After (t ∷ ts) conn due h d =
      let now =
        if_open-After conn conn.fd (by_state content t.first t.read t.second conn conn.state) due d
          (by_state-After conn t due conn.state refl d h.0) in
      both_After fine content due (handle_write content t.first t.read t.second conn).1
        (writes content ts (handle_write content t.first t.read t.second conn).0) now.0 now.1.0
        (writes-After ts (handle_write content t.first t.read t.second conn).0 now.0 h.1 now.1.1)

-- A connection as handle_request leaves it when it has found the file.
unfoldable pub Answering : Connection → Type 0
Answering conn =
    (conn.state ≡ state_sending_header)
    × ((conn.send_sent ≡ 0) × ((conn.file_fd ≢ none) × (conn.file_offset ≡ 0)))

started :
    (fine : Bool) (content : List ℕ) (conn : Connection)
    → Answering conn
    → Due fine content conn.state conn (conn.send_buf ++ content)
unfolding Due Answering
started fine content conn (st, (zero_sent, (file, begin))) =
    subst (λ s. Due fine content s conn (conn.send_buf ++ content)) (sym st)
      (file, (begin, ap (λ s. drop s conn.send_buf ++ content) zero_sent))

any_answer : (content : List ℕ) (a : Answer) → Allowed false content a
unfolding Allowed
any_answer content (sent k) = tt
any_answer content again = tt
any_answer content broken = refl

any_read : (content : List ℕ) (r : ReadAnswer) → ReadAllowed false content r
unfolding ReadAllowed
any_read content read_error = refl
any_read content (read_more k) = tt

every_turn : (content : List ℕ) (ts : List Turn) → AllAllowed false content ts
unfolding AllAllowed TurnAllowed
every_turn content [] = tt
every_turn content (t ∷ ts) = (
  (any_answer content t.first, (any_read content t.read, any_answer content t.second)),
  every_turn content ts,
)

-- Whatever send and pread return, all that the calls of handle_write send to a client whose file was
-- found is a beginning of the header and the file's bytes: none is lost, repeated or out of order.
pub writes-prefix :
    (content : List ℕ) (ts : List Turn) (conn : Connection)
    → Answering conn
    → IsPrefix (writes content ts conn).1 (conn.send_buf ++ content)
unfolding After IsPrefix
writes-prefix content ts conn h =
    let done =
      writes-After false content ts conn (conn.send_buf ++ content) (every_turn content ts)
        (started false content conn h) in
    (done.0, done.1.0)

-- Where no call fails, a connection that handle_write has closed has sent the header and all the
-- bytes of the file.
pub writes-whole :
    (content : List ℕ) (ts : List Turn) (conn : Connection)
    → Answering conn
    → AllAllowed true content ts
    → (writes content ts conn).0.state ≡ state_closing
    → (writes content ts conn).1 ≡ conn.send_buf ++ content
unfolding After Due
writes-whole content ts conn h allowed closed =
    let done =
      writes-After true content ts conn (conn.send_buf ++ content) allowed
        (started true content conn h) in
    let out = (writes content ts conn).1 in
    let nothing =
      subst (λ s. Due true content s (writes content ts conn).0 done.0) closed done.1.1 refl in
    sym (append_nil out) ∙ ap (λ t. out ++ t) (sym nothing) ∙ done.1.0
