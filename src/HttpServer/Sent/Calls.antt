-- ===== src/HttpServer/Sent/Calls.antt =====
-- 23_http_server/main.c: a call of handle_write in each of its states.
pub mod Served
use otus_c_prog.Common.{
  ℕ, zero, suc, ◌+◌, ◌-◌, ◌≤◌, ◌<◌, ◌==◌, ◌≡◌, ◌≢◌, refl, sym, ap, ◌∙◌, ◌⊎◌, inl, inr, ltb, leb,
  not, Bool, true, false, if◌then◌else◌, List, [], ◌∷◌, ◌++◌, length, take, drop, length-take,
  length-drop, take-append-drop, drop_all, drop-drop, min, Option, none, some, arith, Bool-cases,
  Option-cases,
}
use mathlib.Core.Path.{subst}
use mathlib.Core.Bool.{true≢false}
use otus_c_prog.HttpServer.{
  ConnState, state_reading, state_sending_header, state_sending_file, state_closing, Connection,
  close_connection, with_send,
}
use otus_c_prog.HttpServer.Write.{
  Answer, sent, again, broken, ReadAnswer, read_error, read_more, send_buf_size, Step, stop, go_on,
  send_rest, to_file, after_header, send_block, with_block, next_block, continue, file_part,
  by_state, if_open, handle_write,
}
use otus_c_prog.HttpServer.Sent.{
  Turn, writes, left, IsPrefix, append_assoc, append_nil, sent_left, Allowed, ReadAllowed, Due,
  After, closed_broken, send_block-After, with_block-After, next_block-After,
}

module _ (fine : Bool) (content : List ℕ) where
  -- The bytes of one send and then those of the next block.
  both_After :
      (due out : List ℕ) (done : Connection × List ℕ) (onward : List ℕ)
      → out ++ onward ≡ due
      → After fine content onward done
      → After fine content due (done.0, out ++ done.1)
  unfolding After
  both_After due out done onward e (rest, (f, g)) =
      (rest, (append_assoc out done.1 rest ∙ ap (λ t. out ++ t) f ∙ e, g))

  -- A part of what is in the buffer went out, or nothing.
  waiting_After :
      (conn : Connection) (n : ℕ) (due : List ℕ)
      → conn.state ≡ state_sending_file
      → left conn ++ drop conn.file_offset content ≡ due
      → After fine content due
          (with_send conn conn.send_buf (conn.send_sent + n), take n (left conn))
  unfolding After Due with_send
  waiting_After conn n due st e =
      let now = with_send conn conn.send_buf (conn.send_sent + n) in
      let later = drop conn.file_offset content in
      let rest = left now ++ later in
      (
        rest,
        (
          sym (append_assoc (take n (left conn)) (left now) later)
              ∙ ap (λ t. t ++ later) (sent_left conn.send_buf conn.send_sent n)
              ∙ e,
          subst (λ s. Due fine content s now rest) (sym st) refl,
        ),
      )

  unsent_After :
      (conn : Connection) (due : List ℕ)
      → conn.state ≡ state_sending_file
      → left conn ++ drop conn.file_offset content ≡ due
      → After fine content due (conn, [])
  unfolding After Due
  unsent_After conn due st e = (due, (refl, subst (λ s. Due fine content s conn due) (sym st) e))

  pending-After :
      (conn : Connection) (a₁ : Answer) (r : ReadAnswer) (a₂ : Answer) (due : List ℕ)
      → conn.state ≡ state_sending_file
      → left conn ++ drop conn.file_offset content ≡ due
      → Allowed fine content a₁
      → ReadAllowed fine content r
      → Allowed fine content a₂
      → After fine content due (continue content r a₂ (send_rest conn a₁))
  unfolding continue send_rest with_send Allowed
  pending-After conn (sent k) r a₂ due st e h₁ hr h₂ =
      let n = min k (length (left conn)) in
      let now = with_send conn conn.send_buf (conn.send_sent + n) in
      let later = drop conn.file_offset content in
      let split = sent_left conn.send_buf conn.send_sent n in
      elim (Bool-cases (ltb (conn.send_sent + n) (length conn.send_buf))) [
        | inl more ↦ rw more (waiting_After conn n due st e)
        | inr over ↦
            let all : length conn.send_buf ≤ conn.send_sent + n = ground arith in
            let out = take n (left conn) in
            let empty = drop_all (conn.send_sent + n) conn.send_buf all in
            let gone : out ≡ left conn =
              sym (append_nil out) ∙ ap (λ t. out ++ t) (sym empty) ∙ split in
            rw over (
              both_After due out (next_block content r a₂ now) later (ap (λ t. t ++ later) gone ∙ e)
                (next_block-After fine content now r a₂ st hr h₂))
      ]
  pending-After conn again r a₂ due st e h₁ hr h₂ = unsent_After conn due st e
  pending-After conn broken r a₂ due st e h₁ hr h₂ = closed_broken fine content conn due h₁

  into_file-After :
      (conn : Connection) (out : List ℕ) (r : ReadAnswer) (a : Answer) (due : List ℕ)
      → conn.file_fd ≢ none
      → conn.file_offset ≡ 0
      → out ++ content ≡ due
      → ReadAllowed fine content r
      → Allowed fine content a
      → After fine content due (continue content r a (to_file conn conn.file_fd out))
  unfolding continue to_file
  into_file-After conn out r a due file begin e hr h = elim (Option-cases conn.file_fd) [
    | inl f ↦ absurd (file f)
    | inr (fd, f) ↦ rw f (
        both_After due out _ (drop conn.file_offset content)
          (ap (λ o. out ++ drop o content) begin ∙ e)
          (next_block-After fine content _ r a refl hr h))
  ]

  header-After :
      (conn : Connection) (a₁ : Answer) (r : ReadAnswer) (a₂ : Answer) (due : List ℕ)
      → conn.state ≡ state_sending_header
      → conn.file_fd ≢ none
      → conn.file_offset ≡ 0
      → left conn ++ content ≡ due
      → Allowed fine content a₁
      → ReadAllowed fine content r
      → Allowed fine content a₂
      → After fine content due (continue content r a₂ (after_header (send_rest conn a₁)))
  unfolding continue send_rest after_header with_send After Due Allowed
  header-After conn (sent k) r a₂ due st file begin e h₁ hr h₂ =
      let n = min k (length (left conn)) in
      let now = with_send conn conn.send_buf (conn.send_sent + n) in
      let split = sent_left conn.send_buf conn.send_sent n in
      let out = take n (left conn) in
      elim (Bool-cases (ltb (conn.send_sent + n) (length conn.send_buf))) [
        | inl more ↦ rw more (
          left now ++ content,
          (
            sym (append_assoc out (left now) content) ∙ ap (λ t. t ++ content) split ∙ e,
            subst (λ s. Due fine content s now (left now ++ content)) (sym st)
                (file, (begin, refl)),
          ),
        )
        | inr over ↦
            let all : length conn.send_buf ≤ conn.send_sent + n = ground arith in
            let empty = drop_all (conn.send_sent + n) conn.send_buf all in
            let gone : out ≡ left conn =
              sym (append_nil out) ∙ ap (λ t. out ++ t) (sym empty) ∙ split in
            rw over
              (into_file-After now out r a₂ due file begin (ap (λ t. t ++ content) gone ∙ e) hr h₂)
      ]
  header-After conn again r a₂ due st file begin e h₁ hr h₂ =
      (due, (refl, subst (λ s. Due fine content s conn due) (sym st) (file, (begin, e))))
  header-After conn broken r a₂ due st file begin e h₁ hr h₂ =
      closed_broken fine content conn due h₁
