-- ===== src/HttpServer/Sent.antt =====
-- 23_http_server/main.c: what the client gets of a file.
pub mod Calls
use otus_c_prog.Common.{
  ℕ, zero, suc, ◌+◌, ◌-◌, ◌≤◌, ◌<◌, ◌==◌, ◌≡◌, ◌≢◌, refl, sym, ap, ◌∙◌, ◌⊎◌, inl, inr, ltb, leb,
  not, Bool, true, false, if◌then◌else◌, List, [], ◌∷◌, ◌++◌, length, take, drop, length-take,
  length-drop, take-append-drop, drop_all, drop-drop, min, Option, none, some, arith, Bool-cases,
  Option-cases,
}
use mathlib.Core.Path.{subst}
use mathlib.Core.Bool.{true≢false}
use otus_c_prog.HttpServer.{
  ConnState, state_reading, state_sending_header, state_sending_file, state_closing, Connection,
  close_connection, with_send,
}
use otus_c_prog.HttpServer.Write.{
  Answer, sent, again, broken, ReadAnswer, read_error, read_more, send_buf_size, Step, stop, go_on,
  send_rest, to_file, after_header, send_block, with_block, next_block, continue, file_part,
  by_state, if_open, handle_write,
}

-- What handle_write is called with.
pub record Turn : Type 0 where
  pub first : Answer
  pub read : ReadAnswer
  pub second : Answer

-- The calls of handle_write on a connection, one after the other, and all the bytes that go out.
unfoldable pub writes : List ℕ → List Turn → Connection → Connection × List ℕ
writes content [] conn = (conn, [])
writes content (t ∷ ts) conn =
    let now = handle_write content t.first t.read t.second conn in
    let later = writes content ts now.0 in (later.0, now.1 ++ later.1)

-- What is still in the buffer.
abbrev left : Connection → List ℕ
left conn = drop conn.send_sent conn.send_buf

pub IsPrefix : List ℕ → List ℕ → Type 0
IsPrefix xs ys = (rest : List ℕ) × (xs ++ rest ≡ ys)

append_assoc : (xs ys zs : List ℕ) → (xs ++ ys) ++ zs ≡ xs ++ (ys ++ zs)
append_assoc [] ys zs = refl
append_assoc (x ∷ xs) ys zs = ap (λ t. x ∷ t) (append_assoc xs ys zs)

append_nil : (xs : List ℕ) → xs ++ [] ≡ xs
append_nil [] = refl
append_nil (x ∷ xs) = ap (λ t. x ∷ t) (append_nil xs)

-- What a send takes from the buffer, and what it leaves there.
sent_left : (buf : List ℕ) (s n : ℕ) → take n (drop s buf) ++ drop (s + n) buf ≡ drop s buf
sent_left buf s n =
    ap (λ t. take n (drop s buf) ++ t) (drop-drop s n buf) ∙ take-append-drop n (drop s buf)

take_rest : (n : ℕ) (xs : List ℕ) → take n xs ++ drop (length (take n xs)) xs ≡ xs
take_rest zero xs = refl
take_rest (suc n) [] = refl
take_rest (suc n) (x ∷ xs) = ap (λ t. x ∷ t) (take_rest n xs)

take_nothing : (n : ℕ) (xs : List ℕ) → 0 < n → take n xs ≡ [] → xs ≡ []
take_nothing zero xs h e = absurd (omega arith)
take_nothing (suc n) [] h e = refl
take_nothing (suc n) (x ∷ xs) h e =
    let one : suc (length (take n xs)) ≡ 0 = ap (λ (t : List ℕ). length t) e in
    absurd (omega (arith, one))

-- `fine` tells whether no call may fail, which the answers below must keep to.
module _ (fine : Bool) (content : List ℕ) where
  unfoldable pub Allowed : Answer → Type 0
  Allowed (sent k) = Unit
  Allowed again = Unit
  Allowed broken = fine ≡ false

  unfoldable pub ReadAllowed : ReadAnswer → Type 0
  ReadAllowed read_error = fine ≡ false
  ReadAllowed (read_more k) = Unit

  -- How a connection stands when all that is to come is `due`.
  Due : ConnState → Connection → List ℕ → Type 0
  Due state_reading conn due = ⊥
  Due state_sending_header conn due =
      (conn.file_fd ≢ none) × ((conn.file_offset ≡ 0) × (left conn ++ content ≡ due))
  Due state_sending_file conn due = left conn ++ drop conn.file_offset content ≡ due
  Due state_closing conn due = fine ≡ true → due ≡ []

  -- After `out` went out of what was due.
  After : List ℕ → Connection × List ℕ → Type 0
  After due done = (rest : List ℕ) × ((done.1 ++ rest ≡ due) × Due done.0.state done.0 rest)

  closed_broken :
      (conn : Connection) (due : List ℕ) → fine ≡ false → After due (close_connection conn, [])
  unfolding After Due close_connection
  closed_broken conn due h = (due, (refl, λ f. absurd (true≢false (sym f ∙ h))))

  send_block-After :
      (conn : Connection) (a : Answer) (due : List ℕ)
      → conn.state ≡ state_sending_file
      → conn.send_sent ≡ 0
      → conn.send_buf ++ drop conn.file_offset content ≡ due
      → Allowed a
      → After due (send_block conn a)
  unfolding send_block After Due Allowed with_send
  send_block-After conn (sent k) due st zero_sent e h =
      let n = min k (length conn.send_buf) in
      let now = with_send conn conn.send_buf n in
      let rest = drop n conn.send_buf ++ drop conn.file_offset content in
      (
        rest,
        (
          sym (
                append_assoc (take n conn.send_buf) (drop n conn.send_buf)
                  (drop conn.file_offset content))
              ∙ ap (λ t. t ++ drop conn.file_offset content) (take-append-drop n conn.send_buf)
              ∙ e,
          subst (λ s. Due s now rest) (sym st) refl,
        ),
      )
  send_block-After conn again due st zero_sent e h =
      let here : left conn ++ drop conn.file_offset content ≡ due =
        ap (λ s. drop s conn.send_buf ++ drop conn.file_offset content) zero_sent ∙ e in
      (due, (refl, subst (λ s. Due s conn due) (sym st) here))
  send_block-After conn broken due st zero_sent e h = closed_broken conn due h

  with_block-After :
      (conn : Connection) (block : List ℕ) (m : ℕ) (a : Answer)
      → conn.state ≡ state_sending_file
      → 0 < m
      → take m (drop conn.file_offset content) ≡ block
      → Allowed a
      → After (drop conn.file_offset content) (with_block conn block a)
  unfolding with_block close_connection After Due
  with_block-After conn [] m a st pos e h = (
    drop conn.file_offset content,
    (refl, λ _. take_nothing m (drop conn.file_offset content) pos e),
  )
  with_block-After conn (b ∷ bs) m a st pos e h =
      let rest = drop conn.file_offset content in
      let whole = subst (λ t. t ++ drop (length t) rest ≡ rest) e (take_rest m rest) in
      send_block-After _ a rest st refl
        (ap (λ t. (b ∷ bs) ++ t) (drop-drop conn.file_offset (length (b ∷ bs)) content) ∙ whole) h

  next_block-After :
      (conn : Connection) (r : ReadAnswer) (a : Answer)
      → conn.state ≡ state_sending_file
      → ReadAllowed r
      → Allowed a
      → After (drop conn.file_offset content) (next_block content r a conn)
  unfolding next_block ReadAllowed
  next_block-After conn read_error a st hr h = closed_broken conn _ hr
  next_block-After conn (read_more k) a st hr h =
      with_block-After conn _ (min (k + 1) send_buf_size) a st (omega arith) refl h
