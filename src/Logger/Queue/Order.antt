-- ===== src/Logger/Queue/Order.antt =====
-- 12_error_handling/logger.c: what holds of a logger however the steps of the threads are ordered.
use otus_c_prog.Common.{
  ℕ, ◌==◌, ◌≡◌, ◌≢◌, refl, sym, ap, ◌∙◌, false, List, [], ◌∷◌, ◌++◌, length, none, some, arith,
}
use mathlib.Core.Path.{subst, subst₂}
use mathlib.Core.List.{append_assoc}
use otus_c_prog.Logger.Queue.{
  LogMessage, Memory, MessageQueue, async_logger_enqueue, take_first, free_message, write_message,
  drain, Writer, idle, writing, ended, AsyncLogger, created, Reach, begin, log, log_late, take_out,
  write_out, stop, finish,
}
use otus_c_prog.Logger.Queue.Linked.{
  Item, texts_of, Absent, Linked, head_of, last_of, texts_of-append, Absent-append,
}
use otus_c_prog.Logger.Queue.Fifo.{
  Holds, enqueued, taken, freed, drained, drain-texts_of, unused_apart,
}

-- The text of the message that the writer has in hand, which is allocated and no longer in the list.
pub Hand : Memory → List Item → Writer → List (List ℕ) → Type 0
Hand memory items idle hand = hand ≡ []
Hand memory items (writing msg) hand =
    (m : LogMessage) × (memory msg ≡ some m) × Absent msg items × (hand ≡ m.text ∷ [])
Hand memory items ended hand = hand ≡ []

-- The messages of the queue, and the text in the writer's hand.
pub record Live (q : MessageQueue) (writer : Writer) (written sent : List (List ℕ)) : Type 0 where
  pub items : List Item
  pub hand : List (List ℕ)
  pub holds : Holds q items
  pub in_hand : Hand q.memory items writer hand
  pub order : sent ≡ written ++ (hand ++ texts_of items)

Inv : AsyncLogger → List (List ℕ) → Type 0
Inv s sent =
    (s.writer ≢ ended → Live s.queue s.writer s.written sent)
    × (s.writer ≡ ended → s.written ≡ sent)

kept_apart :
    (q q' : MessageQueue) (items : List Item) (hand : List (List ℕ)) (text : List ℕ) (msg : ℕ)
    (writer : Writer)
    → q.memory msg ≡ none
    → ((a : ℕ) (m : LogMessage) → q.memory a ≡ some m → Absent a items → q'.memory a ≡ some m)
    → Hand q.memory items writer hand
    → Hand q'.memory (items ++ ((msg, text) ∷ [])) writer hand
unfolding Hand
kept_apart q q' items hand text msg idle unused kept h = h
kept_apart q q' items hand text msg ended unused kept h = h
kept_apart q q' items hand text msg (writing a) unused kept (m, used, absent, here) = (
  m,
  kept a m used absent,
  Absent-append a msg text items absent (apart (unused_apart q.memory msg a m unused used)),
  here,
)
  where
    apart : (msg == a) ≡ false → (a == msg) ≡ false
    apart h = ground arith

logged :
    (s : AsyncLogger) (sent : List (List ℕ)) (text : List ℕ) (msg : ℕ)
    → Live s.queue s.writer s.written sent
    → s.queue.memory msg ≡ none
    → (q : MessageQueue) × (async_logger_enqueue s.queue text (some msg) ≡ some q)
      × Live q s.writer s.written (sent ++ (text ∷ []))
logged s sent text msg l unused =
    let (q, e, holds, kept) = enqueued s.queue l.items text msg l.holds unused in
    (
      q,
      e,
      record {
        items = l.items ++ ((msg, text) ∷ []);
        hand = l.hand;
        holds = holds;
        in_hand = kept_apart s.queue q l.items l.hand text msg s.writer unused kept l.in_hand;
        order =
            ap (λ t. t ++ (text ∷ [])) l.order
            ∙ append_assoc s.written (l.hand ++ texts_of l.items) (text ∷ [])
            ∙ ap (λ t. s.written ++ t)
                (append_assoc l.hand (texts_of l.items) (text ∷ [])
                  ∙ ap (λ t. l.hand ++ t) (sym (texts_of-append msg text l.items)));
      },
    )

-- The writer can take the first message, and has it in hand then.
taken_out :
    (s : AsyncLogger) (sent : List (List ℕ)) (msg : ℕ)
    → Live s.queue idle s.written sent
    → s.queue.queue_head ≡ some msg
    → (q : MessageQueue) × (take_first s.queue msg ≡ some q) × Live q (writing msg) s.written sent
unfolding Hand head_of Linked
taken_out s sent msg l head = go l.items l.hand l.holds l.in_hand l.order
  where
    go :
        (items : List Item) (hand : List (List ℕ))
        → Holds s.queue items
        → hand ≡ []
        → sent ≡ s.written ++ (hand ++ texts_of items)
        → (q : MessageQueue) × (take_first s.queue msg ≡ some q)
          × Live q (writing msg) s.written sent
    go [] hand holds empty order = cc (holds.head_eq)
    go ((a, t) ∷ items) hand holds empty order =
        let (q, e, at, holds', kept) = taken s.queue msg a t items holds head in
        let used : q.memory msg ≡ some (record { text = t; next = head_of items }) =
          cc (kept, at, holds.linked.0) in
        (
          q,
          e,
          record {
            items = items;
            hand = t ∷ [];
            holds = holds';
            in_hand = (
              record { text = t; next = head_of items },
              used,
              subst (λ x. Absent x items) (sym at) holds.linked.1,
              refl,
            );
            order = order ∙ ap (λ h. s.written ++ (h ++ (t ∷ texts_of items))) empty;
          },
        )

-- It can read and free the message that it has in hand.
written_out :
    (s : AsyncLogger) (sent : List (List ℕ)) (msg : ℕ)
    → Live s.queue (writing msg) s.written sent
    → (text : List ℕ) × (q : MessageQueue) × (write_message s.queue msg ≡ some (text, q))
      × Live q idle (s.written ++ (text ∷ [])) sent
unfolding Hand write_message
written_out s sent msg l =
    let (m, used, absent, here) = l.in_hand in
    (
      m.text,
      free_message s.queue msg,
      rw used refl,
      record {
        items = l.items;
        hand = [];
        holds = freed s.queue msg l.items l.holds absent;
        in_hand = refl;
        order =
            l.order
            ∙ ap (λ h. s.written ++ (h ++ texts_of l.items)) here
            ∙ sym (append_assoc s.written (m.text ∷ []) (texts_of l.items));
      },
    )

finished :
    (s : AsyncLogger) (sent texts : List (List ℕ)) (q : MessageQueue) (turns : ℕ)
    → Live s.queue idle s.written sent
    → drain turns s.queue s.queue.queue_head ≡ some (texts, q)
    → s.written ++ texts ≡ sent
unfolding Hand
finished s sent texts q turns l e =
    let all =
      drain-texts_of turns s.queue q l.items texts l.holds.linked
        (subst (λ h. drain turns s.queue h ≡ some (texts, q)) l.holds.head_eq e) in
    ap (λ t. s.written ++ t) all
    ∙ ap (λ h. s.written ++ (h ++ texts_of l.items)) (sym l.in_hand)
    ∙ sym l.order

Reach-Inv :
    {memory : Memory} {s : AsyncLogger} {sent late : List (List ℕ)}
    → Reach memory s sent late
    → Inv s sent
unfolding Inv created Hand head_of last_of Linked
Reach-Inv begin = (
  λ not_ended. record {
    items = [];
    hand = [];
    holds = record { head_eq = refl; tail_eq = refl; linked = tt };
    in_hand = refl;
    order = refl;
  },
  λ e. refl,
)
Reach-Inv (log {s = s} {sent = sent} {q = q} text msg r not_ended unused e) =
    let inv = Reach-Inv r in
    let (q', e', live) = logged s sent text msg (inv.0 not_ended) unused in
    let queues : q' ≡ q = cc in
    (
      λ _. subst (λ x. Live x s.writer s.written (sent ++ (text ∷ []))) queues live,
      λ end_reached. absurd (not_ended end_reached),
    )
Reach-Inv (log_late text msg r at_end unused e) =
    (λ not_ended. absurd (not_ended at_end), (Reach-Inv r).1)
Reach-Inv (take_out {s = s} {sent = sent} {q = q} msg r on at head e) =
    let live = subst (λ w. Live s.queue w s.written sent) at ((Reach-Inv r).0 (λ h. cc)) in
    let (q', e', after) = taken_out s sent msg live head in
    let queues : q' ≡ q = cc in
    (λ _. subst (λ x. Live x (writing msg) s.written sent) queues after, λ h. cc)
Reach-Inv (write_out {s = s} {sent = sent} {q = q} text msg r at e) =
    let live = subst (λ w. Live s.queue w s.written sent) at ((Reach-Inv r).0 (λ h. cc)) in
    let (text', q', e', after) = written_out s sent msg live in
    let queues : q' ≡ q = cc in
    let texts : text' ≡ text = cc in
    (λ _. subst₂ (λ x t. Live x idle (s.written ++ (t ∷ [])) sent) queues texts after, λ h. cc)
Reach-Inv (stop r) = Reach-Inv r
Reach-Inv (finish {s = s} {sent = sent} {q = q} turns texts r off at e) =
    let live = subst (λ w. Live s.queue w s.written sent) at ((Reach-Inv r).0 (λ h. cc)) in
    (λ h. absurd (h refl), λ _. finished s sent texts q turns live e)

-- However the steps of the threads are ordered: until the writer has ended, the messages for which
-- there was memory are, in the order in which they were queued, those written, the one in the
-- writer's hand and those that the queue holds; once it has ended, those that were queued before
-- its end are written, in this order, and none of those queued after it is.
pub Reach-written :
    {memory : Memory} {s : AsyncLogger} {sent late : List (List ℕ)}
    → Reach memory s sent late
    → (s.writer ≢ ended → Live s.queue s.writer s.written sent)
      × (s.writer ≡ ended → s.written ≡ sent)
unfolding Inv
Reach-written r = Reach-Inv r

-- Until the writer has ended, no thread reads, writes or frees a message that is not allocated: a
-- message can be queued wherever malloc puts it, the writer can take the first one out, it can read
-- and free the one it has in hand outside the mutex, and its last loop reads and frees all that are
-- left, and ends.
pub Reach-safe :
    {memory : Memory} {s : AsyncLogger} {sent late : List (List ℕ)}
    → Reach memory s sent late
    → s.writer ≢ ended
    → ((text : List ℕ) (msg : ℕ)
        → s.queue.memory msg ≡ none
        → (q : MessageQueue) × (async_logger_enqueue s.queue text (some msg) ≡ some q))
      × ((msg : ℕ)
          → s.writer ≡ idle
          → s.queue.queue_head ≡ some msg
          → (q : MessageQueue) × (take_first s.queue msg ≡ some q))
      × ((msg : ℕ)
          → s.writer ≡ writing msg
          → (text : List ℕ) × (q : MessageQueue) × (write_message s.queue msg ≡ some (text, q)))
      × ((turns : ℕ) × (texts : List (List ℕ)) × (q : MessageQueue) × (drain turns s.queue
              s.queue.queue_head
            ≡ some (texts, q)))
unfolding Inv
Reach-safe {s = s} {sent = sent} r not_ended =
    let live = (Reach-Inv r).0 not_ended in
    let items = live.items in
    let (q, drain_eq) = drained s.queue items live.holds.linked in
    let as_writer : (w : Writer) → s.writer ≡ w → Live s.queue w s.written sent =
      λ w at. subst (λ x. Live s.queue x s.written sent) at live in
    (
      λ text msg unused. let (q, e, _) = logged s sent text msg live unused in (q, e),
      λ msg at head. let (q, e, _) = taken_out s sent msg (as_writer idle at) head in (q, e),
      λ msg at.
          let (text, q, e, _) = written_out s sent msg (as_writer (writing msg) at) in (text, q, e),
      (
        length items,
        texts_of items,
        q,
        subst (λ h. drain (length items) s.queue h ≡ some (texts_of items, q))
            (sym live.holds.head_eq) drain_eq,
      ),
    )
