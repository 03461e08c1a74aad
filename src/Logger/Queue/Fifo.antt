-- ===== src/Logger/Queue/Fifo.antt =====
-- 12_error_handling/logger.c: the queue keeps the order of the messages, and none is lost.
use otus_c_prog.Common.{
  ℕ, zero, suc, ◌==◌, ◌≡◌, refl, sym, ◌∙◌, inl, inr, true, false, List, [], ◌∷◌, ◌++◌, length,
  Option, none, some, arith, Bool-cases, Option-cases,
}
use mathlib.Core.Path.{subst}
use otus_c_prog.Logger.Queue.{
  LogMessage, Memory, MessageQueue, store_at, link, async_logger_enqueue, take_first, tail_after,
  free_message, drain,
}
use otus_c_prog.Logger.Queue.Linked.{
  Item, texts_of, Absent, last_of, head_of, Linked, Linked-store, unused-Absent, last_of-append,
  set_behind, last_apart,
}

-- The queue is the list of these messages.
pub record Holds (q : MessageQueue) (items : List Item) : Type 0 where
  pub head_eq : q.queue_head ≡ head_of items
  pub tail_eq : q.queue_tail ≡ last_of items
  pub linked : Linked q.memory items

last_of-none : (items : List Item) → last_of items ≡ none → items ≡ []
unfolding last_of
last_of-none [] e = refl
last_of-none (item ∷ []) e = cc
last_of-none (item ∷ (next ∷ items)) e = absurd (cc (last_of-none (next ∷ items) e))

head_of-append :
    (items : List Item) (tail : ℕ) (item : Item)
    → last_of items ≡ some tail
    → head_of (items ++ (item ∷ [])) ≡ head_of items
unfolding head_of last_of
head_of-append [] tail item e = cc
head_of-append (first ∷ items) tail item e = refl

stored :
    (memory : Memory) (a : ℕ) (content : Option LogMessage) → store_at memory a content a ≡ content
unfolding store_at
stored memory a content = let e : (a == a) ≡ true = ground arith in rw e

stored_elsewhere :
    (memory : Memory) (a b : ℕ) (content : Option LogMessage)
    → (a == b) ≡ false
    → store_at memory a content b ≡ memory b
unfolding store_at
stored_elsewhere memory a b content ne = rw ne

pub unused_apart :
    (memory : Memory) (a b : ℕ) (m : LogMessage)
    → memory a ≡ none
    → memory b ≡ some m
    → (a == b) ≡ false
unused_apart memory a b m unused used = elim (Bool-cases (a == b)) [
  | inl e ↦ let at : a ≡ b = ground arith in absurd (cc)
  | inr e ↦ e
]

single :
    (memory : Memory) (msg : ℕ) (text : List ℕ)
    → memory msg ≡ some (record { text = text; next = none })
    → Holds
        (record { memory = memory; queue_head = some msg; queue_tail = some msg })
        ((msg, text) ∷ [])
unfolding head_of last_of Linked Absent
single memory msg text e = record { head_eq = refl; tail_eq = refl; linked = (e, tt, tt) }

-- async_logger_enqueue with memory appends, and touches no block but the new one and the last.
pub enqueued :
    (q : MessageQueue) (items : List Item) (text : List ℕ) (msg : ℕ)
    → Holds q items
    → q.memory msg ≡ none
    → (q' : MessageQueue) × (async_logger_enqueue q text (some msg) ≡ some q')
      × Holds q' (items ++ ((msg, text) ∷ []))
      × ((a : ℕ) (m : LogMessage) → q.memory a ≡ some m → Absent a items → q'.memory a ≡ some m)
unfolding async_logger_enqueue link
enqueued q items text msg holds unused =
    let new : LogMessage = record { text = text; next = none } in
    let memory = store_at q.memory msg (some new) in
    let absent = unused-Absent q.memory msg items unused holds.linked in
    let linked = Linked-store q.memory msg (some new) items absent holds.linked in
    let first = stored q.memory msg (some new) in
    let others = λ (a : ℕ) (m : LogMessage) (used : q.memory a ≡ some m).
      stored_elsewhere q.memory msg a (some new) (unused_apart q.memory msg a m unused used)
      ∙ used in
    elim (Option-cases (last_of items)) [
      | inl e ↦
          let none_yet = last_of-none items e in
          (
            record { memory = memory; queue_head = some msg; queue_tail = some msg },
            rw (holds.tail_eq, e),
            subst
                (λ l.
                  Holds (record { memory = memory; queue_head = some msg; queue_tail = some msg })
                    (l ++ ((msg, text) ∷ [])))
                (sym none_yet) (single memory msg text first),
            λ a m used absent_a. others a m used,
          )
      | inr (tail, e) ↦
          let (last, there, behind) = set_behind memory msg tail text items first absent linked e in
          (
            record {
              memory = store_at memory tail (some (record { text = last.text; next = some msg }));
              queue_head = q.queue_head;
              queue_tail = some msg;
            },
            rw (holds.tail_eq, e, there),
            record {
              head_eq = holds.head_eq ∙ sym (head_of-append items tail (msg, text) e);
              tail_eq = sym (last_of-append msg text items);
              linked = behind;
            },
            λ a m used absent_a.
                stored_elsewhere memory tail a (some (record { text = last.text; next = some msg }))
                  (last_apart a tail items absent_a e)
                ∙ others a m used,
          )
    ]

-- The writer takes the first message, which stays allocated, and leaves the others.
pub taken :
    (q : MessageQueue) (msg a : ℕ) (text : List ℕ) (items : List Item)
    → Holds q ((a, text) ∷ items)
    → q.queue_head ≡ some msg
    → (q' : MessageQueue) × (take_first q msg ≡ some q')
      × (msg ≡ a)
      × Holds q' items
      × (q'.memory ≡ q.memory)
unfolding take_first Linked head_of last_of tail_after
taken q msg a text items holds e =
    let at : msg ≡ a = cc (holds.head_eq) in
    let there : q.memory msg ≡ some (record { text = text; next = head_of items }) =
      subst (λ x. q.memory x ≡ some (record { text = text; next = head_of items })) (sym at)
        holds.linked.0 in
    (
      record {
        memory = q.memory;
        queue_head = head_of items;
        queue_tail = tail_after (head_of items) q.queue_tail;
      },
      rw there,
      at,
      record { head_eq = refl; tail_eq = after_first items holds.tail_eq; linked = holds.linked.2 },
      refl,
    )
  where
    after_first :
        (items : List Item)
        → q.queue_tail ≡ last_of ((a, text) ∷ items)
        → tail_after (head_of items) q.queue_tail ≡ last_of items
    after_first [] h = refl
    after_first (item ∷ items) h = h

pub freed :
    (q : MessageQueue) (a : ℕ) (items : List Item)
    → Holds q items
    → Absent a items
    → Holds (free_message q a) items
unfolding free_message
freed q a items holds absent = record {
  head_eq = holds.head_eq;
  tail_eq = holds.tail_eq;
  linked = Linked-store q.memory a none items absent holds.linked;
}

-- The last loop ends, and writes all that is left, in order.
pub drained :
    (q : MessageQueue) (items : List Item)
    → Linked q.memory items
    → (q' : MessageQueue) × (drain (length items) q (head_of items) ≡ some (texts_of items, q'))
unfolding drain head_of Linked free_message
drained q [] linked = (q, refl)
drained q ((a, text) ∷ items) linked =
    let q_next = free_message (record q { queue_head = head_of items }) a in
    let (q', e) = drained q_next items (Linked-store q.memory a none items linked.1 linked.2) in
    (q', rw (linked.0, e))

pub drain-texts_of :
    (turns : ℕ) (q q' : MessageQueue) (items : List Item) (texts : List (List ℕ))
    → Linked q.memory items
    → drain turns q (head_of items) ≡ some (texts, q')
    → texts ≡ texts_of items
unfolding drain head_of Linked free_message
drain-texts_of turns q q' [] texts linked e = cc
drain-texts_of zero q q' ((a, text) ∷ items) texts linked e = cc
drain-texts_of (suc turns) q q' ((a, text) ∷ items) texts linked e =
    let q_next = free_message (record q { queue_head = head_of items }) a in
    let later = Linked-store q.memory a none items linked.1 linked.2 in
    elim (Option-cases (drain turns q_next (head_of items))) [
      | inl f ↦ cc (rw (linked.0, f) at e)
      | inr ((rest, q''), f) ↦
          let ih = drain-texts_of turns q_next q'' items rest later f in
          cc (ih, rw (linked.0, f) at e)
    ]
