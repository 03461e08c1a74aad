-- ===== src/Logger/Queue/Linked.antt =====
-- 12_error_handling/logger.c: the messages that a queue stands for.
use otus_c_prog.Common.{
  ℕ, ◌==◌, ◌≡◌, refl, ap, inl, inr, false, List, [], ◌∷◌, ◌++◌, Option, none, some, arith,
  Bool-cases,
}
use mathlib.Core.Path.{subst}
use otus_c_prog.Logger.Queue.{LogMessage, Memory, store_at}

-- A message of the list: its address and its text.
abbrev pub Item : Type 0
Item = ℕ × List ℕ

abbrev pub texts_of : List Item → List (List ℕ)
texts_of [] = []
texts_of ((address, text) ∷ items) = text ∷ texts_of items

-- No message stands at the address.
unfoldable pub Absent : ℕ → List Item → Type 0
Absent address [] = Unit
Absent address ((other, text) ∷ items) = ((address == other) ≡ false) × Absent address items

unfoldable pub last_of : List Item → Option ℕ
last_of [] = none
last_of ((address, text) ∷ []) = some address
last_of (item ∷ (next ∷ items)) = last_of (next ∷ items)

unfoldable pub head_of : List Item → Option ℕ
head_of [] = none
head_of ((address, text) ∷ items) = some address

-- The messages are linked in this order, each at an address of its own.
unfoldable pub Linked : Memory → List Item → Type 0
Linked memory [] = Unit
Linked memory ((address, text) ∷ items) =
    (memory address ≡ some (record { text = text; next = head_of items }))
    × Absent address items
    × Linked memory items

pub Linked-store :
    (memory : Memory) (address : ℕ) (content : Option LogMessage) (items : List Item)
    → Absent address items
    → Linked memory items
    → Linked (store_at memory address content) items
unfolding Linked Absent store_at
Linked-store memory address content [] absent linked = tt
Linked-store memory address content ((other, text) ∷ items) absent linked =
    (rw absent.0 linked.0, linked.1, Linked-store memory address content items absent.1 linked.2)

-- A block that is not allocated is no message of the list.
pub unused-Absent :
    (memory : Memory) (address : ℕ) (items : List Item)
    → memory address ≡ none
    → Linked memory items
    → Absent address items
unfolding Linked Absent
unused-Absent memory address [] unused linked = tt
unused-Absent memory address ((other, text) ∷ items) unused linked = (
  elim (Bool-cases (address == other)) [
    | inl e ↦ let at : address ≡ other = ground arith in absurd (cc)
    | inr e ↦ e
  ],
  unused-Absent memory address items unused linked.2,
)

eq_comm : (a b : ℕ) → (a == b) ≡ false → (b == a) ≡ false
eq_comm a b h = ground arith

pub Absent-append :
    (a b : ℕ) (text : List ℕ) (items : List Item)
    → Absent a items
    → (a == b) ≡ false
    → Absent a (items ++ ((b, text) ∷ []))
unfolding Absent
Absent-append a b text [] absent ne = (ne, tt)
Absent-append a b text ((other, _) ∷ items) absent ne =
    (absent.0, Absent-append a b text items absent.1 ne)

pub last_apart :
    (a tail : ℕ) (items : List Item)
    → Absent a items
    → last_of items ≡ some tail
    → (tail == a) ≡ false
unfolding Absent last_of
last_apart a tail [] absent e = cc
last_apart a tail ((other, text) ∷ []) absent e =
    let at : other ≡ tail = cc in subst (λ x. (x == a) ≡ false) at (eq_comm a other absent.0)
last_apart a tail ((other, text) ∷ (item ∷ items)) absent e =
    last_apart a tail (item ∷ items) absent.1 e

pub last_of-append :
    (msg : ℕ) (text : List ℕ) (items : List Item) → last_of (items ++ ((msg, text) ∷ [])) ≡ some msg
unfolding last_of
last_of-append msg text [] = refl
last_of-append msg text (item ∷ []) = refl
last_of-append msg text (item ∷ (next ∷ items)) = last_of-append msg text (next ∷ items)

pub texts_of-append :
    (msg : ℕ) (text : List ℕ) (items : List Item)
    → texts_of (items ++ ((msg, text) ∷ [])) ≡ texts_of items ++ (text ∷ [])
texts_of-append msg text [] = refl
texts_of-append msg text ((_, first) ∷ items) = ap (λ l. first ∷ l) (texts_of-append msg text items)

-- The last message is linked to one behind it.
pub set_behind :
    (memory : Memory) (msg tail : ℕ) (text : List ℕ) (items : List Item)
    → memory msg ≡ some (record { text = text; next = none })
    → Absent msg items
    → Linked memory items
    → last_of items ≡ some tail
    → (last : LogMessage) × (memory tail ≡ some last)
      × Linked
          (store_at memory tail (some (record { text = last.text; next = some msg })))
          (items ++ ((msg, text) ∷ []))
unfolding Linked Absent last_of head_of store_at
set_behind memory msg tail text [] new absent linked e = cc
set_behind memory msg tail text ((a, t) ∷ []) new absent linked e =
    let at : a ≡ tail = cc in
    let apart = eq_comm msg a absent.0 in
    subst
      (λ (x : ℕ).
        (last : LogMessage) × (memory x ≡ some last)
        × Linked (store_at memory x (some (record { text = last.text; next = some msg })))
            ((a, t) ∷ (msg, text) ∷ []))
      at
      (
        record { text = t; next = none },
        linked.0,
        (ground arith, (apart, tt), (rw apart new, tt, tt)),
      )
set_behind memory msg tail text ((a, t) ∷ (item ∷ items)) new absent linked e =
    let (last, there, rest) =
      set_behind memory msg tail text (item ∷ items) new absent.1 linked.2 e in
    let apart = last_apart a tail (item ∷ items) linked.1 e in
    (
      last,
      there,
      (
        rw apart linked.0,
        Absent-append a msg text (item ∷ items) linked.1 (eq_comm msg a absent.0),
        rest,
      ),
    )
