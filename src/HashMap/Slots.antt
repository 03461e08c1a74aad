-- ===== src/HashMap/Slots.antt =====
-- 08_search_sort_homework/hashmap_open.c: what an array of baskets holds, whatever its order.
use otus_c_prog.Common.{
  ℕ, zero, suc, ◌≤◌, ◌<◌, ◌≡◌, refl, ap, ◌∙◌, true, false, if◌then◌else◌, List, [], ◌∷◌, length,
  set, Option, none, some, arith, Bool-cases, inl, inr,
}
use mathlib.Core.Path.{subst}
use otus_c_prog.Common.Text.{same, same_refl, same-eq}
use otus_c_prog.HashMap.{Entry, Slot, occupied, holds, slot_at}

-- The number of a key.
unfoldable pub lookup : List Slot → List ℕ → Option ℕ
lookup [] key = none
lookup (none ∷ slots) key = lookup slots key
lookup (some e ∷ slots) key =
    let rest = lookup slots key in if same e.key key then some e.value else rest

-- How many baskets are not empty.
unfoldable pub occ : List Slot → ℕ
occ [] = 0
occ (none ∷ slots) = occ slots
occ (some e ∷ slots) = suc (occ slots)

-- No key stands in two baskets.
unfoldable pub Unique : List Slot → Type 0
Unique [] = Unit
Unique (none ∷ slots) = Unique slots
Unique (some e ∷ slots) = (lookup slots e.key ≡ none) × Unique slots

pub same_comm : (a b : List ℕ) → same a b ≡ true → same b a ≡ true
same_comm a b h = subst (λ c. same c a ≡ true) (same-eq a b h) (same_refl a)

pub same_sym : (a b : List ℕ) → same a b ≡ false → same b a ≡ false
same_sym a b h = elim (Bool-cases (same b a)) [ inl e ↦ absurd (cc (same_comm b a e)) | inr e ↦ e ]

pub lookup-none :
    (slots : List Slot) (key : List ℕ)
    → ((j : ℕ) → j < length slots → holds key (slot_at slots j) ≡ false)
    → lookup slots key ≡ none
unfolding lookup holds
lookup-none [] key h = refl
lookup-none (none ∷ slots) key h = lookup-none slots key (λ j lt. h (suc j) (omega arith))
lookup-none (some e ∷ slots) key h =
    rw (h 0 (omega arith)) (lookup-none slots key (λ j lt. h (suc j) (omega arith)))

pub lookup_at :
    (slots : List Slot) (j : ℕ) (e : Entry)
    → Unique slots
    → slot_at slots j ≡ some e
    → lookup slots e.key ≡ some e.value
unfolding lookup Unique
lookup_at [] j e u h = cc
lookup_at (none ∷ slots) zero e u h = cc
lookup_at (some d ∷ slots) zero e u h =
    let eq : d ≡ e = cc in
    subst (λ (x : Entry). lookup (some d ∷ slots) x.key ≡ some x.value) eq (rw (same_refl d.key))
lookup_at (none ∷ slots) (suc j) e u h = lookup_at slots j e u h
lookup_at (some d ∷ slots) (suc j) e u h =
    let found = lookup_at slots j e u.1 h in
    elim (Bool-cases (same d.key e.key)) [
      | inl eq ↦ absurd (cc (same-eq d.key e.key eq))
      | inr ne ↦ rw ne found
    ]

pub lookup_where :
    (slots : List Slot) (key : List ℕ) (v : ℕ)
    → lookup slots key ≡ some v
    → (i : ℕ) × (e : Entry) × (i < length slots)
      × (slot_at slots i ≡ some e)
      × (same e.key key ≡ true)
unfolding lookup
lookup_where [] key v h = cc
lookup_where (none ∷ slots) key v h =
    let (i, e, lt, at, eq) = lookup_where slots key v h in (suc i, e, omega arith, at, eq)
lookup_where (some d ∷ slots) key v h = elim (Bool-cases (same d.key key)) [
  | inl eq ↦ (0, d, omega arith, refl, eq)
  | inr ne ↦
      let (i, e, lt, at, eq) = lookup_where slots key v (rw ne at h) in
      (suc i, e, omega arith, at, eq)
]

module _ (e : Entry) where
  pub lookup-set_new :
      (slots : List Slot) (i : ℕ) (k : List ℕ)
      → i < length slots
      → slot_at slots i ≡ none
      → lookup slots e.key ≡ none
      → lookup (set slots i (some e)) k ≡ (if same e.key k then some e.value else lookup slots k)
  unfolding lookup
  lookup-set_new [] i k lt at new = absurd (omega arith)
  lookup-set_new (none ∷ slots) zero k lt at new = refl
  lookup-set_new (some d ∷ slots) zero k lt at new = cc
  lookup-set_new (none ∷ slots) (suc i) k lt at new = lookup-set_new slots i k (omega arith) at new
  lookup-set_new (some d ∷ slots) (suc i) k lt at new = elim (Bool-cases (same d.key e.key)) [
    | inl eq ↦ absurd (cc (rw eq at new))
    | inr ne ↦
        let ih = lookup-set_new slots i k (omega arith) at (rw ne at new) in
        elim (Bool-cases (same d.key k)) [
          | inl f ↦ elim (Bool-cases (same e.key k)) [
            | inl g ↦ absurd (cc (same-eq e.key k g))
            | inr g ↦ rw (f, g)
          ]
          | inr f ↦ rw f ih
        ]
  ]

  pub Unique-set_new :
      (slots : List Slot) (i : ℕ)
      → i < length slots
      → slot_at slots i ≡ none
      → lookup slots e.key ≡ none
      → Unique slots
      → Unique (set slots i (some e))
  unfolding Unique lookup
  Unique-set_new [] i lt at new u = absurd (omega arith)
  Unique-set_new (none ∷ slots) zero lt at new u = (new, u)
  Unique-set_new (some d ∷ slots) zero lt at new u = cc
  Unique-set_new (none ∷ slots) (suc i) lt at new u = Unique-set_new slots i (omega arith) at new u
  Unique-set_new (some d ∷ slots) (suc i) lt at new u = elim (Bool-cases (same d.key e.key)) [
    | inl eq ↦ absurd (cc (rw eq at new))
    | inr ne ↦
        let later = rw ne at new in
        (
          lookup-set_new slots i d.key (omega arith) at later ∙ rw (same_sym d.key e.key ne) u.0,
          Unique-set_new slots i (omega arith) at later u.1,
        )
  ]

pub occ-set_new :
    (slots : List Slot) (i : ℕ) (e : Entry)
    → i < length slots
    → slot_at slots i ≡ none
    → occ (set slots i (some e)) ≡ suc (occ slots)
unfolding occ
occ-set_new [] i e lt at = absurd (omega arith)
occ-set_new (none ∷ slots) zero e lt at = refl
occ-set_new (some d ∷ slots) zero e lt at = cc
occ-set_new (none ∷ slots) (suc i) e lt at = occ-set_new slots i e (omega arith) at
occ-set_new (some d ∷ slots) (suc i) e lt at = ap suc (occ-set_new slots i e (omega arith) at)

pub occ-le : (slots : List Slot) → occ slots ≤ length slots
unfolding occ
occ-le [] = omega arith
occ-le (none ∷ slots) = omega (arith, occ-le slots)
occ-le (some e ∷ slots) = omega (arith, occ-le slots)

pub occ_full :
    (slots : List Slot)
    → ((j : ℕ) → j < length slots → occupied (slot_at slots j) ≡ true)
    → occ slots ≡ length slots
unfolding occ occupied
occ_full [] h = refl
occ_full (none ∷ slots) h = absurd (cc (h 0 (omega arith)))
occ_full (some e ∷ slots) h = ap suc (occ_full slots (λ j lt. h (suc j) (omega arith)))
