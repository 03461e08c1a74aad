-- ===== src/HashMap/Chosen.antt =====
-- 08_search_sort_homework/hashmap_open.c: which baskets printDescending chooses.
use otus_c_prog.Common.{
  ℕ, zero, suc, ◌+◌, ◌≤◌, ◌<◌, ◌==◌, ◌≡◌, ◌≢◌, ◌⊎◌, inl, inr, refl, sym, ap, ◌∙◌, leb, true, false,
  if◌then◌else◌, List, [], ◌∷◌, set, none, some, arith, Bool-cases,
}
use mathlib.Core.Path.{subst}
use otus_c_prog.HashMap.{Entry, Slot, slot_at}
use otus_c_prog.HashMap.Slots.{occ}
use otus_c_prog.HashMap.Descending.{is_chosen, Best, better, choose}

-- The baskets without those that were chosen.
unfoldable pub hide : List ℕ → ℕ → List Slot → List Slot
hide chosen j [] = []
hide chosen j (s ∷ slots) =
    let rest = hide chosen (suc j) slots in (if is_chosen j chosen then none else s) ∷ rest

pub choose-hide :
    (chosen : List ℕ) (j : ℕ) (slots : List Slot) (best : Best)
    → choose chosen j slots best ≡ choose [] j (hide chosen j slots) best
unfolding choose hide better is_chosen
choose-hide chosen j [] best = refl
choose-hide chosen j (none ∷ slots) best = elim (Bool-cases (is_chosen j chosen)) [
  | inl e ↦ rw e (choose-hide chosen (suc j) slots best)
  | inr e ↦ rw e (choose-hide chosen (suc j) slots best)
]
choose-hide chosen j (some e ∷ slots) best = elim (Bool-cases (is_chosen j chosen)) [
  | inl hidden ↦ elim (Bool-cases (leb best.max_value e.value)) [
    | inl more ↦ rw (hidden, more) (choose-hide chosen (suc j) slots best)
    | inr less ↦ rw (hidden, less) (choose-hide chosen (suc j) slots best)
  ]
  | inr seen ↦ rw seen (choose-hide chosen (suc j) slots _)
]

pub hide_all : (j : ℕ) (slots : List Slot) → hide [] j slots ≡ slots
unfolding hide is_chosen
hide_all j [] = refl
hide_all j (s ∷ slots) = ap (λ l. s ∷ l) (hide_all (suc j) slots)

hide_before :
    (chosen : List ℕ) (j k : ℕ) (slots : List Slot)
    → k < j
    → hide (k ∷ chosen) j slots ≡ hide chosen j slots
unfolding hide is_chosen
hide_before chosen j k [] lt = refl
hide_before chosen j k (s ∷ slots) lt =
    let ne : (j == k) ≡ false = ground (arith, lt) in
    rw (ne, hide_before chosen (suc j) k slots (omega (arith, lt)))

pub hide_chosen :
    (chosen : List ℕ) (j i k : ℕ) (slots : List Slot)
    → k ≡ j + i
    → hide (k ∷ chosen) j slots ≡ set (hide chosen j slots) i none
unfolding hide is_chosen
hide_chosen chosen j i k [] e = refl
hide_chosen chosen j zero k (s ∷ slots) e =
    let here : (j == k) ≡ true = ground (arith, e) in
    rw (here, hide_before chosen (suc j) k slots (omega (arith, e)))
hide_chosen chosen j (suc i) k (s ∷ slots) e =
    let ne : (j == k) ≡ false = ground (arith, e) in
    rw (ne, hide_chosen chosen (suc j) i k slots (omega (arith, e)))

-- What a run over the baskets from the one at j leads to.
record Chosen (j : ℕ) (slots : List Slot) (from to : Best) : Type 0 where
  more : from.max_value ≤ to.max_value
  most : (i : ℕ) (e : Entry) → slot_at slots i ≡ some e → e.value ≤ to.max_value
  where_from :
      (to ≡ from)
      ⊎ ((i : ℕ) × (e : Entry) × (to.key ≡ some (j + i))
          × (slot_at slots i ≡ some e)
          × (e.value ≡ to.max_value))

better_cases :
    (j : ℕ) (e : Entry) (best : Best)
    → ((best.max_value ≤ e.value)
        × (better [] j e best ≡ record { key = some j; max_value = e.value }))
      ⊎ ((e.value < best.max_value) × (better [] j e best ≡ best))
unfolding better is_chosen
better_cases j e best = elim (Bool-cases (leb best.max_value e.value)) [
  | inl h ↦ inl (ground (arith, h), ground (arith, h))
  | inr h ↦ inr (ground (arith, h), ground (arith, h))
]

most_later :
    (s : Slot) (slots : List Slot) (bound : ℕ)
    → ((e : Entry) → s ≡ some e → e.value ≤ bound)
    → ((i : ℕ) (e : Entry) → slot_at slots i ≡ some e → e.value ≤ bound)
    → (i : ℕ) (e : Entry) → slot_at (s ∷ slots) i ≡ some e
    → e.value ≤ bound
most_later s slots bound here there zero e at = here e at
most_later s slots bound here there (suc i) e at = there i e at

from_later :
    (j : ℕ) (s : Slot) (slots : List Slot) (to : Best) (i : ℕ) (e : Entry)
    → to.key ≡ some (suc j + i)
    → slot_at slots i ≡ some e
    → e.value ≡ to.max_value
    → (i' : ℕ) × (e' : Entry) × (to.key ≡ some (j + i'))
      × (slot_at (s ∷ slots) i' ≡ some e')
      × (e'.value ≡ to.max_value)
from_later j s slots to i e key at value =
    let shifted : suc j + i ≡ j + suc i = omega arith in
    (suc i, e, key ∙ ap some shifted, at, value)

choose_later :
    (j : ℕ) (s : Slot) (slots : List Slot) (from to : Best)
    → ((e : Entry) → s ≡ some e → e.value ≤ to.max_value)
    → Chosen (suc j) slots from to
    → Chosen j (s ∷ slots) from to
choose_later j s slots from to here rest = record {
  more = rest.more;
  most = most_later s slots to.max_value here rest.most;
  where_from = elim rest.where_from [
    | inl same_best ↦ inl same_best
    | inr (i, e, key, at, value) ↦ inr (from_later j s slots to i e key at value)
  ];
}

choose_here :
    (j : ℕ) (d : Entry) (slots : List Slot) (best to : Best)
    → best.max_value ≤ d.value
    → Chosen (suc j) slots (record { key = some j; max_value = d.value }) to
    → Chosen j (some d ∷ slots) best to
choose_here j d slots best to h rest = record {
  more = omega (arith, h, rest.more);
  most =
      most_later (some d) slots to.max_value
        (λ e eq. let values : d.value ≡ e.value = cc in omega (arith, values, rest.more)) rest.most;
  where_from = elim rest.where_from [
    | inl kept ↦
        let index : j ≡ j + 0 = omega arith in
        inr (
          0,
          d,
          ap (λ (b : Best). b.key) kept ∙ ap some index,
          refl,
          sym (ap (λ (b : Best). b.max_value) kept),
        )
    | inr (i, e, key, at, value) ↦ inr (from_later j (some d) slots to i e key at value)
  ];
}

choose-Chosen :
    (j : ℕ) (slots : List Slot) (best : Best) → Chosen j slots best (choose [] j slots best)
unfolding choose
choose-Chosen j [] best = record { more = omega arith; most = λ i e at. cc; where_from = inl refl }
choose-Chosen j (none ∷ slots) best =
    choose_later j none slots best (choose [] (suc j) slots best) (λ e at. cc)
      (choose-Chosen (suc j) slots best)
choose-Chosen j (some d ∷ slots) best =
    let to = choose [] (suc j) slots (better [] j d best) in
    let rest = choose-Chosen (suc j) slots (better [] j d best) in
    elim (better_cases j d best) [
      | inl (h, eq) ↦
          choose_here j d slots best to h (subst (λ b. Chosen (suc j) slots b to) eq rest)
      | inr (h, eq) ↦
          let same_from = subst (λ b. Chosen (suc j) slots b to) eq rest in
          choose_later j (some d) slots best to
            (λ e at.
              let values : d.value ≡ e.value = cc in omega (arith, values, h, same_from.more))
            same_from
    ]

abbrev pub nothing_yet : Best
nothing_yet = record { key = none; max_value = 0 }

-- A key is chosen as soon as a basket is full.
choose_keyed :
    (j : ℕ) (slots : List Slot) (best : Best)
    → (best.key ≡ none → (best.max_value ≡ 0) × (0 < occ slots))
    → (choose [] j slots best).key ≢ none
unfolding choose occ
choose_keyed j [] best h =
    λ unset. let (zero_yet, some_left) = h unset in absurd (omega (arith, some_left))
choose_keyed j (none ∷ slots) best h = choose_keyed (suc j) slots best h
choose_keyed j (some d ∷ slots) best h = elim (better_cases j d best) [
  | inl (more, eq) ↦
      choose_keyed (suc j) slots (better [] j d best)
        (λ unset. absurd (cc (ap (λ (b : Best). b.key) eq)))
  | inr (less, eq) ↦ choose_keyed (suc j) slots (better [] j d best) (λ unset.
      let (zero_yet, some_left) = h (sym (ap (λ (b : Best). b.key) eq) ∙ unset) in
      absurd (omega (arith, zero_yet, less)))
]

-- Where a basket is full, one of those with the greatest number is chosen.
pub choose_greatest :
    (slots : List Slot)
    → 0 < occ slots
    → (i : ℕ) × (e : Entry) × ((choose [] 0 slots nothing_yet).key ≡ some i)
      × (slot_at slots i ≡ some e)
      × (e.value ≡ (choose [] 0 slots nothing_yet).max_value)
      × ((k : ℕ) (d : Entry) → slot_at slots k ≡ some d → d.value ≤ e.value)
choose_greatest slots some_left =
    let run = choose-Chosen 0 slots nothing_yet in
    elim run.where_from [
      | inl nothing ↦ absurd (
          choose_keyed 0 slots nothing_yet (λ _. (refl, some_left))
            (ap (λ (b : Best). b.key) nothing))
      | inr (i, e, key, at, value) ↦
          let index : 0 + i ≡ i = omega arith in
          (
            i,
            e,
            key ∙ ap some index,
            at,
            value,
            λ k d at_k. omega (arith, run.most k d at_k, value),
          )
    ]
