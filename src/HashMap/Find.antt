-- ===== src/HashMap/Find.antt =====
-- 08_search_sort_homework/hashmap_open.c: get finds what is there, and xremove takes it out.
use otus_c_prog.Common.{
  ℕ, zero, suc, ◌<◌, ◌==◌, ◌≡◌, ◌⊎◌, refl, sym, ap, ◌∙◌, true, false, List, length, set, none, some,
  arith, Bool-cases, Option-cases, inl, inr,
}
use mathlib.Core.Path.{subst}
use mathlib.Core.Bool.{true≢false}
use otus_c_prog.Common.Text.{same-eq}
use otus_c_prog.HashMap.{
  Entry, Slot, Hashmap, slot_at, occupied, holds, home, find_key, entry_value, value_at, get,
}
use otus_c_prog.HashMap.Probe.{
  next_index, next_index-lt, probe, probe-some, probe-none, probe_here, steps, turns_to,
}
use otus_c_prog.HashMap.Slots.{lookup, lookup-none, lookup_at, lookup_where}
use otus_c_prog.HashMap.Good.{IsGood, is_free, home-lt}
use otus_c_prog.HashMap.Replace.{slot_set}

turns_next :
    (n init i : ℕ)
    → init < n
    → i < n
    → ((turns_to n init i ≡ 1) × ((next_index n i == init) ≡ true))
      ⊎ ((turns_to n init i ≡ suc (turns_to n init (next_index n i)))
          × ((next_index n i == init) ≡ false))
unfolding next_index
turns_next n init i hn hi = ground arith

-- With as many turns as lead back to the first basket, the loop is a search round the array.
find_key-probe :
    (slots : List Slot) (key : List ℕ) (init turns i : ℕ)
    → init < length slots
    → i < length slots
    → turns_to (length slots) init i ≡ turns
    → find_key turns slots key init i
      ≡ some (probe (length slots) (λ j. holds key (slot_at slots j)) turns i)
unfolding find_key probe
find_key-probe slots key init zero i hn hi e = absurd (ground arith)
find_key-probe slots key init (suc turns) i hn hi e =
    elim (Bool-cases (holds key (slot_at slots i))) [
      | inl here ↦ rw here
      | inr on ↦ elim (turns_next (length slots) init i hn hi) [
        | inl (one, back) ↦
            let last : 0 ≡ turns = omega (arith, one, e) in
            rw (on, back)
              (ap
                (λ t. some (
                  probe (length slots) (λ j. holds key (slot_at slots j)) t
                    (next_index (length slots) i)))
                last)
        | inr (more, further) ↦
            rw (on, further)
              (find_key-probe slots key init turns (next_index (length slots) i) hn
                (next_index-lt (length slots) i (omega arith) hi) (omega (arith, more, e)))
      ]
    ]

held_entry :
    (key : List ℕ) (s : Slot) → holds key s ≡ true → (e : Entry) × (s ≡ some e) × (e.key ≡ key)
unfolding holds
held_entry key none h = cc
held_entry key (some e) h = (e, refl, same-eq e.key key h)

-- The search of get and xremove ends: at the key, or when no basket holds it.
pub find_key-cases :
    (slots : List Slot) (key : List ℕ) (init : ℕ)
    → init < length slots
    → ((find_key (length slots) slots key init init ≡ some none) × (lookup slots key ≡ none))
      ⊎ ((i : ℕ) × (e : Entry) × (find_key (length slots) slots key init init ≡ some (some i))
          × (i < length slots)
          × (slot_at slots i ≡ some e)
          × (e.key ≡ key))
find_key-cases slots key init h =
    let n = length slots in
    let test = λ (j : ℕ). holds key (slot_at slots j) in
    let round : turns_to n init init ≡ n = ground arith in
    let search = find_key-probe slots key init n init h h round in
    elim (Option-cases (probe n test n init)) [
      | inl e ↦
          let nowhere = λ (j : ℕ) (lt : j < n).
            let all : steps n init j < n = ground arith in probe-none n test n init j h lt e all in
          inl (search ∙ ap some e, lookup-none slots key nowhere)
      | inr (i, e) ↦
          let (held, lt) = probe-some n test n init i h e in
          let (d, at, key_eq) = held_entry key (slot_at slots i) held in
          inr (i, d, search ∙ ap some e, lt, at, key_eq)
    ]

module _ (map : Hashmap) (good : IsGood map) where
  home_inside : (key : List ℕ) → home (length map.slots) key < length map.slots
  home_inside key = home-lt (length map.slots) key (omega (arith, good.bounded))

  -- A key that is there leaves no empty basket where its search begins.
  home_full :
      (key : List ℕ) (v : ℕ)
      → lookup map.slots key ≡ some v
      → occupied (slot_at map.slots (home (length map.slots) key)) ≡ true
  unfolding occupied
  home_full key v h =
      let n = length map.slots in
      let (i, e, lt, at, eq) = lookup_where map.slots key v h in
      let start = home n e.key in
      let led = good.settled i e lt at in
      let key_eq = same-eq e.key key eq in
      let emptied = slot_set map.slots i start none lt in
      subst (λ k. occupied (slot_at map.slots (home n k)) ≡ true) key_eq
        (elim (Bool-cases (occupied (slot_at map.slots start))) [
          | inl full ↦ full
          | inr empty ↦
              let free : is_free (set map.slots i none) start ≡ true = ground (arith, emptied) in
              let there =
                probe_here n (is_free (set map.slots i none)) n start (omega arith) free in
              let at_start : i ≡ start = cc in
              subst (λ j. occupied (slot_at map.slots j) ≡ true) at_start (ap occupied at)
        ])

  pub get-lookup : (key : List ℕ) → get map key ≡ some (lookup map.slots key)
  unfolding get value_at entry_value
  get-lookup key =
      let start = home (length map.slots) key in
      elim (Bool-cases (occupied (slot_at map.slots start))) [
        | inl full ↦ elim (find_key-cases map.slots key start (home_inside key)) [
          | inl (nowhere, e) ↦ rw (full, nowhere, e)
          | inr (i, d, found, lt, at, key_eq) ↦
              let there = lookup_at map.slots i d good.unique at in
              rw (full, found, at)
                (ap some (sym (subst (λ k. lookup map.slots k ≡ some d.value) key_eq there)))
        ]
        | inr empty ↦ elim (Option-cases (lookup map.slots key)) [
          | inl e ↦ rw (empty, e)
          | inr (v, e) ↦ absurd (true≢false (sym (home_full key v e) ∙ empty))
        ]
      ]
