-- ===== src/HashMap/Printed.antt =====
-- 08_search_sort_homework/hashmap_open.c: what printDescending prints.
use otus_c_prog.Common.{
  ℕ, zero, suc, ◌+◌, ◌%◌, ◌^◌, ◌≤◌, ◌≡◌, inl, inr, refl, sym, ap, ◌∙◌, if◌then◌else◌, List, [], ◌∷◌,
  length, set, Option, none, some, arith, Bool-cases,
}
use mathlib.Core.Path.{subst}
use mathlib.Core.Option.{some-injective}
use otus_c_prog.Common.Text.{same, same-eq}
use otus_c_prog.HashMap.{Entry, Slot, Hashmap, slot_at}
use otus_c_prog.HashMap.Slots.{lookup, lookup_at, occ, Unique}
use otus_c_prog.HashMap.Good.{IsGood}
use otus_c_prog.HashMap.Lost.{lookup-set_clear, occ-set_clear}
use otus_c_prog.HashMap.Chosen.{
  hide, choose-hide, hide_all, hide_chosen, nothing_yet, choose_greatest,
}
use otus_c_prog.HashMap.Grow.{Scaled}
use otus_c_prog.HashMap.Find.{get-lookup}
use otus_c_prog.HashMap.Tally.{words_of, times, number, count_words-get}
use otus_c_prog.HashMap.Descending.{
  is_chosen, Printed, printed_key, chosen_after, print_lines, print_descending, word_frequencies,
}

lookup_cleared :
    (slots : List Slot) (i : ℕ) (k : List ℕ)
    → lookup slots k ≡ none
    → lookup (set slots i none) k ≡ none
unfolding lookup
lookup_cleared [] i k e = e
lookup_cleared (none ∷ slots) zero k e = e
lookup_cleared (some c ∷ slots) zero k e = elim (Bool-cases (same c.key k)) [
  | inl f ↦ cc (rw f at e)
  | inr f ↦ rw f at e
]
lookup_cleared (none ∷ slots) (suc i) k e = lookup_cleared slots i k e
lookup_cleared (some c ∷ slots) (suc i) k e = elim (Bool-cases (same c.key k)) [
  | inl f ↦ cc (rw f at e)
  | inr f ↦ rw f (lookup_cleared slots i k (rw f at e))
]

Unique-set_clear : (slots : List Slot) (i : ℕ) → Unique slots → Unique (set slots i none)
unfolding Unique
Unique-set_clear [] i u = u
Unique-set_clear (none ∷ slots) zero u = u
Unique-set_clear (some c ∷ slots) zero u = u.1
Unique-set_clear (none ∷ slots) (suc i) u = Unique-set_clear slots i u
Unique-set_clear (some c ∷ slots) (suc i) u =
    (lookup_cleared slots i c.key u.0, Unique-set_clear slots i u.1)

-- The numbers that are printed with a key.
unfoldable pub printed_for : List ℕ → List Printed → List ℕ
printed_for key [] = []
printed_for key ((number, word) ∷ lines) =
    let rest = printed_for key lines in if same word key then number ∷ rest else rest

-- The lines go down from a number.
unfoldable pub Descends : ℕ → List Printed → Type 0
Descends bound [] = Unit
Descends bound ((number, word) ∷ lines) = (number ≤ bound) × Descends number lines

abbrev pub list_of : Option ℕ → List ℕ
list_of none = []
list_of (some n) = n ∷ []

still_there :
    (slots : List Slot) (i k : ℕ) (d : Entry)
    → slot_at (set slots i none) k ≡ some d
    → slot_at slots k ≡ some d
still_there [] i k d at = at
still_there (s ∷ slots) zero zero d at = cc
still_there (s ∷ slots) zero (suc k) d at = at
still_there (s ∷ slots) (suc i) zero d at = at
still_there (s ∷ slots) (suc i) (suc k) d at = still_there slots i k d at

hide_slot :
    (chosen : List ℕ) (j i : ℕ) (slots : List Slot) (e : Entry)
    → slot_at (hide chosen j slots) i ≡ some e
    → slot_at slots i ≡ some e
unfolding hide
hide_slot chosen j i [] e at = at
hide_slot chosen j zero (s ∷ slots) e at = elim (Bool-cases (is_chosen j chosen)) [
  | inl hidden ↦ cc (rw hidden at at)
  | inr seen ↦ rw seen at at
]
hide_slot chosen j (suc i) (s ∷ slots) e at = hide_slot chosen (suc j) i slots e at

lookup_empty : (slots : List Slot) (k : List ℕ) → occ slots ≡ 0 → lookup slots k ≡ none
unfolding lookup occ
lookup_empty [] k e = refl
lookup_empty (none ∷ slots) k e = lookup_empty slots k e
lookup_empty (some d ∷ slots) k e = absurd (omega (arith, e))

-- The first line, and the others of the baskets without its own.
one_more :
    (slots : List Slot) (i : ℕ) (e : Entry) (lines : List Printed) (k : List ℕ)
    → Unique slots
    → slot_at slots i ≡ some e
    → printed_for k lines ≡ list_of (lookup (set slots i none) k)
    → printed_for k ((e.value, e.key) ∷ lines) ≡ list_of (lookup slots k)
unfolding printed_for
one_more slots i e lines k u at rest =
    let cleared = lookup-set_clear slots i e k u at in
    elim (Bool-cases (same e.key k)) [
      | inl eq ↦
          let here : lookup slots k ≡ some e.value =
            subst (λ x. lookup slots x ≡ some e.value) (same-eq e.key k eq)
              (lookup_at slots i e u at) in
          let none_left : lookup (set slots i none) k ≡ none = rw eq at cleared in
          rw (eq, here, rest, none_left)
      | inr ne ↦ let kept = rw ne at cleared in rw (ne, rest, kept)
    ]

printed_lines :
    (n : ℕ) (slots : List Slot) (chosen : List ℕ) (bound : ℕ)
    → Unique (hide chosen 0 slots)
    → occ (hide chosen 0 slots) ≡ n
    → ((k : ℕ) (d : Entry) → slot_at (hide chosen 0 slots) k ≡ some d → d.value ≤ bound)
    → (lines : List Printed) × (print_lines n slots chosen ≡ some lines)
      × (length lines ≡ n)
      × Descends bound lines
      × ((k : List ℕ) → printed_for k lines ≡ list_of (lookup (hide chosen 0 slots) k))
unfolding print_lines Descends printed_for printed_key chosen_after
printed_lines zero slots chosen bound u left most =
    ([], refl, refl, tt, λ k. rw (lookup_empty (hide chosen 0 slots) k left))
printed_lines (suc n) slots chosen bound u left most =
    let rest_slots = hide chosen 0 slots in
    let (i, e, key, at, value, greatest) = choose_greatest rest_slots (omega (arith, left)) in
    let same_choice = choose-hide chosen 0 slots nothing_yet in
    let index : i ≡ 0 + i = omega arith in
    let without = hide_chosen chosen 0 i i slots index in
    let fewer = occ-set_clear rest_slots i e at in
    let (lines, eq, len, down, all) =
      printed_lines n slots (i ∷ chosen) e.value
        (subst Unique (sym without) (Unique-set_clear rest_slots i u))
        (ap occ without ∙ omega (arith, fewer, left))
        (λ k d at_k.
          greatest k d
            (still_there rest_slots i k d (subst (λ l. slot_at l k ≡ some d) without at_k))) in
    (
      (e.value, e.key) ∷ lines,
      rw (same_choice, key, hide_slot chosen 0 i slots e at, eq, sym value),
      ap suc len,
      (most i e at, down),
      λ k. one_more rest_slots i e lines k u at (all k ∙ ap (λ l. list_of (lookup l k)) without),
    )

-- printDescending, for a map that keeps the invariant and has no number above the bound, prints as
-- many lines as the map has entries, in descending order from the bound, and for every key its number
-- once, or nothing if it has none.
print_descending-sorted :
    (map : Hashmap) (bound : ℕ)
    → IsGood map
    → ((k : ℕ) (e : Entry) → slot_at map.slots k ≡ some e → e.value ≤ bound)
    → (lines : List Printed) × (print_descending map ≡ some lines)
      × (length lines ≡ map.size)
      × Descends bound lines
      × ((k : List ℕ) → printed_for k lines ≡ list_of (lookup map.slots k))
unfolding print_descending
print_descending-sorted map bound good most =
    let shown = hide_all 0 map.slots in
    let (lines, eq, len, down, all) =
      printed_lines map.size map.slots [] bound (subst Unique (sym shown) good.unique)
        (ap occ shown ∙ good.size_eq)
        (λ k e at. most k e (subst (λ l. slot_at l k ≡ some e) shown at)) in
    (lines, eq, len, down, λ k. all k ∙ ap (λ l. list_of (lookup l k)) shown)

number-le : (n v : ℕ) → number n ≡ some v → v ≤ 2 ^ 64
number-le zero v e = cc
number-le (suc n) v e = let value : suc n % 2 ^ 64 ≡ v = cc in omega (arith, value)

-- Where the products keep to Scaled, the program ends for every text, and prints lines in
-- descending order of their numbers, in which every word of the text, cut to 127 bytes, stands
-- once, with how often it occurs, modulo 2^64, and no other key stands. The last word is left out
-- if no separator ends it.
pub word_frequencies-sorted :
    (load grow : ℕ → ℕ) (input : List ℕ)
    → Scaled load grow
    → (lines : List Printed) × (word_frequencies load grow input ≡ some lines)
      × Descends (2 ^ 64) lines
      × ((k : List ℕ) → printed_for k lines ≡ list_of (number (times k (words_of [] input))))
unfolding word_frequencies
word_frequencies-sorted load grow input scaled =
    let (map, counted, good, got) = count_words-get load grow scaled input in
    let numbers = λ (k : List ℕ). some-injective _ _ (sym (get-lookup map good k) ∙ got k) in
    let (lines, eq, len, down, all) = print_descending-sorted map (2 ^ 64) good (λ k e at.
      number-le (times e.key (words_of [] input)) e.value
        (sym (numbers e.key) ∙ lookup_at map.slots k e good.unique at)) in
    (lines, rw counted eq, down, λ k. all k ∙ ap list_of (numbers k))
