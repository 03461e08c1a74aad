-- ===== src/HashMap/Tests.antt =====
-- 08_search_sort_homework/hashmap_open.c: small texts and a map of two baskets.
use otus_c_prog.Common.{
  ℕ, zero, suc, ◌+◌, ◌*◌, ◌/◌, ◌^◌, ◌<◌, ◌≡◌, ◌⊎◌, refl, arith, if◌then◌else◌, List, [], ◌∷◌, set,
  none, some,
}
use mathlib.Core.Path.{subst}
use otus_c_prog.Common.Text.{codes, same}
use otus_c_prog.HashMap.{
  Entry, Hashmap, hash_from, hashcode, home, slot_at, occupied, holds, find_key, value_at,
  entry_value, get, xremove, take_out, find_free, place, create_hashmap, raw_put, put,
}
use otus_c_prog.HashMap.Probe.{next_index, probe}
use otus_c_prog.HashMap.Slots.{lookup, occ, Unique}
use otus_c_prog.HashMap.Good.{IsGood, Leads}
use otus_c_prog.HashMap.Grow.{Scaled}
use otus_c_prog.HashMap.Words.{
  is_separator, recount, count_word, count_byte, count_bytes, count_words,
}
use otus_c_prog.HashMap.Tally.{words_of, times, number, count_words-get}
use otus_c_prog.HashMap.Descending.{
  is_chosen, better, choose, Printed, printed_key, chosen_after, print_lines, print_descending,
  word_frequencies,
}
use otus_c_prog.HashMap.Printed.{printed_for, Descends, list_of, word_frequencies-sorted}
use otus_c_prog.HashMap.Lost.{xremove-lookup, get-xremove}

-- The factors 0.5 and 2.0 of countWords.
abbrev half_of : ℕ → ℕ
half_of n = n / 2

abbrev twice_of : ℕ → ℕ
twice_of n = n * 2

half_of-Scaled : Scaled half_of twice_of
half_of-Scaled = record {
  load-lt = λ n pos. omega arith;
  half = λ n m h. omega arith;
  twice = λ n. omega arith;
}

words :
    words_of [] (codes "to be, or not to be.")
    ≡ codes "to" ∷ codes "be" ∷ codes "or" ∷ codes "not" ∷ codes "to" ∷ codes "be" ∷ []
unfolding words_of is_separator
words = refl

count_words-get_example :
    (map : Hashmap) × (count_words half_of twice_of (codes "to be, or not to be.") ≡ some map)
    × IsGood map
    × ((k : List ℕ)
        → get map k ≡ some (number (times k (words_of [] (codes "to be, or not to be.")))))
count_words-get_example =
    count_words-get half_of twice_of half_of-Scaled (codes "to be, or not to be.")

-- 'a' and 'c' have the same first basket.
abbrev a : Entry
a = record { key = codes "a"; value = 5 }

abbrev c : Entry
c = record { key = codes "c"; value = 7 }

abbrev two_baskets : Hashmap
two_baskets = record { slots = some a ∷ some c ∷ []; size = 2; limit = 1 }

two_baskets_settled :
    (i : ℕ) (e : Entry)
    → i < 2
    → slot_at (some a ∷ some c ∷ []) i ≡ some e
    → Leads 2 (set (some a ∷ some c ∷ []) i none) e.key i
unfolding probe next_index occupied home hashcode hash_from
two_baskets_settled zero e lt at =
    let eq : a ≡ e = cc in subst (λ (x : Entry). Leads 2 (none ∷ some c ∷ []) x.key 0) eq refl
two_baskets_settled (suc zero) e lt at =
    let eq : c ≡ e = cc in subst (λ (x : Entry). Leads 2 (some a ∷ none ∷ []) x.key 1) eq refl
two_baskets_settled (suc (suc i)) e lt at = absurd (omega arith)

two_baskets-IsGood : IsGood two_baskets
unfolding Unique lookup occ same
two_baskets-IsGood = record {
  unique = (refl, (refl, tt));
  size_eq = refl;
  bounded = omega arith;
  room = omega arith;
  settled = two_baskets_settled;
}

xremove-lookup_example :
    ((lookup two_baskets.slots (codes "c") ≡ none)
      × (xremove two_baskets (codes "c") ≡ some (two_baskets, none)))
    ⊎ ((v : ℕ) × (map' : Hashmap) × (lookup two_baskets.slots (codes "c") ≡ some v)
        × (xremove two_baskets (codes "c")
            ≡ some (map', some (record { key = codes "c"; value = v })))
        × (map'.size + 1 ≡ two_baskets.size)
        × (occ map'.slots ≡ map'.size)
        × ((k : List ℕ)
            → lookup map'.slots k
              ≡ (if same (codes "c") k then none else lookup two_baskets.slots k)))
xremove-lookup_example = xremove-lookup two_baskets (codes "c") two_baskets-IsGood

get-xremove_example :
    (map' : Hashmap) × (xremove two_baskets (codes "a") ≡ some (map', some a))
    × (get two_baskets (codes "c") ≡ some (some 7))
    × (lookup map'.slots (codes "c") ≡ some 7)
    × (get map' (codes "c") ≡ some none)
unfolding lookup home hashcode hash_from same
get-xremove_example = get-xremove two_baskets a (codes "c") 7 two_baskets-IsGood refl refl refl

word_frequencies-sorted_example :
    (lines : List Printed) × (word_frequencies half_of twice_of (codes "to be, or not to be.")
      ≡ some lines)
    × Descends (2 ^ 64) lines
    × ((k : List ℕ)
        → printed_for k lines
          ≡ list_of (number (times k (words_of [] (codes "to be, or not to be.")))))
word_frequencies-sorted_example =
    word_frequencies-sorted half_of twice_of (codes "to be, or not to be.") half_of-Scaled

run :
    word_frequencies half_of twice_of (codes "b a b ") ≡ some ((2, codes "b") ∷ (1, codes "a") ∷ [])
unfolding word_frequencies count_words count_bytes count_byte is_separator count_word recount get
    xremove put raw_put place find_free probe next_index create_hashmap find_key value_at
    entry_value take_out occupied holds home hashcode hash_from same print_descending print_lines
    choose better is_chosen printed_key chosen_after
run = refl
