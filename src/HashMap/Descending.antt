-- ===== src/HashMap/Descending.antt =====
-- 08_search_sort_homework/hashmap_open.c: printDescending. The pointer to a key is the index of its
-- basket.
use otus_c_prog.Common.{
  ℕ, zero, suc, ◌==◌, leb, ◌&&◌, ◌||◌, not, Bool, false, if◌then◌else◌, List, [], ◌∷◌, Option, none,
  some,
}
use otus_c_prog.HashMap.Words.{count_words}
use otus_c_prog.HashMap.{Entry, Slot, Hashmap, slot_at, ◌>>=◌}

-- Whether the basket is among those of `keysDesc`.
unfoldable pub is_chosen : ℕ → List ℕ → Bool
is_chosen j [] = false
is_chosen j (i ∷ chosen) = let rest = is_chosen j chosen in j == i || rest

-- `keysDesc[i]`, not set before the first choice, and `maxValue`.
pub record Best : Type 0 where
  pub key : Option ℕ
  pub max_value : ℕ

unfoldable pub better : List ℕ → ℕ → Entry → Best → Best
better chosen j e best =
    if leb best.max_value e.value && not (is_chosen j chosen)
    then record { key = some j; max_value = e.value }
    else best

-- The loop over the baskets.
unfoldable pub choose : List ℕ → ℕ → List Slot → Best → Best
choose chosen j [] best = best
choose chosen j (none ∷ slots) best = choose chosen (suc j) slots best
choose chosen j (some e ∷ slots) best = choose chosen (suc j) slots (better chosen j e best)

-- A line: the number and the key.
abbrev pub Printed : Type 0
Printed = ℕ × List ℕ

-- What is printed; a key that is not set has none.
unfoldable pub printed_key : List Slot → Option ℕ → Option (List ℕ)
printed_key slots none = none
printed_key slots (some j) = slot_at slots j >>= λ (e : Entry). some e.key

unfoldable pub chosen_after : List ℕ → Option ℕ → List ℕ
chosen_after chosen none = chosen
chosen_after chosen (some j) = j ∷ chosen

-- The loop over the lines.
unfoldable pub print_lines : ℕ → List Slot → List ℕ → Option (List Printed)
print_lines zero slots chosen = some []
print_lines (suc lines) slots chosen = do
  key ← printed_key slots (choose chosen 0 slots (record { key = none; max_value = 0 })).key
  rest ←
      print_lines lines slots
        (chosen_after chosen (choose chosen 0 slots (record { key = none; max_value = 0 })).key)
  some (((choose chosen 0 slots (record { key = none; max_value = 0 })).max_value, key) ∷ rest)

unfoldable pub print_descending : Hashmap → Option (List Printed)
print_descending map = print_lines map.size map.slots []

-- main with the bytes of its file.
unfoldable pub word_frequencies : (ℕ → ℕ) → (ℕ → ℕ) → List ℕ → Option (List Printed)
word_frequencies load grow input = count_words load grow input >>= print_descending
