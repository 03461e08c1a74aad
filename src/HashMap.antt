-- ===== src/HashMap.antt =====
-- 08_search_sort_homework/hashmap_open.c: a hash map with open addressing, which counts the words of
-- a file. The two products in floating point are parameters; a failed allocation ends the program.
pub mod Probe
pub mod Slots
pub mod Replace
pub mod Good
pub mod Find
pub mod Put
pub mod Grow
pub mod Words
pub mod Counted
pub mod Recount
pub mod Tally
pub mod Lost
pub mod Descending
pub mod Chosen
pub mod Printed
mod Tests
use otus_c_prog.Common.{
  ℕ, zero, suc, ◌+◌, ◌-◌, ◌*◌, ◌%◌, ◌^◌, ◌==◌, leb, ltb, ◌&&◌, ◌||◌, not, Bool, true, false,
  if◌then◌else◌, List, [], ◌∷◌, length, get_or, set, replicate, sub_size, bit_xor, Option, none,
  some,
}
use otus_c_prog.Common.Text.{same, char_value}
use Probe.{next_index, probe}

-- `Entry`: the key without its closing zero, and the number that `value` points to.
pub record Entry : Type 0 where
  pub key : List ℕ
  pub value : ℕ

-- A basket, NULL or an entry.
abbrev pub Slot : Type 0
Slot = Option Entry

-- `arr_size` is the length of `slots`; the sizes stay below 2^64, as memory does.
pub record Hashmap : Type 0 where
  pub slots : List Slot
  pub size : ℕ
  pub limit : ℕ

abbrev pub initial_size : ℕ
initial_size = 100

hash_from : ℕ → List ℕ → ℕ
hash_from hash [] = hash
hash_from hash (c ∷ str) = hash_from (bit_xor ((hash * 2 ^ 5 + hash) % 2 ^ 64) (char_value c)) str

unfoldable pub hashcode : List ℕ → ℕ
unfolding hash_from
hashcode str = hash_from 5381 str

unfoldable pub home : ℕ → List ℕ → ℕ
home arr_size key = hashcode key % arr_size

unfoldable pub occupied : Slot → Bool
occupied none = false
occupied (some e) = true

-- `data[index] != NULL && CMP_EQ(data[index]->key, key)`
unfoldable pub holds : List ℕ → Slot → Bool
holds key none = false
holds key (some e) = same e.key key

abbrev pub slot_at : List Slot → ℕ → Slot
slot_at slots i = get_or slots i none

infixl 5 ◌>>=◌
abbrev pub ◌>>=◌ {ℓ κ} : {A : Type ℓ} {B : Type κ} → Option A → (A → Option B) → Option B
none >>= f = none
some a >>= f = f a

-- The loop of get and xremove from `index` round to `init_index`, with its turns: where the key is, if
-- it is anywhere. Running out of turns is no result.
unfoldable pub find_key : ℕ → List Slot → List ℕ → ℕ → ℕ → Option (Option ℕ)
find_key zero slots key init_index index = none
find_key (suc turns) slots key init_index index =
    let following = next_index (length slots) index in
    let rest = find_key turns slots key init_index following in
    if holds key (slot_at slots index)
    then some (some index)
    else if following == init_index
    then some none
    else rest

unfoldable pub entry_value : Slot → Option ℕ
entry_value none = none
entry_value (some e) = some e.value

-- `data[index]->value`
unfoldable pub value_at : List Slot → Option ℕ → Option ℕ
value_at slots none = none
value_at slots (some index) = entry_value (slot_at slots index)

-- get looks no further where the first basket is empty. No result is a loop that does not end.
unfoldable pub get : Hashmap → List ℕ → Option (Option ℕ)
get map key =
    let index = home (length map.slots) key in
    let search = find_key (length map.slots) map.slots key index index in
    if occupied (slot_at map.slots index)
    then (search >>= λ found. some (value_at map.slots found))
    else some none

unfoldable pub take_out : Hashmap → Option ℕ → Hashmap × Slot
take_out map none = (map, none)
take_out map (some index) = (
  record { slots = set map.slots index none; size = map.size - 1; limit = map.limit },
  slot_at map.slots index,
)

-- xremove: the map, and the entry that was removed.
unfoldable pub xremove : Hashmap → List ℕ → Option (Hashmap × Slot)
xremove map key =
    let index = home (length map.slots) key in
    find_key (length map.slots) map.slots key index index >>= λ found. some (take_out map found)

-- The search of raw_put for an empty basket; no result is a loop that does not end.
unfoldable pub find_free : ℕ → List Slot → ℕ → Option ℕ
find_free turns slots index =
    probe (length slots) (λ i. not (occupied (slot_at slots i))) turns index

unfoldable pub place : Hashmap → Entry → Option Hashmap
place map e = do
  index ← find_free (length map.slots) map.slots (home (length map.slots) e.key)
  some (record { slots = set map.slots index (some e); size = map.size + 1; limit = map.limit })

-- The loop of rehashUp over the baskets of the old map.
unfoldable pub put_all : (Hashmap → Entry → Option Hashmap) → List Slot → Hashmap → Option Hashmap
put_all put_one [] new = some new
put_all put_one (none ∷ slots) new = put_all put_one slots new
put_all put_one (some e ∷ slots) new = put_one new e >>= put_all put_one slots

-- `load` stands for `(int)(loadFactor * arr_size)`, `grow` for `(size_t)(arr_size * multiplier)`.
module _ (load grow : ℕ → ℕ) where
  unfoldable pub create_hashmap : ℕ → Hashmap
  create_hashmap limit =
      let arr_size = if leb initial_size limit then limit else initial_size in
      record { slots = replicate arr_size none; size = 0; limit = load arr_size }

  unfoldable pub rehash_up : (Hashmap → Entry → Option Hashmap) → Hashmap → Entry → Option Hashmap
  rehash_up put_one map e = do
    new ← put_all put_one map.slots (create_hashmap (grow (length map.slots)))
    put_one new e

  -- raw_put with fuel for the calls of rehashUp inside one another.
  unfoldable pub raw_put : ℕ → Hashmap → Entry → Option Hashmap
  raw_put zero map e = none
  raw_put (suc depth) map e =
      let grown = rehash_up (raw_put depth) map e in
      if leb map.size map.limit then place map e else grown

  -- put; two calls are enough, since a map twice as large has room for all.
  unfoldable pub put : Hashmap → List ℕ → ℕ → Option Hashmap
  put map key value = raw_put 2 map (record { key = key; value = value })
