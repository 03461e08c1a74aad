-- ===== src/LogReader/Maps.antt =====
-- 17_log_reader/main.c: the two hash maps with their chains. Their functions run under the maps'
-- mutexes.
use otus_c_prog.Common.{
  ℕ, ◌+◌, ◌-◌, ◌*◌, ◌%◌, ◌^◌, ◌==◌, leb, ◌&&◌, Bool, true, false, if◌then◌else◌, List, [], ◌∷◌,
  ◌++◌, Option, none, some, get_or, set, replicate, add_size,
}
use mathlib.Core.Option.{map as option_map}
use otus_c_prog.Common.Text.{same, char_value}

pub hash_from : ℕ → List ℕ → ℕ
hash_from h [] = h
hash_from h (c ∷ str) = hash_from ((h * 2 ^ 5 + h + char_value c) % 2 ^ 64) str

unfoldable pub hash : List ℕ → ℕ
hash str = hash_from 5381 str

abbrev pub hash_size : ℕ
hash_size = 1024

-- `UrlEntry` and `RefEntry`: the number is `bytes` or `count`.
pub record Entry : Type 0 where
  pub key : List ℕ
  pub number : ℕ

-- `UrlMap` and `RefMap`.
pub record Map : Type 0 where
  pub buckets : List (List Entry)
  pub size : ℕ

-- `url_map_init` and `ref_map_init`; without memory the program ends.
unfoldable pub map_init : Bool → ℕ → Option Map
map_init false size = none
map_init true size = some (record { buckets = replicate size []; size = size })

-- The loop over a chain: the chain with the number of the key changed, if the key is there.
unfoldable pub change_in : (ℕ → ℕ) → List ℕ → List Entry → Option (List Entry)
change_in f key [] = none
change_in f key (e ∷ es) =
    let rest = change_in f key es in
    if same e.key key
    then some (record { key = e.key; number = f e.number } ∷ es)
    else option_map (λ found. e ∷ found) rest

-- What the two functions below share: a new entry stands first in its chain. With no memory for it
-- the program ends.
unfoldable pub or_first : Bool → Entry → List Entry → Option (List Entry) → Option (List Entry)
or_first memory e es (some found) = some found
or_first memory e es none = if memory then some (e ∷ es) else none

unfoldable pub change_chain : Bool → (ℕ → ℕ) → ℕ → List ℕ → List Entry → Option (List Entry)
change_chain memory f first key es =
    or_first memory (record { key = key; number = first }) es (change_in f key es)

unfoldable pub change : Bool → (ℕ → ℕ) → ℕ → Map → List ℕ → Option Map
change memory f first map key =
    let h = hash key % map.size in
    option_map (λ es. record { buckets = set map.buckets h es; size = map.size })
      (change_chain memory f first key (get_or map.buckets h []))

-- `!key` is no key.
unfoldable pub url_map_add : Bool → Map → Option (List ℕ) → ℕ → Option Map
url_map_add memory map none bytes = some map
url_map_add memory map (some key) bytes =
    if bytes == 0 then some map else change memory (λ b. add_size b bytes) bytes map key

-- The entries bucket by bucket.
unfoldable pub entries : List (List Entry) → List Entry
entries [] = []
entries (es ∷ rest) = es ++ entries rest

-- The largest value of an int. `count` is one, and has no value beyond.
abbrev pub int_max : ℕ
int_max = 2 ^ 31 - 1

unfoldable pub all_int : List Entry → Bool
all_int [] = true
all_int (e ∷ es) = let rest = all_int es in leb e.number int_max && rest

unfoldable pub if_int : Option Map → Option Map
unfolding all_int
if_int none = none
if_int (some map) = if all_int (entries map.buckets) then some map else none

-- No result stands for the end of the program, and for a count that overflows.
unfoldable pub ref_map_inc : Bool → Map → Option (List ℕ) → Option Map
ref_map_inc memory map none = some map
ref_map_inc memory map (some key) = if_int (change memory (λ c. c + 1) 1 map key)

-- `collect_urls` and `collect_refs`: the entries in an array, which is NULL when it is empty or
-- there is no memory for it.
unfoldable pub array : Bool → List Entry → Option (List Entry)
array memory [] = none
array memory (e ∷ es) = if memory then some (e ∷ es) else none

unfoldable pub collect : Bool → Map → Option (List Entry)
collect memory map = array memory (entries map.buckets)
