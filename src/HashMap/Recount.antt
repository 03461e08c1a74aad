-- ===== src/HashMap/Recount.antt =====
-- 08_search_sort_homework/hashmap_open.c: the new number of a word that is counted.
use otus_c_prog.Common.{
  ℕ, ◌-◌, ◌≤◌, ◌<◌, ◌≡◌, refl, ◌∙◌, if◌then◌else◌, List, length, set, add_size, Option, none, some,
  arith, inl, inr,
}
use otus_c_prog.Common.Text.{same}
use otus_c_prog.HashMap.{Entry, Hashmap, home, xremove, take_out, place, put}
use otus_c_prog.HashMap.Slots.{lookup}
use otus_c_prog.HashMap.Replace.{lookup-set_old}
use otus_c_prog.HashMap.Good.{IsGood, home-lt}
use otus_c_prog.HashMap.Find.{find_key-cases, get-lookup}
use otus_c_prog.HashMap.Grow.{Scaled, raw_put-place, put-lookup}
use otus_c_prog.HashMap.Counted.{replaced, replaced-IsGood, place_back}
use otus_c_prog.HashMap.Words.{recount, count_word}

-- The number a key gets when it is met again.
abbrev pub next_number : Option ℕ → ℕ
next_number none = 1
next_number (some v) = add_size v 1

module _ (load grow : ℕ → ℕ) (scaled : Scaled load grow) where
  put_removed :
      (removed : Hashmap) (key : List ℕ) (value : ℕ)
      → removed.size ≤ removed.limit
      → put load grow removed key value ≡ place removed (record { key = key; value = value })
  unfolding put
  put_removed removed key value h = raw_put-place load grow scaled 1 removed _ h

  recounted :
      (map : Hashmap) (key : List ℕ) (o : Option ℕ)
      → IsGood map
      → lookup map.slots key ≡ o
      → (map' : Hashmap) × (recount load grow map key o ≡ some map')
        × IsGood map'
        × ((k : List ℕ)
            → lookup map'.slots k
              ≡ (if same key k then some (next_number o) else lookup map.slots k))
  unfolding recount xremove take_out replaced
  recounted map key none good at = put-lookup load grow scaled map key 1 good at
  recounted map key (some v) good there =
      let n = length map.slots in
      let e : Entry = record { key = key; value = add_size v 1 } in
      let start : home n key < n = home-lt n key (omega (arith, good.bounded)) in
      elim (find_key-cases map.slots key (home n key) start) [
        | inl (nowhere, absent) ↦ cc
        | inr (i, d, found, inside, at, key_eq) ↦
            let emptied : Hashmap = record {
              slots = set map.slots i none;
              size = map.size - 1;
              limit = map.limit;
            } in
            (
              replaced map i e,
              rw found (
                  put_removed emptied key (add_size v 1) (omega (arith, good.room))
                  ∙ place_back map good i d e inside at key_eq),
              replaced-IsGood map good i d e inside at key_eq,
              λ k. lookup-set_old d e key_eq map.slots i k at good.unique,
            )
      ]

  -- count_word of the map: get, and then recount.
  pub counted_word :
      (map : Hashmap) (key : List ℕ)
      → IsGood map
      → (map' : Hashmap) × (count_word load grow map key ≡ some map')
        × IsGood map'
        × ((k : List ℕ)
            → lookup map'.slots k ≡ (
                if same key k
                then some (next_number (lookup map.slots key))
                else lookup map.slots k))
  unfolding count_word
  counted_word map key good =
      let (map', e, good', looked_up) = recounted map key (lookup map.slots key) good refl in
      (map', rw (get-lookup map good key) e, good', looked_up)
