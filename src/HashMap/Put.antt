-- ===== src/HashMap/Put.antt =====
-- 08_search_sort_homework/hashmap_open.c: raw_put of a new key where there is room.
use otus_c_prog.Common.{
  ℕ, ◌+◌, ◌≤◌, ◌<◌, ◌≡◌, refl, ap, not, true, false, if◌then◌else◌, List, length, set, none, some,
  arith, Option-cases, inl, inr, length-set,
}
use otus_c_prog.Common.Text.{same}
use otus_c_prog.HashMap.{Entry, Slot, Hashmap, slot_at, occupied, home, find_free, place}
use otus_c_prog.HashMap.Probe.{probe, probe-some, probe-none, steps}
use otus_c_prog.HashMap.Slots.{lookup, occ, lookup-set_new, Unique-set_new, occ-set_new, occ_full}
use otus_c_prog.HashMap.Good.{is_free, IsGood, home-lt, settled_after}

pub slot_none : (s : Slot) → not (occupied s) ≡ true → s ≡ none
unfolding occupied
slot_none none h = refl
slot_none (some e) h = cc

-- What a put of a new key leads to.
pub record Put (map : Hashmap) (e : Entry) (map' : Hashmap) : Type 0 where
  pub good : IsGood map'
  pub same_length : length map'.slots ≡ length map.slots
  pub same_limit : map'.limit ≡ map.limit
  pub larger : map'.size ≡ map.size + 1
  pub looked_up :
      (k : List ℕ)
      → lookup map'.slots k ≡ (if same e.key k then some e.value else lookup map.slots k)

-- Where not all baskets are full, the search ends.
pub free_found :
    (slots : List Slot) (start : ℕ)
    → start < length slots
    → occ slots < length slots
    → (i : ℕ) × (probe (length slots) (is_free slots) (length slots) start ≡ some i)
      × (i < length slots)
      × (slot_at slots i ≡ none)
unfolding occupied
free_found slots start h less =
    let n = length slots in
    elim (Option-cases (probe n (is_free slots) n start)) [
      | inl e ↦
          let full = λ (j : ℕ) (lt : j < n).
            let all : steps n start j < n = ground arith in
            not_free (slot_at slots j) (probe-none n (is_free slots) n start j h lt e all) in
          let whole = occ_full slots full in absurd (omega (arith, whole, less))
      | inr (i, e) ↦
          let (free, lt) = probe-some n (is_free slots) n start i h e in
          (i, e, lt, slot_none (slot_at slots i) free)
    ]
  where
    not_free : (s : Slot) → not (occupied s) ≡ false → occupied s ≡ true
    not_free none h = cc
    not_free (some e) h = refl

module _ (map : Hashmap) (e : Entry) (good : IsGood map) (room : map.size ≤ map.limit)
    (new : lookup map.slots e.key ≡ none) where
  pub place-Put : (map' : Hashmap) × (place map e ≡ some map') × Put map e map'
  unfolding place find_free occupied
  place-Put =
      let n = length map.slots in
      let less : occ map.slots < n = omega (arith, good.size_eq, good.bounded, room) in
      let start = home-lt n e.key (omega (arith, less)) in
      let (i, found, lt, empty) = free_found map.slots (home n e.key) start less in
      let slots' = set map.slots i (some e) in
      let map' : Hashmap = record { slots = slots'; size = map.size + 1; limit = map.limit } in
      let len = length-set map.slots i (some e) in
      (
        map',
        rw found,
        record {
          good = record {
            unique = Unique-set_new e map.slots i lt empty new good.unique;
            size_eq = omega (arith, occ-set_new map.slots i e lt empty, good.size_eq);
            bounded = omega (arith, len, good.bounded);
            room = omega (arith, room);
            settled =
                settled_after map.slots i e map.slots lt (λ k f. f)
                  (ap (λ t. not (occupied t)) empty) found good.settled;
          };
          same_length = len;
          same_limit = refl;
          larger = refl;
          looked_up = λ k. lookup-set_new e map.slots i k lt empty new;
        },
      )
