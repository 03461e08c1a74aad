-- ===== src/HashMap/Grow.antt =====
-- 08_search_sort_homework/hashmap_open.c: raw_put of a new key, with the map rebuilt where it is full.
use otus_c_prog.Common.{
  ℕ, zero, suc, ◌+◌, ◌*◌, ◌≤◌, ◌<◌, leb, ◌≡◌, refl, sym, ap, ◌∙◌, true, false, if◌then◌else◌, List,
  [], ◌∷◌, length, replicate, Option, none, some, arith, Bool-cases, inl, inr, length-replicate,
  get_or-replicate,
}
use mathlib.Core.Path.{subst}
use otus_c_prog.Common.Text.{same, same-eq}
use otus_c_prog.HashMap.{
  Entry, Slot, Hashmap, initial_size, place, put_all, create_hashmap, rehash_up, raw_put, put,
}
use otus_c_prog.HashMap.Slots.{lookup, occ, occ-le, Unique, same_sym}
use otus_c_prog.HashMap.Good.{IsGood}
use otus_c_prog.HashMap.Put.{Put, place-Put}

-- What the products in floating point keep to, with a load factor from 0.5 up to less than 1 and a
-- multiplier of 2 at least.
pub record Scaled (load grow : ℕ → ℕ) : Type 0 where
  pub load-lt : (n : ℕ) → 0 < n → load n < n
  pub half : (n m : ℕ) → n * 2 ≤ m → n ≤ load m
  pub twice : (n : ℕ) → n * 2 ≤ grow n

pub lookup-replicate : (n : ℕ) (k : List ℕ) → lookup (replicate n none) k ≡ none
unfolding lookup
lookup-replicate zero k = refl
lookup-replicate (suc n) k = lookup-replicate n k

occ-replicate : (n : ℕ) → occ (replicate n none) ≡ 0
unfolding occ
occ-replicate zero = refl
occ-replicate (suc n) = occ-replicate n

Unique-replicate : (n : ℕ) → Unique (replicate n none)
unfolding Unique
Unique-replicate zero = tt
Unique-replicate (suc n) = Unique-replicate n

-- The first number that is there.
abbrev pub or_else : Option ℕ → Option ℕ → Option ℕ
or_else (some v) o = some v
or_else none o = o

or_else-none : (o : Option ℕ) → or_else o none ≡ o
or_else-none none = refl
or_else-none (some v) = refl

or_else-Put :
    (slots : List Slot) (e : Entry) (new new' : Hashmap)
    → lookup new.slots e.key ≡ none
    → Put new e new'
    → (k : List ℕ)
    → or_else (lookup new'.slots k) (lookup slots k)
      ≡ or_else (lookup new.slots k) (lookup (some e ∷ slots) k)
unfolding lookup
or_else-Put slots e new new' fresh put k = elim (Bool-cases (same e.key k)) [
  | inl eq ↦
      let absent : lookup new.slots k ≡ none =
        subst (λ x. lookup new.slots x ≡ none) (same-eq e.key k eq) fresh in
      rw (put.looked_up k, eq, absent)
  | inr ne ↦ rw (put.looked_up k, ne)
]

-- No key of the entries stands in the map.
Fresh : List Slot → Hashmap → Type 0
Fresh [] new = Unit
Fresh (none ∷ slots) new = Fresh slots new
Fresh (some e ∷ slots) new = (lookup new.slots e.key ≡ none) × Fresh slots new

module _ (load grow : ℕ → ℕ) (scaled : Scaled load grow) where
  pub create_hashmap-IsGood : (limit : ℕ) → IsGood (create_hashmap load grow limit)
  unfolding create_hashmap
  create_hashmap-IsGood limit =
      let n = if leb initial_size limit then limit else initial_size in
      let positive : 0 < n = ground arith in
      record {
        unique = Unique-replicate n;
        size_eq = occ-replicate n;
        bounded = omega (arith, scaled.load-lt n positive, length-replicate {A = Slot} n none);
        room = omega arith;
        settled = λ i e lt at. absurd (cc (get_or-replicate {A = Slot} n i none));
      }

  -- With room, raw_put is place.
  pub raw_put-place :
      (depth : ℕ) (map : Hashmap) (e : Entry)
      → map.size ≤ map.limit
      → raw_put load grow (suc depth) map e ≡ place map e
  unfolding raw_put
  raw_put-place depth map e h = let room : leb map.size map.limit ≡ true = ground arith in rw room

  raw_put_full :
      (depth : ℕ) (map : Hashmap) (e : Entry)
      → leb map.size map.limit ≡ false
      → raw_put load grow (suc depth) map e ≡ rehash_up load grow (raw_put load grow depth) map e
  unfolding raw_put
  raw_put_full depth map e h = rw h

  Fresh-Put :
      (slots : List Slot) (e : Entry) (new new' : Hashmap)
      → lookup slots e.key ≡ none
      → Put new e new'
      → Fresh slots new
      → Fresh slots new'
  unfolding Fresh lookup
  Fresh-Put [] e new new' none_later put fresh = tt
  Fresh-Put (none ∷ slots) e new new' none_later put fresh =
      Fresh-Put slots e new new' none_later put fresh
  Fresh-Put (some d ∷ slots) e new new' none_later put fresh =
      elim (Bool-cases (same d.key e.key)) [
        | inl eq ↦ absurd (cc (rw eq at none_later))
        | inr ne ↦ (
          put.looked_up d.key ∙ rw (same_sym d.key e.key ne) fresh.0,
          Fresh-Put slots e new new' (rw ne at none_later) put fresh.1,
        )
      ]

  put_all-lem :
      (slots : List Slot) (new : Hashmap)
      → IsGood new
      → Unique slots
      → Fresh slots new
      → new.size + occ slots ≤ new.limit + 1
      → (map : Hashmap) × (put_all (raw_put load grow 1) slots new ≡ some map)
        × IsGood map
        × (map.size ≡ new.size + occ slots)
        × (map.limit ≡ new.limit)
        × ((k : List ℕ) → lookup map.slots k ≡ or_else (lookup new.slots k) (lookup slots k))
  unfolding put_all occ Unique Fresh lookup
  put_all-lem [] new good u fresh h =
      (new, refl, good, omega arith, refl, λ k. sym (or_else-none (lookup new.slots k)))
  put_all-lem (none ∷ slots) new good u fresh h = put_all-lem slots new good u fresh h
  put_all-lem (some e ∷ slots) new good u fresh h =
      let room : new.size ≤ new.limit = omega arith in
      let (new', placed, put) = place-Put new e good room fresh.0 in
      let (map, e', good', size_eq, limit_eq, looked_up) =
        put_all-lem slots new' put.good u.1 (Fresh-Put slots e new new' u.0 put fresh.1)
          (omega (arith, put.larger, put.same_limit)) in
      (
        map,
        rw (raw_put-place 0 new e room, placed) e',
        good',
        omega (arith, size_eq, put.larger),
        limit_eq ∙ put.same_limit,
        λ k. looked_up k ∙ or_else-Put slots e new new' fresh.0 put k,
      )

  new_for_all :
      (slots : List Slot) (new : Hashmap)
      → ((k : List ℕ) → lookup new.slots k ≡ none)
      → Fresh slots new
  unfolding Fresh
  new_for_all [] new h = tt
  new_for_all (none ∷ slots) new h = new_for_all slots new h
  new_for_all (some e ∷ slots) new h = (h e.key, new_for_all slots new h)

  -- rehashUp builds a map with the same entries and room for one more.
  rebuilt :
      (map : Hashmap)
      → IsGood map
      → (m : Hashmap) × (put_all
            (raw_put load grow 1)
            map.slots
            (create_hashmap load grow (grow (length map.slots)))
          ≡ some m)
        × IsGood m
        × (m.size ≤ m.limit)
        × ((k : List ℕ) → lookup m.slots k ≡ lookup map.slots k)
  unfolding create_hashmap
  rebuilt map good =
      let n = length map.slots in
      let arr = if leb initial_size (grow n) then grow n else initial_size in
      let new = create_hashmap load grow (grow n) in
      let large : n * 2 ≤ arr = ground (arith, scaled.twice n) in
      let room : n ≤ load arr = scaled.half n arr large in
      let fewer = occ-le map.slots in
      let (m, e, good', size_eq, limit_eq, looked_up) =
        put_all-lem map.slots new (create_hashmap-IsGood (grow n)) good.unique
          (new_for_all map.slots new (lookup-replicate arr)) (omega (arith, room, fewer)) in
      (
        m,
        e,
        good',
        omega (arith, size_eq, limit_eq, room, fewer),
        λ k. looked_up k ∙ ap (λ o. or_else o (lookup map.slots k)) (lookup-replicate arr k),
      )

  -- Where the products keep to Scaled and the map to the invariant, put of a key that is not there
  -- ends, also where the map is rebuilt, with a map in which the key has its number, every other
  -- key its own, and the invariant holds.
  pub put-lookup :
      (map : Hashmap) (key : List ℕ) (value : ℕ)
      → IsGood map
      → lookup map.slots key ≡ none
      → (map' : Hashmap) × (put load grow map key value ≡ some map')
        × IsGood map'
        × ((k : List ℕ)
            → lookup map'.slots k ≡ (if same key k then some value else lookup map.slots k))
  unfolding put rehash_up
  put-lookup map key value good new =
      let e : Entry = record { key = key; value = value } in
      elim (Bool-cases (leb map.size map.limit)) [
        | inl room ↦
            let (map', placed, put) = place-Put map e good (ground arith) new in
            (map', raw_put-place 1 map e (ground arith) ∙ placed, put.good, put.looked_up)
        | inr full ↦
            let (m, rebuild, good', room, looked_up) = rebuilt map good in
            let (map', placed, put) = place-Put m e good' room (looked_up key ∙ new) in
            (
              map',
              raw_put_full 1 map e full ∙ rw rebuild (raw_put-place 0 m e room ∙ placed),
              put.good,
              λ k. put.looked_up k ∙ ap (λ o. if same key k then some value else o) (looked_up k),
            )
      ]
