-- ===== src/HashMap/Lost.antt =====
-- 08_search_sort_homework/hashmap_open.c: xremove, and what get no longer finds after it.
use otus_c_prog.Common.{
  ℕ, zero, suc, ◌+◌, ◌-◌, ◌<◌, ◌≡◌, ◌⊎◌, refl, sym, ap, ◌∙◌, true, false, if◌then◌else◌, List, [],
  ◌∷◌, length, set, none, some, arith, Bool-cases, inl, inr, length-set,
}
use mathlib.Core.Path.{subst}
use otus_c_prog.Common.Text.{same, same-eq}
use otus_c_prog.HashMap.{Entry, Slot, Hashmap, slot_at, occupied, home, get, take_out, xremove}
use otus_c_prog.HashMap.Slots.{lookup, lookup_at, occ, Unique}
use otus_c_prog.HashMap.Replace.{slot_set}
use otus_c_prog.HashMap.Good.{IsGood, home-lt}
use otus_c_prog.HashMap.Find.{find_key-cases, get-lookup}

-- A key stands in one basket.
one_basket :
    (slots : List Slot) (i j : ℕ) (d e : Entry)
    → Unique slots
    → slot_at slots i ≡ some d
    → slot_at slots j ≡ some e
    → d.key ≡ e.key
    → i ≡ j
unfolding Unique lookup
one_basket [] i j d e u at_i at_j eq = cc
one_basket (none ∷ slots) zero j d e u at_i at_j eq = cc
one_basket (none ∷ slots) (suc i) zero d e u at_i at_j eq = cc
one_basket (none ∷ slots) (suc i) (suc j) d e u at_i at_j eq =
    ap suc (one_basket slots i j d e u at_i at_j eq)
one_basket (some c ∷ slots) zero zero d e u at_i at_j eq = refl
one_basket (some c ∷ slots) zero (suc j) d e u at_i at_j eq =
    absurd (cc (lookup_at slots j e u.1 at_j, u.0))
one_basket (some c ∷ slots) (suc i) zero d e u at_i at_j eq =
    absurd (cc (lookup_at slots i d u.1 at_i, u.0))
one_basket (some c ∷ slots) (suc i) (suc j) d e u at_i at_j eq =
    ap suc (one_basket slots i j d e u.1 at_i at_j eq)

pub lookup-set_clear :
    (slots : List Slot) (i : ℕ) (d : Entry) (k : List ℕ)
    → Unique slots
    → slot_at slots i ≡ some d
    → lookup (set slots i none) k ≡ (if same d.key k then none else lookup slots k)
unfolding Unique lookup
lookup-set_clear [] i d k u at = cc
lookup-set_clear (none ∷ slots) zero d k u at = cc
lookup-set_clear (some c ∷ slots) zero d k u at =
    let here : c ≡ d = cc in
    elim (Bool-cases (same c.key k)) [
      | inl f ↦ let g : same d.key k ≡ true = cc in rw (g, sym (same-eq c.key k f)) u.0
      | inr f ↦ let g : same d.key k ≡ false = cc in rw (g, f)
    ]
lookup-set_clear (none ∷ slots) (suc i) d k u at = lookup-set_clear slots i d k u at
lookup-set_clear (some c ∷ slots) (suc i) d k u at =
    let ih = lookup-set_clear slots i d k u.1 at in
    elim (Bool-cases (same c.key k)) [
      | inl f ↦ elim (Bool-cases (same d.key k)) [
        | inl g ↦
            absurd (cc (same-eq c.key k f, same-eq d.key k g, lookup_at slots i d u.1 at, u.0))
        | inr g ↦ rw (f, g)
      ]
      | inr f ↦ rw f ih
    ]

pub occ-set_clear :
    (slots : List Slot) (i : ℕ) (d : Entry)
    → slot_at slots i ≡ some d
    → occ (set slots i none) + 1 ≡ occ slots
unfolding occ
occ-set_clear [] i d at = cc
occ-set_clear (none ∷ slots) zero d at = cc
occ-set_clear (some c ∷ slots) zero d at = omega arith
occ-set_clear (none ∷ slots) (suc i) d at = occ-set_clear slots i d at
occ-set_clear (some c ∷ slots) (suc i) d at = omega (arith, occ-set_clear slots i d at)

-- Where the entry of xremove stands.
xremove_at :
    (map : Hashmap) (i : ℕ) (d : Entry)
    → IsGood map
    → slot_at map.slots i ≡ some d
    → xremove map d.key
      ≡ some
          (record { slots = set map.slots i none; size = map.size - 1; limit = map.limit }, some d)
unfolding xremove take_out
xremove_at map i d good at =
    elim (find_key-cases map.slots d.key (home (length map.slots) d.key)
      (home-lt (length map.slots) d.key (omega (arith, good.bounded)))) [
        | inl (nowhere, absent) ↦ absurd (cc (lookup_at map.slots i d good.unique at))
        | inr (j, e, found, inside, at_j, key_eq) ↦
            let one = one_basket map.slots j i e d good.unique at_j at key_eq in rw (found, one, at)
      ]

-- For a map that keeps the invariant, xremove ends. Without the key it leaves the map as it is;
-- else it gives the entry with the key and its number, and the array has one entry fewer, with
-- every other key at its number.
pub xremove-lookup :
    (map : Hashmap) (key : List ℕ)
    → IsGood map
    → ((lookup map.slots key ≡ none) × (xremove map key ≡ some (map, none)))
      ⊎ ((v : ℕ) × (map' : Hashmap) × (lookup map.slots key ≡ some v)
          × (xremove map key ≡ some (map', some (record { key = key; value = v })))
          × (map'.size + 1 ≡ map.size)
          × (occ map'.slots ≡ map'.size)
          × ((k : List ℕ)
              → lookup map'.slots k ≡ (if same key k then none else lookup map.slots k)))
unfolding xremove take_out
xremove-lookup map key good =
    elim (find_key-cases map.slots key (home (length map.slots) key)
      (home-lt (length map.slots) key (omega (arith, good.bounded)))) [
        | inl (nowhere, absent) ↦ inl (absent, rw nowhere)
        | inr (i, d, found, inside, at, key_eq) ↦
            let fewer = occ-set_clear map.slots i d at in
            inr (
              d.value,
              record { slots = set map.slots i none; size = map.size - 1; limit = map.limit },
              subst (λ k. lookup map.slots k ≡ some d.value) key_eq
                  (lookup_at map.slots i d good.unique at),
              rw (found, at, sym key_eq),
              omega (arith, fewer, good.size_eq),
              omega (arith, fewer, good.size_eq),
              λ k.
                  subst
                    (λ x.
                      lookup (set map.slots i none) k
                      ≡ (if same x k then none else lookup map.slots k))
                    key_eq (lookup-set_clear map.slots i d k good.unique at),
            )
      ]

-- In a map that keeps the invariant, xremove of the key in the first basket of another key hides
-- the other: get has found it before, and finds it no longer, though it still stands in the array
-- with its number.
pub get-xremove :
    (map : Hashmap) (d : Entry) (key : List ℕ) (v : ℕ)
    → IsGood map
    → slot_at map.slots (home (length map.slots) key) ≡ some d
    → same d.key key ≡ false
    → lookup map.slots key ≡ some v
    → (map' : Hashmap) × (xremove map d.key ≡ some (map', some d))
      × (get map key ≡ some (some v))
      × (lookup map'.slots key ≡ some v)
      × (get map' key ≡ some none)
unfolding get occupied
get-xremove map d key v good at ne there =
    let h = home (length map.slots) key in
    let inside : h < length map.slots =
      home-lt (length map.slots) key (omega (arith, good.bounded)) in
    let len = length-set map.slots h none in
    let now_empty : slot_at (set map.slots h none) h ≡ none =
      ground (arith, slot_set map.slots h h none inside) in
    (
      record { slots = set map.slots h none; size = map.size - 1; limit = map.limit },
      xremove_at map h d good at,
      get-lookup map good key ∙ ap some there,
      rw (lookup-set_clear map.slots h d key good.unique at, ne) there,
      rw (len, now_empty),
    )
