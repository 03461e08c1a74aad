-- ===== src/HashMap/Counted.antt =====
-- 08_search_sort_homework/hashmap_open.c: countWords against the words of the text.
use otus_c_prog.Common.{
  ℕ, zero, suc, ◌+◌, ◌-◌, ◌<◌, ◌≡◌, refl, sym, ap, ◌∙◌, List, [], ◌∷◌, length, set, none, some,
  arith, length-set,
}
use mathlib.Core.Path.{subst}
use otus_c_prog.HashMap.{Entry, Slot, Hashmap, slot_at, occupied, home, find_free, place}
use otus_c_prog.HashMap.Probe.{probe}
use otus_c_prog.HashMap.Slots.{occ}
use otus_c_prog.HashMap.Replace.{slot_set, Unique-set_old, occ-set_old}
use otus_c_prog.HashMap.Good.{is_free, Leads, IsGood, settled_after}

occ_pos : (slots : List Slot) (i : ℕ) (e : Entry) → slot_at slots i ≡ some e → 0 < occ slots
unfolding occ
occ_pos [] i e at = cc
occ_pos (none ∷ slots) zero e at = cc
occ_pos (some d ∷ slots) zero e at = omega arith
occ_pos (none ∷ slots) (suc i) e at = occ_pos slots i e at
occ_pos (some d ∷ slots) (suc i) e at = omega arith

set-set : (slots : List Slot) (i : ℕ) (s t : Slot) → set (set slots i s) i t ≡ set slots i t
set-set [] i s t = refl
set-set (x ∷ slots) zero s t = refl
set-set (x ∷ slots) (suc i) s t = ap (λ l. x ∷ l) (set-set slots i s t)

-- The map that holds another number for a key that is there.
unfoldable pub replaced : Hashmap → ℕ → Entry → Hashmap
replaced map i e = record { slots = set map.slots i (some e); size = map.size; limit = map.limit }

module _ (map : Hashmap) (good : IsGood map) (i : ℕ) (d e : Entry) (inside : i < length map.slots)
    (at : slot_at map.slots i ≡ some d) (key_eq : d.key ≡ e.key) where
  led : Leads (length map.slots) (set map.slots i none) e.key i
  led =
      subst (λ k. Leads (length map.slots) (set map.slots i none) k i) key_eq
        (good.settled i d inside at)

  pub replaced-IsGood : IsGood (replaced map i e)
  unfolding replaced occupied
  replaced-IsGood =
      let len = length-set map.slots i (some e) in
      record {
        unique = Unique-set_old d e key_eq map.slots i at good.unique;
        size_eq = occ-set_old map.slots i d e at ∙ good.size_eq;
        bounded = omega (arith, len, good.bounded);
        room = good.room;
        settled =
            settled_after map.slots i e (set map.slots i none) inside
              (λ k f. ground (arith, slot_set map.slots i k none inside))
              (ground (arith, slot_set map.slots i i none inside)) led good.settled;
      }

  -- The entry goes back where the old one was taken out.
  pub place_back :
      place (record { slots = set map.slots i none; size = map.size - 1; limit = map.limit }) e
      ≡ some (replaced map i e)
  unfolding place find_free replaced
  place_back =
      let n = length map.slots in
      let emptied = set map.slots i none in
      let len = length-set map.slots i none in
      let found = subst (λ m. probe m (is_free emptied) m (home m e.key) ≡ some i) (sym len) led in
      let pos = occ_pos map.slots i d at in
      let size : map.size - 1 + 1 ≡ map.size = omega (arith, pos, good.size_eq) in
      rw (found, size, set-set map.slots i none (some e))
