-- ===== src/HashMap/Replace.antt =====
-- 08_search_sort_homework/hashmap_open.c: an entry in the place of another with its key.
use otus_c_prog.Common.{
  ℕ, zero, suc, ◌<◌, ◌==◌, ◌≡◌, refl, ap, ◌∙◌, false, if◌then◌else◌, List, [], ◌∷◌, length, set,
  none, some, Bool-cases, inl, inr, get_or-set,
}
use mathlib.Core.Path.{subst}
use otus_c_prog.Common.Text.{same, same-eq}
use otus_c_prog.HashMap.{Entry, Slot, slot_at}
use otus_c_prog.HashMap.Slots.{lookup, occ, Unique, lookup_at}

-- What stands in a basket after a write inside the array.
pub slot_set :
    (slots : List Slot) (i k : ℕ) (s : Slot)
    → i < length slots
    → slot_at (set slots i s) k ≡ (if i == k then s else slot_at slots k)
slot_set slots i k s lt = get_or-set slots i k s none lt

module _ (d e : Entry) (key_eq : d.key ≡ e.key) where
  clash :
      (slots : List Slot) (i : ℕ) (c : Entry)
      → slot_at slots i ≡ some d
      → Unique slots
      → lookup slots c.key ≡ none
      → same e.key c.key ≡ false
  clash slots i c at u none_later = elim (Bool-cases (same e.key c.key)) [
    | inl eq ↦ absurd (cc (lookup_at slots i d u at, same-eq e.key c.key eq))
    | inr ne ↦ ne
  ]

  pub lookup-set_old :
      (slots : List Slot) (i : ℕ) (k : List ℕ)
      → slot_at slots i ≡ some d
      → Unique slots
      → lookup (set slots i (some e)) k ≡ (if same e.key k then some e.value else lookup slots k)
  unfolding lookup Unique
  lookup-set_old [] i k at u = cc
  lookup-set_old (none ∷ slots) zero k at u = cc
  lookup-set_old (some c ∷ slots) zero k at u =
      let head : c.key ≡ e.key = cc in
      elim (Bool-cases (same e.key k)) [
        | inl f ↦ rw f
        | inr f ↦ let g : same c.key k ≡ false = cc in rw (f, g)
      ]
  lookup-set_old (none ∷ slots) (suc i) k at u = lookup-set_old slots i k at u
  lookup-set_old (some c ∷ slots) (suc i) k at u =
      let ih = lookup-set_old slots i k at u.1 in
      let other = clash slots i c at u.1 u.0 in
      elim (Bool-cases (same c.key k)) [
        | inl f ↦
            let g : same e.key k ≡ false =
              subst (λ x. same e.key x ≡ false) (same-eq c.key k f) other in
            rw (f, g)
        | inr f ↦ rw f ih
      ]

  pub Unique-set_old :
      (slots : List Slot) (i : ℕ)
      → slot_at slots i ≡ some d
      → Unique slots
      → Unique (set slots i (some e))
  unfolding Unique
  Unique-set_old [] i at u = tt
  Unique-set_old (none ∷ slots) zero at u = cc
  Unique-set_old (some c ∷ slots) zero at u =
      let head : c.key ≡ e.key = cc in (subst (λ x. lookup slots x ≡ none) head u.0, u.1)
  Unique-set_old (none ∷ slots) (suc i) at u = Unique-set_old slots i at u
  Unique-set_old (some c ∷ slots) (suc i) at u = (
    lookup-set_old slots i c.key at u.1 ∙ rw (clash slots i c at u.1 u.0) u.0,
    Unique-set_old slots i at u.1,
  )

pub occ-set_old :
    (slots : List Slot) (i : ℕ) (d e : Entry)
    → slot_at slots i ≡ some d
    → occ (set slots i (some e)) ≡ occ slots
unfolding occ
occ-set_old [] i d e at = refl
occ-set_old (none ∷ slots) zero d e at = cc
occ-set_old (some c ∷ slots) zero d e at = refl
occ-set_old (none ∷ slots) (suc i) d e at = occ-set_old slots i d e at
occ-set_old (some c ∷ slots) (suc i) d e at = ap suc (occ-set_old slots i d e at)
