-- ===== src/HashMap/Good.antt =====
-- 08_search_sort_homework/hashmap_open.c: the invariant of the map.
use otus_c_prog.Common.{
  ℕ, ◌+◌, ◌≤◌, ◌<◌, ◌==◌, ◌≡◌, sym, ◌∙◌, not, Bool, true, false, List, length, set, none, some,
  arith, Bool-cases, inl, inr, length-set,
}
use mathlib.Core.Path.{subst}
use mathlib.Core.Bool.{true≢false}
use native.Mathlib.Nat.{mod-lt}
use otus_c_prog.HashMap.{Entry, Slot, Hashmap, slot_at, occupied, home}
use otus_c_prog.HashMap.Probe.{probe, probe_mono}
use otus_c_prog.HashMap.Slots.{occ, Unique}
use otus_c_prog.HashMap.Replace.{slot_set}

-- The test of the search for an empty basket.
abbrev pub is_free : List Slot → ℕ → Bool
is_free slots j = not (occupied (slot_at slots j))

-- The search from the key's first basket leads to i, if that is empty: all before it are full.
abbrev pub Leads : ℕ → List Slot → List ℕ → ℕ → Type 0
Leads n slots key i = probe n (is_free slots) n (home n key) ≡ some i

pub record IsGood (map : Hashmap) : Type 0 where
  pub unique : Unique map.slots
  pub size_eq : occ map.slots ≡ map.size
  pub bounded : map.limit < length map.slots
  pub room : map.size ≤ map.limit + 1
  pub settled :
      (i : ℕ) (e : Entry)
      → i < length map.slots
      → slot_at map.slots i ≡ some e
      → Leads (length map.slots) (set map.slots i none) e.key i

-- A search is led to the same basket in an array that is full wherever the other is.
pub Leads-mono :
    (n : ℕ) (slots slots' : List Slot) (key : List ℕ) (i : ℕ)
    → ((k : ℕ) → is_free slots k ≡ false → is_free slots' k ≡ false)
    → is_free slots' i ≡ true
    → Leads n slots key i
    → Leads n slots' key i
Leads-mono n slots slots' key i sub last e =
    probe_mono n (is_free slots) (is_free slots') n (home n key) i sub last e

pub home-lt : (n : ℕ) (key : List ℕ) → 0 < n → home n key < n
unfolding home
home-lt n key pos = mod-lt _ pos

module _ (slots : List Slot) (i : ℕ) (e : Entry) (inside : i < length slots) where
  -- A write into basket i leaves the others where they are settled.
  pub settled-set :
      (j : ℕ) (key : List ℕ)
      → j < length slots
      → (i == j) ≡ false
      → Leads (length slots) (set slots j none) key j
      → Leads (length slots) (set (set slots i (some e)) j none) key j
  unfolding occupied
  settled-set j key jn ne h =
      Leads-mono (length slots) (set slots j none) (set (set slots i (some e)) j none) key j sub
        last h
    where
      jn' : j < length (set slots i (some e))
      jn' = omega (arith, length-set slots i (some e))

      sub :
          (k : ℕ)
          → is_free (set slots j none) k ≡ false
          → is_free (set (set slots i (some e)) j none) k ≡ false
      sub k f = ground (
        arith,
        slot_set slots j k none jn,
        slot_set (set slots i (some e)) j k none jn',
        slot_set slots i k (some e) inside,
      )

      last : is_free (set (set slots i (some e)) j none) j ≡ true
      last = ground (arith, slot_set (set slots i (some e)) j j none jn')

  -- And the entry itself is settled where the search has led.
  pub settled_here :
      (before : List Slot) (key : List ℕ)
      → ((k : ℕ) → is_free before k ≡ false → is_free slots k ≡ false)
      → is_free before i ≡ true
      → Leads (length slots) before key i
      → Leads (length slots) (set (set slots i (some e)) i none) key i
  unfolding occupied
  settled_here before key full free h =
      Leads-mono (length slots) before (set (set slots i (some e)) i none) key i sub last h
    where
      in' : i < length (set slots i (some e))
      in' = omega (arith, length-set slots i (some e))

      last : is_free (set (set slots i (some e)) i none) i ≡ true
      last = ground (arith, slot_set (set slots i (some e)) i i none in')

      sub :
          (k : ℕ) → is_free before k ≡ false → is_free (set (set slots i (some e)) i none) k ≡ false
      sub k f = elim (Bool-cases (i == k)) [
        | inl eq ↦
            let at_i : i ≡ k = ground arith in
            let empty = subst (λ j. is_free before j ≡ true) at_i free in
            absurd (true≢false (sym empty ∙ f))
        | inr ne ↦ ground (
          arith,
          full k f,
          slot_set (set slots i (some e)) i k none in',
          slot_set slots i k (some e) inside,
        )
      ]

-- All entries are settled after a write into basket i of an entry that a search has led there.
pub settled_after :
    (slots : List Slot) (i : ℕ) (e : Entry) (before : List Slot)
    → i < length slots
    → ((k : ℕ) → is_free before k ≡ false → is_free slots k ≡ false)
    → is_free before i ≡ true
    → Leads (length slots) before e.key i
    → ((j : ℕ) (d : Entry)
        → j < length slots
        → slot_at slots j ≡ some d
        → Leads (length slots) (set slots j none) d.key j)
    → (j : ℕ) (d : Entry) → j < length (set slots i (some e))
    → slot_at (set slots i (some e)) j ≡ some d
    → Leads (length (set slots i (some e))) (set (set slots i (some e)) j none) d.key j
settled_after slots i e before inside full free h old j d lt at =
    let len = length-set slots i (some e) in
    let jn : j < length slots = omega (arith, len, lt) in
    let here = slot_set slots i j (some e) inside in
    subst (λ n. Leads n (set (set slots i (some e)) j none) d.key j) (sym len)
      (elim (Bool-cases (i == j)) [
        | inl eq ↦
            let at_i : i ≡ j = ground arith in
            let same_entry : e ≡ d = ground (arith, here, at, eq) in
            let settled = settled_here slots i e inside before e.key full free h in
            subst (λ k. Leads (length slots) (set (set slots i (some e)) k none) d.key k) at_i
              (subst
                (λ (x : Entry). Leads (length slots) (set (set slots i (some e)) i none) x.key i)
                same_entry settled)
        | inr ne ↦
            let there : slot_at slots j ≡ some d = ground (arith, here, at, ne) in
            settled-set slots i e inside j d.key jn ne (old j d jn there)
      ])
