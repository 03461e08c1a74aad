-- ===== src/HashMap/Probe.antt =====
-- 08_search_sort_homework/hashmap_open.c: a search round the array of baskets.
use otus_c_prog.Common.{
  ℕ, zero, suc, ◌+◌, ◌-◌, ◌<◌, ◌≡◌, ◌⊎◌, leb, ltb, Bool, true, false, if◌then◌else◌, Option, none,
  some, arith, Bool-cases, inl, inr,
}

-- `index++; if (index >= arr_size) index = 0;`
unfoldable pub next_index : ℕ → ℕ → ℕ
next_index arr_size index = if leb arr_size (index + 1) then 0 else index + 1

-- The first index from here on that passes the test, within so many turns.
unfoldable pub probe : ℕ → (ℕ → Bool) → ℕ → ℕ → Option ℕ
probe arr_size test zero index = none
probe arr_size test (suc turns) index =
    let rest = probe arr_size test turns (next_index arr_size index) in
    if test index then some index else rest

-- How many steps lead from one index to another.
abbrev pub steps : ℕ → ℕ → ℕ → ℕ
steps arr_size i j = if leb i j then j - i else j + arr_size - i

-- How many steps, one at least, lead back to `init`.
abbrev pub turns_to : ℕ → ℕ → ℕ → ℕ
turns_to arr_size init i = if ltb i init then init - i else init + arr_size - i

pub next_index-lt : (n i : ℕ) → 0 < n → i < n → next_index n i < n
unfolding next_index
next_index-lt n i pos h = ground arith

steps_next :
    (n i j : ℕ) → i < n → j < n → (i ≡ j) ⊎ (steps n i j ≡ suc (steps n (next_index n i) j))
unfolding next_index
steps_next n i j hi hj = ground arith

pub probe-some :
    (n : ℕ) (test : ℕ → Bool) (turns i j : ℕ)
    → i < n
    → probe n test turns i ≡ some j
    → (test j ≡ true) × (j < n)
unfolding probe
probe-some n test zero i j h e = cc
probe-some n test (suc turns) i j h e =
    ground (arith, next_index-lt n i, probe-some n test turns (next_index n i) j)

pub probe-none :
    (n : ℕ) (test : ℕ → Bool) (turns i j : ℕ)
    → i < n
    → j < n
    → probe n test turns i ≡ none
    → steps n i j < turns
    → test j ≡ false
unfolding probe
probe-none n test zero i j hi hj e h = absurd (omega arith)
probe-none n test (suc turns) i j hi hj e h = elim (Bool-cases (test i)) [
  | inl here ↦ cc
  | inr on ↦ elim (steps_next n i j hi hj) [
    | inl same ↦ cc
    | inr further ↦
        probe-none n test turns (next_index n i) j (next_index-lt n i (omega arith) hi) hj
          (rw on at e) (omega (arith, further))
  ]
]

pub probe_mono :
    (n : ℕ) (test test' : ℕ → Bool) (turns i j : ℕ)
    → ((k : ℕ) → test k ≡ false → test' k ≡ false)
    → test' j ≡ true
    → probe n test turns i ≡ some j
    → probe n test' turns i ≡ some j
unfolding probe
probe_mono n test test' zero i j sub last e = e
probe_mono n test test' (suc turns) i j sub last e = elim (Bool-cases (test i)) [
  | inl here ↦ let at_j : i ≡ j = ground arith in let passes : test' i ≡ true = cc in rw passes (cc)
  | inr on ↦ rw (sub i on) (probe_mono n test test' turns (next_index n i) j sub last (rw on at e))
]

pub probe_here :
    (n : ℕ) (test : ℕ → Bool) (turns i : ℕ)
    → 0 < turns
    → test i ≡ true
    → probe n test turns i ≡ some i
unfolding probe
probe_here n test zero i pos h = absurd (omega arith)
probe_here n test (suc turns) i pos h = rw h
