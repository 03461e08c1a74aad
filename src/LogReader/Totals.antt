-- ===== src/LogReader/Totals.antt =====
-- 17_log_reader/main.c: the maps and total_bytes agree after any lines.
use otus_c_prog.Common.{
  ℕ, zero, suc, ◌+◌, ◌%◌, ◌<◌, ◌≤◌, leb, ◌≡◌, refl, ◌∙◌, ◌⊎◌, inl, inr, true, List, [], ◌∷◌, ◌++◌,
  none, some, get_or, set, length, length-set, arith, Bool-cases,
}
use native.Mathlib.Nat.{mod-lt}
use otus_c_prog.Common.Text.{same}
use otus_c_prog.LogReader.Maps.{
  Entry, Map, hash, change_in, or_first, change_chain, change, entries, int_max, all_int,
}

-- What the entries count together.
unfoldable pub sum : List Entry → ℕ
sum [] = 0
sum (e ∷ es) = e.number + sum es

unfoldable pub total : Map → ℕ
total map = sum (entries map.buckets)

-- A table with a chain for each value of the hash.
pub record IsTable (map : Map) : Type 0 where
  pub positive : 0 < map.size
  pub chains : length map.buckets ≡ map.size

pub sum-++ : (xs ys : List Entry) → sum (xs ++ ys) ≡ sum xs + sum ys
unfolding sum
sum-++ [] ys = omega arith
sum-++ (x ∷ xs) ys = omega (arith, sum-++ xs ys)

sum-set :
    (bs : List (List Entry)) (h : ℕ) (es : List Entry)
    → h < length bs
    → sum (entries (set bs h es)) + sum (get_or bs h []) ≡ sum (entries bs) + sum es
unfolding entries sum
sum-set [] h es lt = absurd (omega arith)
sum-set (b ∷ bs) zero es lt = omega (arith, sum-++ b (entries bs), sum-++ es (entries bs))
sum-set (b ∷ bs) (suc h) es lt =
    omega (
      arith,
      sum-++ b (entries bs),
      sum-++ b (entries (set bs h es)),
      sum-set bs h es (omega arith),
    )

-- An entry's number x has become y: `f x`, or that of a new entry.
pub record Becomes (f : ℕ → ℕ) (first x y : ℕ) : Type 0 where
  pub value : (y ≡ f x) ⊎ ((x ≡ 0) × (y ≡ first))

module _ (f : ℕ → ℕ) where
  change_in-sum :
      (key : List ℕ) (es : List Entry)
      → (change_in f key es ≡ none)
        ⊎ ((found : List Entry) × (x : ℕ) × (change_in f key es ≡ some found)
            × (sum found + x ≡ sum es + f x))
  unfolding change_in sum
  change_in-sum key [] = inl refl
  change_in-sum key (e ∷ es) = elim (Bool-cases (same e.key key)) [
    | inl eq ↦ inr (record { key = e.key; number = f e.number } ∷ es, e.number, rw eq, omega arith)
    | inr ne ↦ elim (change_in-sum key es) [
      | inl nowhere ↦ inl (rw (ne, nowhere))
      | inr (found, x, eq, whole) ↦ inr (e ∷ found, x, rw (ne, eq), omega (arith, whole))
    ]
  ]

  change_chain-sum :
      (first : ℕ) (key : List ℕ) (es : List Entry)
      → (chain : List Entry) × (x y : ℕ) × (change_chain true f first key es ≡ some chain)
        × Becomes f first x y
        × (sum chain + x ≡ sum es + y)
  unfolding change_chain or_first sum
  change_chain-sum first key es = elim (change_in-sum key es) [
    | inl nowhere ↦ (
      record { key = key; number = first } ∷ es,
      0,
      first,
      rw nowhere,
      record { value = inr (refl, refl) },
      omega arith,
    )
    | inr (found, x, eq, whole) ↦ (found, x, f x, rw eq, record { value = inl refl }, whole)
  ]

  -- With memory, `change` changes one number of the table.
  pub change-total :
      (first : ℕ) (map : Map) (key : List ℕ)
      → IsTable map
      → (changed : Map) × (x y : ℕ) × (change true f first map key ≡ some changed)
        × Becomes f first x y
        × (total changed + x ≡ total map + y)
        × IsTable changed
  unfolding change total
  change-total first map key table =
      let at = hash key % map.size in
      let in_range : at < length map.buckets =
        omega (arith, mod-lt (hash key) table.positive, table.chains) in
      let (es, x, y, eq, value, chain_sum) =
        change_chain-sum first key (get_or map.buckets at []) in
      (
        record { buckets = set map.buckets at es; size = map.size },
        x,
        y,
        rw eq,
        value,
        omega (arith, chain_sum, sum-set map.buckets at es in_range),
        record { positive = table.positive; chains = length-set map.buckets at es ∙ table.chains },
      )

-- Numbers that are together an int are all ints.
pub all_int-sum : (es : List Entry) → sum es ≤ int_max → all_int es ≡ true
unfolding all_int sum
all_int-sum [] h = refl
all_int-sum (e ∷ es) h =
    let rest = all_int-sum es (omega arith) in
    let first : leb e.number int_max ≡ true = ground arith in rw (first, rest) refl
