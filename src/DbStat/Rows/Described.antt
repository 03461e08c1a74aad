-- ===== src/DbStat/Rows/Described.antt =====
-- 29_dbstat/main.c: what the printed statistics say of the numbers in the rows.
use otus_c_prog.Common.{
  ℕ, zero, suc, ◌+◌, ◌<◌, ◌^◌, ◌==◌, ◌≡◌, refl, ◌∙◌, ◌⊎◌, inl, inr, Bool, false, ◌&&◌, not, ltb,
  if◌then◌else◌, List, [], ◌∷◌, map, length, get_or, Option, none, some, arith,
}
use otus_c_prog.DbStat.Rows.{
  Double, IsOrdered, Converted, Stats, Report, empty_stats, skip, count_number, take_converted,
  take_row, take_rows, process_rows, report_of, print_statistics, report_rows,
}
use otus_c_prog.DbStat.Rows.Spans.{Spans, widen_all, widen_all-Spans}

module _ {W : Type 0} (d : Double W) where
  -- The sum of the numbers, added one after the other.
  abbrev pub total : W → List W → W
  total acc [] = acc
  total acc (x ∷ xs) = total (d.plus acc x) xs

  abbrev pub square : W → W
  square x = d.times x x

  -- What the lines of print_statistics say of the numbers `xs` in `n` rows.
  pub record Describes (r : Report W) (xs : List W) (n : ℕ) : Type 0 where
    pub counted : r.count ≡ length xs
    pub others :
        (r.skipped ≡ none × length xs ≡ n)
        ⊎ ((k : ℕ) × (r.skipped ≡ some k) × (0 < k) × (length xs + k ≡ n))
    pub summed : r.sum ≡ total d.nought xs
    pub averaged : r.mean ≡ d.over (total d.nought xs) (d.of_size (length xs))
    pub spread :
        r.variance
        ≡ d.minus
            (d.over (total d.nought (map square xs)) (d.of_size (length xs)))
            (d.times r.mean r.mean)
    pub spanned : Spans d r.min r.max xs

skipped_line :
    (k m n : ℕ)
    → k + m ≡ n
    → (((if ltb 0 k then some k else none) ≡ none) × (m ≡ n))
      ⊎ ((j : ℕ) × ((if ltb 0 k then some k else none) ≡ some j) × (0 < j) × (m + j ≡ n))
skipped_line zero m n e = inl (refl, omega arith)
skipped_line (suc k) m n e = inr (suc k, ground arith, omega arith, omega arith)

module _ {W : Type 0} (d : Double W) (strtod : List ℕ → Converted W) where
  -- A field is a number if strtod reads all of it, at least one byte, and in range.
  abbrev pub is_number : List ℕ → Converted W → Bool
  is_number val c = not c.out_of_range && (not (c.used == 0) && (get_or val c.used 0 == 0))

  unfoldable pub number_of : Option (List ℕ) → Option W
  number_of none = none
  number_of (some val) = if is_number val (strtod val) then some (strtod val).value else none

  -- The numbers in the rows.
  unfoldable pub numbers : List (Option (List ℕ)) → List W
  numbers [] = []
  numbers (row ∷ rows) = elim (number_of row) [ none ↦ numbers rows | some x ↦ x ∷ numbers rows ]

  -- The statistics after `n` rows with the numbers `xs`.
  record Gathered (s t : Stats W) (xs : List W) (n : ℕ) : Type 0 where
    counted : t.count ≡ s.count + length xs
    others : t.skipped + length xs ≡ s.skipped + n
    summed : t.sum ≡ total d s.sum xs
    squares : t.sum_sq ≡ total d s.sum_sq (map (square d) xs)
    extremes : t.extremes ≡ widen_all d s.extremes xs

  Fits : Stats W → ℕ → Type 0
  Fits s n = s.count + s.skipped + n < 2 ^ 64

  take_row-skip :
      (s : Stats W) (row : Option (List ℕ))
      → number_of row ≡ none
      → take_row d strtod s row ≡ skip s
  unfolding take_row take_converted number_of
  take_row-skip s none e = refl
  take_row-skip s (some val) e = ground arith

  take_row-count :
      (s : Stats W) (row : Option (List ℕ)) (x : W)
      → number_of row ≡ some x
      → take_row d strtod s row ≡ count_number d s x
  unfolding take_row take_converted number_of
  take_row-count s none x e = cc
  take_row-count s (some val) x e = ground arith

  Gathered-skip :
      (s t : Stats W) (xs : List W) (n : ℕ)
      → Fits s (suc n)
      → Gathered (skip s) t xs n
      → Gathered s t xs (suc n)
  unfolding skip Fits
  Gathered-skip s t xs n fits g = record {
    counted = g.counted;
    others = omega (arith, g.others);
    summed = g.summed;
    squares = g.squares;
    extremes = g.extremes;
  }

  Gathered-count :
      (s t : Stats W) (x : W) (xs : List W) (n : ℕ)
      → Fits s (suc n)
      → Gathered (count_number d s x) t xs n
      → Gathered s t (x ∷ xs) (suc n)
  unfolding count_number Fits widen_all
  Gathered-count s t x xs n fits g = record {
    counted = omega (arith, g.counted);
    others = omega (arith, g.others);
    summed = g.summed;
    squares = g.squares;
    extremes = g.extremes;
  }

  Fits-skip : (s : Stats W) (n : ℕ) → Fits s (suc n) → Fits (skip s) n
  unfolding Fits skip
  Fits-skip s n fits = omega arith

  Fits-count : (s : Stats W) (x : W) (n : ℕ) → Fits s (suc n) → Fits (count_number d s x) n
  unfolding Fits count_number
  Fits-count s x n fits = omega arith

  take_rows-Gathered :
      (s : Stats W) (rows : List (Option (List ℕ)))
      → Fits s (length rows)
      → Gathered s (take_rows d strtod s rows) (numbers rows) (length rows)
  unfolding take_rows numbers Fits widen_all
  take_rows-Gathered s [] fits = record {
    counted = omega arith;
    others = omega arith;
    summed = refl;
    squares = refl;
    extremes = refl;
  }
  take_rows-Gathered s (row ∷ rows) fits =
      go (number_of row) refl (take_rows-Gathered (skip s) rows)
        (λ x. take_rows-Gathered (count_number d s x) rows)
    where
      go :
          (o : Option W)
          → number_of row ≡ o
          → (Fits (skip s) (length rows)
              → Gathered (skip s) (take_rows d strtod (skip s) rows) (numbers rows) (length rows))
          → ((x : W)
              → Fits (count_number d s x) (length rows)
              → Gathered
                  (count_number d s x)
                  (take_rows d strtod (count_number d s x) rows)
                  (numbers rows)
                  (length rows))
          → Gathered s
              (take_rows d strtod (take_row d strtod s row) rows)
              (elim o [ none ↦ numbers rows | some x ↦ x ∷ numbers rows ])
              (suc (length rows))
      go none e skipped counted =
          rw (take_row-skip s row e) (Gathered-skip s _ _ _ fits (skipped (Fits-skip s _ fits)))
      go (some x) e skipped counted =
          rw (take_row-count s row x e)
            (Gathered-count s _ x _ _ fits (counted x (Fits-count s x _ fits)))

  -- Nothing is printed for no numbers, and a description of the numbers for some.
  pub Printed : Option (Report W) → List W → ℕ → Type 0
  Printed printed xs n =
      ((xs ≡ []) × (printed ≡ none)) ⊎ ((r : Report W) × (printed ≡ some r) × Describes d r xs n)

  print-Describes :
      (s : Stats W) (x : W) (xs : List W) (n : ℕ) (low high : W)
      → Gathered (empty_stats d) s (x ∷ xs) n
      → s.extremes ≡ some (low, high)
      → Spans d low high (x ∷ xs)
      → (r : Report W) × (print_statistics d s ≡ some r) × Describes d r (x ∷ xs) n
  unfolding print_statistics report_of empty_stats
  print-Describes s x xs n low high g e sp =
      let c : s.count ≡ suc (length xs) = omega (arith, g.counted) in
      let k : s.skipped + suc (length xs) ≡ n = omega (arith, g.others) in
      (
        report_of d s (low, high),
        rw e,
        record {
          counted = c;
          others = skipped_line s.skipped (suc (length xs)) n k;
          summed = g.summed;
          averaged = cc (c, g.summed);
          spread = cc (c, g.squares);
          spanned = sp;
        },
      )

  gathered-Printed :
      (s : Stats W) (xs : List W) (n : ℕ)
      → IsOrdered d
      → Gathered (empty_stats d) s xs n
      → Printed
          (elim (if s.count == 0 then none else some s) [
            | none ↦ none
            | some t ↦ print_statistics d t
          ])
          xs
          n
  unfolding Printed empty_stats
  gathered-Printed s [] n o g = let z : s.count ≡ 0 = omega (arith, g.counted) in inl (refl, rw z)
  gathered-Printed s (x ∷ xs) n o g =
      let (low, high, e, sp) = widen_all-Spans d o x xs in
      let r = print-Describes s x xs n low high g (g.extremes ∙ e) sp in
      let z : (s.count == 0) ≡ false = ground (arith, g.counted) in inr (r.0, rw z r.1, r.2)

  pub report_rows-Printed :
      (rows : List (Option (List ℕ)))
      → IsOrdered d
      → length rows < 2 ^ 64
      → Printed (report_rows d strtod rows) (numbers rows) (length rows)
  unfolding report_rows process_rows empty_stats Fits
  report_rows-Printed rows o fits =
      gathered-Printed (take_rows d strtod (empty_stats d) rows) (numbers rows) (length rows) o
        (take_rows-Gathered (empty_stats d) rows (omega arith))
