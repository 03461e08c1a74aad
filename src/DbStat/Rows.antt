-- ===== src/DbStat/Rows.antt =====
-- 29_dbstat/main.c: process_rows and print_statistics. `double` and its operations, and strtod, are
-- parameters.
pub mod Described
pub mod Spans
use otus_c_prog.Common.{
  ℕ, zero, suc, ◌+◌, ◌-◌, ◌≤◌, ◌<◌, ◌%◌, ◌^◌, ◌==◌, ◌≡◌, ◌≢◌, refl, sym, ap, ◌∙◌, ◌⊎◌, inl, inr,
  Bool, true, false, ◌||◌, not, ltb, if◌then◌else◌, List, [], ◌∷◌, length, get_or, Option, none,
  some, add_size, arith, Bool-cases, Option-cases,
}

pub record Double (W : Type 0) : Type 0 where
  pub nought : W
  pub of_size : ℕ → W
  pub plus : W → W → W
  pub minus : W → W → W
  pub times : W → W → W
  pub over : W → W → W
  pub lt : W → W → Bool

-- What holds of `<` on double, with NaN too.
pub record IsOrdered {W : Type 0} (d : Double W) : Type 0 where
  pub lt_irrefl : (x : W) → d.lt x x ≡ false
  pub lt_trans : (x y z : W) → d.lt x y ≡ true → d.lt y z ≡ true → d.lt x z ≡ true

-- What strtod leaves: its value, whether errno is ERANGE, and how many bytes stand before `endptr`.
pub record Converted (W : Type 0) : Type 0 where
  pub value : W
  pub out_of_range : Bool
  pub used : ℕ

-- `extremes` is `min` and `max`, and nothing while `first` holds.
pub record Stats (W : Type 0) : Type 0 where
  pub count : ℕ
  pub skipped : ℕ
  pub sum : W
  pub sum_sq : W
  pub extremes : Option (W × W)

pub record Report (W : Type 0) : Type 0 where
  pub count : ℕ
  pub skipped : Option ℕ
  pub sum : W
  pub mean : W
  pub min : W
  pub max : W
  pub variance : W

module _ {W : Type 0} where
  unfoldable pub skip : Stats W → Stats W
  skip s = record s { skipped = add_size s.skipped 1 }

module _ {W : Type 0} (d : Double W) where
  unfoldable pub empty_stats : Stats W
  empty_stats = record {
    count = 0;
    skipped = 0;
    sum = d.nought;
    sum_sq = d.nought;
    extremes = none;
  }

  unfoldable pub widen : Option (W × W) → W → Option (W × W)
  widen none x = some (x, x)
  widen (some (low, high)) x = some (if d.lt x low then x else low, if d.lt high x then x else high)

  unfoldable pub count_number : Stats W → W → Stats W
  count_number s x = record {
    count = add_size s.count 1;
    skipped = s.skipped;
    sum = d.plus s.sum x;
    sum_sq = d.plus s.sum_sq (d.times x x);
    extremes = widen s.extremes x;
  }

  -- The lines of print_statistics, with the minimum and maximum of `extremes`.
  unfoldable pub report_of : Stats W → W × W → Report W
  report_of s (low, high) =
      let mean = d.over s.sum (d.of_size s.count) in
      record {
        count = s.count;
        skipped = if ltb 0 s.skipped then some s.skipped else none;
        sum = s.sum;
        mean = mean;
        min = low;
        max = high;
        variance = d.minus (d.over s.sum_sq (d.of_size s.count)) (d.times mean mean);
      }

  -- print_statistics after process_rows succeeded; `extremes` is then set.
  unfoldable pub print_statistics : Stats W → Option (Report W)
  print_statistics s = elim s.extremes [ none ↦ none | some e ↦ some (report_of s e) ]

module _ {W : Type 0} (d : Double W) (strtod : List ℕ → Converted W) where
  -- A row whose field has the text `val`, with what strtod made of it.
  unfoldable pub take_converted : Stats W → List ℕ → Converted W → Stats W
  take_converted s val c =
      if c.out_of_range
      then skip s
      else if c.used == 0 || not (get_or val c.used 0 == 0)
      then skip s
      else count_number d s c.value

  unfoldable pub take_row : Stats W → Option (List ℕ) → Stats W
  take_row s none = skip s
  take_row s (some val) = take_converted s val (strtod val)

  unfoldable pub take_rows : Stats W → List (Option (List ℕ)) → Stats W
  take_rows s [] = s
  take_rows s (row ∷ rows) = take_rows (take_row s row) rows

  -- process_rows; `none` is the result -1.
  unfoldable pub process_rows : List (Option (List ℕ)) → Option (Stats W)
  process_rows rows =
      let s = take_rows (empty_stats d) rows in if s.count == 0 then none else some s

  -- What the program prints for the rows of its answer.
  unfoldable pub report_rows : List (Option (List ℕ)) → Option (Report W)
  report_rows rows = elim (process_rows rows) [ none ↦ none | some s ↦ print_statistics d s ]
