-- ===== src/DbStat/Run/Reported.antt =====
-- 29_dbstat/main.c: what the program asks for, and what it prints of the answer.
use otus_c_prog.Common.{
  ℕ, ◌^◌, ◌<◌, ◌≡◌, refl, sym, ap, ◌∙◌, ◌⊎◌, inl, inr, Bool, true, false, Option, none, some, List,
  [], ◌∷◌, length, arith,
}
use otus_c_prog.DbStat.{Arguments, parse_arguments, validate_identifiers, query_size, query_text}
use otus_c_prog.DbStat.Query.{Selects, query_text-Selects}
use otus_c_prog.DbStat.Rows.{Double, IsOrdered, Converted, report_rows}
use otus_c_prog.DbStat.Rows.Described.{numbers, Printed, report_rows-Printed}
use otus_c_prog.DbStat.Run.{
  Table, Database, Call, send_query, cleanup, after_report, after_query, after_connect,
  after_arguments, program, execute_query, db_connect, store,
}

-- The queries among the calls.
unfoldable pub queries : List Call → List (List ℕ)
queries [] = []
queries (send_query q ∷ cs) = q ∷ queries cs
queries (_ ∷ cs) = queries cs

-- What is sent to the database: nothing, or one query that its buffer holds.
unfoldable pub Asks : List (ℕ × List ℕ) → List (List ℕ) → Type 0
Asks options [] = Unit
Asks options (query ∷ []) =
    (args : Arguments) × (parse_arguments options ≡ some args)
    × Selects args query
    × (length query < query_size)
Asks options (_ ∷ (_ ∷ _)) = ⊥

abbrev pub is_some : {A : Type 0} → Option A → Bool
is_some none = false
is_some (some a) = true

module _ {W : Type 0} (d : Double W) (strtod : List ℕ → Converted W) (db : Database) where
  one_query :
      (args : Arguments)
      → (queries (cleanup (after_arguments d strtod db (some args)).client).calls ≡ [])
        ⊎ ((validate_identifiers args ≡ true)
            × (length (query_text args) < query_size)
            × (queries (cleanup (after_arguments d strtod db (some args)).client).calls
                ≡ query_text args ∷ []))
  unfolding program execute_query db_connect store queries after_arguments after_connect after_query
      after_report
  one_query args = ground arith

  arguments-Asks :
      (options : List (ℕ × List ℕ)) (o : Option Arguments)
      → parse_arguments options ≡ o
      → Asks options (queries (cleanup (after_arguments d strtod db o).client).calls)
  unfolding Asks queries after_arguments cleanup
  arguments-Asks options none p = tt
  arguments-Asks options (some args) p = elim (one_query args) [
    | inl e ↦ rw e tt
    | inr (valid, fits, e) ↦ rw e (args, p, query_text-Selects args valid, fits)
  ]

  -- Whatever the arguments and the answers of the library, the program sends nothing, or one query:
  -- it is shorter than its buffer, and cut at its back quotes it is "SELECT ", the column, " FROM ",
  -- the table and an end, with the column and the table of the arguments.
  pub program-Asks :
      (registered : Bool) (options : List (ℕ × List ℕ))
      → Asks options (queries (program d strtod db registered options).client.calls)
  unfolding program Asks queries
  program-Asks false options = tt
  program-Asks true options = arguments-Asks options (parse_arguments options) refl

  -- What the program has for its report: arguments that are accepted, and a database that answers
  -- their query with a table of one field.
  pub record Answered (options : List (ℕ × List ℕ)) (args : Arguments) (t : Table) : Type 0 where
    pub parsed : parse_arguments options ≡ some args
    pub valid : validate_identifiers args ≡ true
    pub fits : length (query_text args) < query_size
    pub init : db.init ≡ true
    pub connects : db.connects args ≡ true
    pub runs : db.runs (query_text args) ≡ true
    pub stores : db.stores (query_text args) ≡ some t
    pub one_field : t.fields ≡ 1

  Answered-printed :
      (options : List (ℕ × List ℕ)) (args : Arguments) (t : Table)
      → Answered options args t
      → ((program d strtod db true options).printed ≡ report_rows d strtod t.rows)
        × ((program d strtod db true options).status ≡ is_some (report_rows d strtod t.rows))
  unfolding program after_arguments after_connect after_query after_report execute_query db_connect
      store
  Answered-printed options args t a =
      ground (arith, a.parsed, a.valid, a.fits, a.init, a.connects, a.runs, a.stores, a.one_field)

  -- Where `<` on double is irreflexive and transitive, the arguments are accepted, their query
  -- fits and is answered, and the table has one field and fewer than 2^64 rows, the program
  -- succeeds if a field is a number, and prints how many are, how many are not, and the sum, the
  -- mean, the minimum, the maximum and the variance of the numbers, of which none is below the
  -- minimum or above the maximum, both among them; without a number it fails and prints nothing.
  pub program-Printed :
      (options : List (ℕ × List ℕ)) (args : Arguments) (t : Table)
      → IsOrdered d
      → Answered options args t
      → length t.rows < 2 ^ 64
      → Printed d strtod
          (program d strtod db true options).printed
          (numbers d strtod t.rows)
          (length t.rows)
        × ((program d strtod db true options).status
            ≡ is_some (program d strtod db true options).printed)
  program-Printed options args t o a rows =
      let (p, s) = Answered-printed options args t a in
      (rw p (report_rows-Printed d strtod t.rows o rows), s ∙ ap is_some (sym p))
