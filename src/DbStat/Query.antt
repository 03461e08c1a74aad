-- ===== src/DbStat/Query.antt =====
-- 29_dbstat/main.c: what the query says to a reader of the back quotes.
use otus_c_prog.Common.{
  ℕ, ◌≡◌, ◌≢◌, refl, true, false, Option, none, some, List, [], ◌∷◌, ◌++◌, ◌==◌, if◌then◌else◌,
  arith,
}
use otus_c_prog.Common.Text.{codes}
use otus_c_prog.DbStat.{
  Arguments, is_identifier_char, all_identifier_chars, is_valid_identifier, validate_identifiers,
  text_of, query_text,
}

-- A text cut at each `c`, which is left out.
unfoldable pub pieces : ℕ → List ℕ → List (List ℕ)
pieces c [] = [] ∷ []
pieces c (x ∷ xs) = elim (pieces c xs) [
  | [] ↦ []
  | first ∷ others ↦ if x == c then [] ∷ (first ∷ others) else (x ∷ first) ∷ others
]

abbrev FreeOf : ℕ → List ℕ → Type 0
FreeOf c [] = Unit
FreeOf c (x ∷ xs) = (x ≢ c) × FreeOf c xs

pieces_cons :
    (c x : ℕ) (xs first : List ℕ) (others : List (List ℕ))
    → x ≢ c
    → pieces c xs ≡ first ∷ others
    → pieces c (x ∷ xs) ≡ (x ∷ first) ∷ others
unfolding pieces
pieces_cons c x xs first others h e = let f : (x == c) ≡ false = ground arith in rw (e, f)

pieces_cut :
    (c : ℕ) (xs first : List ℕ) (others : List (List ℕ))
    → pieces c xs ≡ first ∷ others
    → pieces c (c ∷ xs) ≡ [] ∷ (first ∷ others)
unfolding pieces
pieces_cut c xs first others e = let t : (c == c) ≡ true = ground arith in rw (e, t)

pieces-append :
    (c : ℕ) (a xs first : List ℕ) (others : List (List ℕ))
    → FreeOf c a
    → pieces c xs ≡ first ∷ others
    → pieces c (a ++ (c ∷ xs)) ≡ a ∷ (first ∷ others)
pieces-append c [] xs first others h e = pieces_cut c xs first others e
pieces-append c (x ∷ a) xs first others h e =
    pieces_cons c x (a ++ (c ∷ xs)) a (first ∷ others) h.0 (pieces-append c a xs first others h.1 e)

identifier_chars-free : (s : List ℕ) → all_identifier_chars s ≡ true → FreeOf b'`' s
unfolding all_identifier_chars is_identifier_char
identifier_chars-free [] h = tt
identifier_chars-free (c ∷ cs) h = (ground arith, identifier_chars-free cs (ground arith))

identifier-free :
    (s : Option (List ℕ))
    → is_valid_identifier s ≡ true
    → (s ≡ some (text_of s)) × FreeOf b'`' (text_of s)
unfolding is_valid_identifier
identifier-free none h = cc
identifier-free (some []) h = cc
identifier-free (some (c ∷ cs)) h = (refl, identifier_chars-free (c ∷ cs) h)

-- The query reads as a choice of the column from the table, each in quotes of its own.
pub record Selects (args : Arguments) (query : List ℕ) : Type 0 where
  pub column : List ℕ
  pub table : List ℕ
  pub of_column : args.column ≡ some column
  pub of_table : args.table ≡ some table
  pub quoted :
      pieces b'`' query ≡ codes "SELECT " ∷ (column ∷ (codes " FROM " ∷ (table ∷ ([] ∷ []))))

pub query_text-Selects :
    (args : Arguments) → validate_identifiers args ≡ true → Selects args (query_text args)
unfolding validate_identifiers query_text pieces
query_text-Selects args h =
    let column = identifier-free args.column (ground arith) in
    let table = identifier-free args.table (ground arith) in
    let from_text = codes " FROM `" ++ (text_of args.table ++ codes "`") in
    record {
      column = text_of args.column;
      table = text_of args.table;
      of_column = column.0;
      of_table = table.0;
      quoted =
          pieces-append b'`' (codes "SELECT ") (text_of args.column ++ (b'`' ∷ from_text)) _ _
            (omega arith)
            (pieces-append b'`' (text_of args.column) from_text _ _ column.1 (
              pieces-append b'`' (codes " FROM ") (text_of args.table ++ codes "`") _ _
                (omega arith) (pieces-append b'`' (text_of args.table) [] [] [] table.1 refl)));
    }
