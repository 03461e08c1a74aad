-- ===== src/DbStat.antt =====
-- 29_dbstat/main.c: the arguments of the program and the text of its query. Texts are lists of the
-- bytes above zero.
pub mod Query
pub mod Rows
pub mod Run
mod Tests
use otus_c_prog.Common.{
  ℕ, Bool, true, false, ◌&&◌, ◌||◌, Option, none, some, List, [], ◌∷◌, ◌++◌, ◌==◌, leb,
  if◌then◌else◌,
}
use otus_c_prog.Common.Text.{codes}

pub record Arguments : Type 0 where
  pub host : List ℕ
  pub user : List ℕ
  pub pass : List ℕ
  pub db : Option (List ℕ)
  pub table : Option (List ℕ)
  pub column : Option (List ℕ)

unfoldable pub default_arguments : Arguments
default_arguments = record {
  host = codes "localhost";
  user = codes "root";
  pass = codes "my-secret-pw";
  db = none;
  table = none;
  column = none;
}

-- One turn of the loop: the letter that getopt returns, and `optarg`.
unfoldable pub set_option : Arguments → ℕ → List ℕ → Option Arguments
set_option args opt optarg =
    if opt == b'h'
    then some (record args { host = optarg })
    else if opt == b'u'
    then some (record args { user = optarg })
    else if opt == b'p'
    then some (record args { pass = optarg })
    else if opt == b'd'
    then some (record args { db = some optarg })
    else if opt == b't'
    then some (record args { table = some optarg })
    else if opt == b'c'
    then some (record args { column = some optarg })
    else none

unfoldable pub set_options : Arguments → List (ℕ × List ℕ) → Option Arguments
set_options args [] = some args
set_options args ((opt, optarg) ∷ rest) = elim (set_option args opt optarg) [
  | none ↦ none
  | some changed ↦ set_options changed rest
]

abbrev is_null : Option (List ℕ) → Bool
is_null none = true
is_null (some s) = false

unfoldable pub required : Arguments → Option Arguments
required args =
    if is_null args.db || is_null args.table || is_null args.column then none else some args

-- parse_arguments on what getopt returns until it returns -1; `none` is the result -1.
unfoldable pub parse_arguments : List (ℕ × List ℕ) → Option Arguments
parse_arguments options = elim (set_options default_arguments options) [
  | none ↦ none
  | some args ↦ required args
]

-- Bytes from 128 on are negative as `char`, and in none of the ranges either way.
unfoldable pub is_identifier_char : ℕ → Bool
is_identifier_char c =
    (leb b'a' c && leb c b'z')
    || (leb b'A' c && leb c b'Z')
    || (leb b'0' c && leb c b'9')
    || c == b'_'
    || c == b'$'

unfoldable pub all_identifier_chars : List ℕ → Bool
all_identifier_chars [] = true
all_identifier_chars (c ∷ cs) = is_identifier_char c && all_identifier_chars cs

unfoldable pub is_valid_identifier : Option (List ℕ) → Bool
is_valid_identifier none = false
is_valid_identifier (some []) = false
is_valid_identifier (some (c ∷ cs)) = all_identifier_chars (c ∷ cs)

unfoldable pub validate_identifiers : Arguments → Bool
validate_identifiers args =
    is_valid_identifier args.db && is_valid_identifier args.table && is_valid_identifier args.column

-- What `%s` puts for a pointer; a NULL does not pass validate_identifiers.
abbrev pub text_of : Option (List ℕ) → List ℕ
text_of none = []
text_of (some s) = s

abbrev pub query_size : ℕ
query_size = 512

-- What snprintf writes, were the buffer large enough.
unfoldable pub query_text : Arguments → List ℕ
query_text args =
    codes "SELECT `"
    ++ (text_of args.column ++ (codes "` FROM `" ++ (text_of args.table ++ codes "`")))
