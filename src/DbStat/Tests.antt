-- ===== src/DbStat/Tests.antt =====
-- 29_dbstat/main.c: a table of four rows, of which two hold numbers, in a double without fractions.
use otus_c_prog.Common.{
  ℕ, ◌+◌, ◌-◌, ◌*◌, ◌/◌, ◌≡◌, refl, true, false, ◌&&◌, none, some, List, [], ◌∷◌, length, leb, ltb,
  get_or, if◌then◌else◌, arith,
}
use otus_c_prog.Common.Text.{codes}
use otus_c_prog.DbStat.{
  Arguments, default_arguments, set_option, set_options, required, parse_arguments,
  validate_identifiers, is_valid_identifier, all_identifier_chars, is_identifier_char, query_text,
}
use otus_c_prog.DbStat.Rows.{
  Double, IsOrdered, Converted, report_rows, process_rows, take_rows, take_row, take_converted,
  skip, count_number, widen, empty_stats, print_statistics, report_of,
}
use otus_c_prog.DbStat.Rows.Described.{numbers, Printed}
use otus_c_prog.DbStat.Run.{Table, Database, program}
use otus_c_prog.DbStat.Run.Balanced.{unopened, is_over, replay, program-replay}
use otus_c_prog.DbStat.Run.Reported.{
  Asks, queries, program-Asks, Answered, program-Printed, is_some,
}

abbrev whole : Double ℕ
whole = record {
  nought = 0;
  of_size = λ n. n;
  plus = λ a b. a + b;
  minus = λ a b. a - b;
  times = λ a b. a * b;
  over = λ a b. a / b;
  lt = ltb;
}

whole-IsOrdered : IsOrdered whole
whole-IsOrdered = record { lt_irrefl = λ x. ground arith; lt_trans = λ x y z p q. ground arith }

-- A text that begins with a digit is read to its end.
abbrev first_digit : List ℕ → Converted ℕ
first_digit s = record {
  value = get_or s 0 b'0' - b'0';
  out_of_range = false;
  used = if leb b'0' (get_or s 0 0) && leb (get_or s 0 0) b'9' then length s else 0;
}

abbrev answer : Table
answer = record {
  fields = 1;
  rows = some (codes "4") ∷ (none ∷ (some (codes "x") ∷ (some (codes "2") ∷ [])));
}

abbrev database : Database
database = record {
  init = true;
  connects = λ args. true;
  runs = λ q. true;
  stores = λ q. some answer;
}

abbrev options : List (ℕ × List ℕ)
options = (b'd', codes "oscar") ∷ ((b't', codes "actors") ∷ ((b'c', codes "age") ∷ []))

abbrev args : Arguments
args = record {
  host = codes "localhost";
  user = codes "root";
  pass = codes "my-secret-pw";
  db = some (codes "oscar");
  table = some (codes "actors");
  column = some (codes "age");
}

answered : Answered whole first_digit database options args answer
unfolding parse_arguments default_arguments set_option set_options required validate_identifiers
    is_valid_identifier all_identifier_chars is_identifier_char query_text
answered = record {
  parsed = refl;
  valid = refl;
  fits = omega arith;
  init = refl;
  connects = refl;
  runs = refl;
  stores = refl;
  one_field = refl;
}

program-replay_example :
    is_over (replay unopened (program whole first_digit database true options).client.calls) ≡ true
program-replay_example = program-replay whole first_digit database true options

program-Asks_example :
    Asks options (queries (program whole first_digit database true options).client.calls)
program-Asks_example = program-Asks whole first_digit database true options

program-Printed_example :
    Printed whole first_digit
      (program whole first_digit database true options).printed
      (numbers whole first_digit answer.rows)
      (length answer.rows)
    × ((program whole first_digit database true options).status
        ≡ is_some (program whole first_digit database true options).printed)
program-Printed_example =
    program-Printed whole first_digit database options args answer whole-IsOrdered answered
      (omega arith)

four_rows :
    report_rows whole first_digit answer.rows
    ≡ some
        (record { count = 2; skipped = some 2; sum = 6; mean = 3; min = 2; max = 4; variance = 1 })
unfolding report_rows process_rows take_rows take_row take_converted skip count_number widen
    empty_stats print_statistics report_of
four_rows = refl
