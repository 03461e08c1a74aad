-- ===== src/LogReader/Tests.antt =====
-- 17_log_reader/main.c: examples of lines, texts, directories and steps of the workers.
use otus_c_prog.Common.{
  ℕ, ◌+◌, ◌-◌, ◌*◌, ◌%◌, ◌^◌, ◌≤◌, ◌<◌, ◌≡◌, ◌≢◌, refl, true, List, [], ◌∷◌, some, arith,
  if◌then◌else◌,
}
use otus_c_prog.Common.Text.{codes}
use otus_c_prog.LogReader.Text.{free_of, isdigit, starts_digit}
use otus_c_prog.LogReader.Decode.{url_decode, percent, AreBytes, url_decode-percent}
use otus_c_prog.LogReader.Line.{Counters, parse_log_line, count_lines}
use otus_c_prog.LogReader.Parsed.{Fields, WellFormed, from_size, line_of, parse_log_line-line_of}
use otus_c_prog.LogReader.Totals.{total}
use otus_c_prog.LogReader.Counted.{
  plenty, no_counts, with_memory, bytes_in, parsed_in, parsed_in-le, count_lines-totals,
}
use otus_c_prog.LogReader.Files.{Dirent}
use otus_c_prog.LogReader.Queue.{
  FileQueue, asleep, Reach, begin, read_file, start, finish_empty, take_file,
}
use otus_c_prog.LogReader.Queue.Inv.{down, Reach-files, Reach-awake}

-- A reader of decimal numbers in the place of the C library's atoll.
digits_from : ℕ → List ℕ → ℕ
digits_from n [] = n
digits_from n (c ∷ s) =
    let rest = digits_from (n * 10 + (c - 48)) s in if isdigit c then rest else n

abbrev fields : Fields
fields = record {
  ip = codes "10.0.0.1";
  ident = codes "-";
  user = codes "- ";
  date = codes "10/Oct/2024:13:55:36 +0000] ";
  method = codes "GET";
  uri = codes "/index.html";
  version = codes "HTTP/1.1";
  status = codes "200";
  size = codes "2326";
  referer = codes "http://example.com/";
  rest = codes " \"curl\"";
}

fields-WellFormed : WellFormed fields
unfolding free_of starts_digit
fields-WellFormed = record {
  ip_free = refl;
  ident_free = refl;
  user_free = refl;
  date_free = refl;
  method_free = refl;
  uri_free = refl;
  version_free = refl;
  status_free = refl;
  status_digit = refl;
  size_free = refl;
  size_digit = refl;
  referer_free = refl;
}

parse_log_line-line_of_example :
    parse_log_line (digits_from 0) plenty (line_of fields)
    ≡ some (record {
      url = fields.uri;
      bytes = digits_from 0 (from_size fields);
      referer = fields.referer;
    })
parse_log_line-line_of_example =
    parse_log_line-line_of (digits_from 0) plenty fields fields-WellFormed refl refl

count_lines-totals_example :
    (c : Counters) × (count_lines
        (digits_from 0)
        no_counts
        (with_memory (line_of fields ∷ codes "?" ∷ []))
      ≡ some c)
    × (total c.url_map % 2 ^ 64 ≡ c.total_bytes % 2 ^ 64)
    × (c.total_bytes % 2 ^ 64 ≡ bytes_in (digits_from 0) (line_of fields ∷ codes "?" ∷ []) % 2 ^ 64)
    × (total c.ref_map ≡ parsed_in (digits_from 0) (line_of fields ∷ codes "?" ∷ []))
count_lines-totals_example =
    count_lines-totals (digits_from 0) (line_of fields ∷ codes "?" ∷ [])
      (omega (arith, parsed_in-le (digits_from 0) (line_of fields ∷ codes "?" ∷ [])))

url_decode-percent_example : url_decode (percent (209 ∷ 143 ∷ [])) ≡ 209 ∷ 143 ∷ []
unfolding AreBytes
url_decode-percent_example = url_decode-percent (209 ∷ 143 ∷ []) (omega arith, (omega arith, tt))

abbrev directory : List Dirent
directory =
    record {
      d_name = codes "access.log.1";
      is_regular = true;
      path_memory = true;
      array_memory = true;
    }
    ∷ []

-- A worker has taken the only file.
one_taken : Reach 1 (take_file (start 1)).queue (0 ∷ []) 0
unfolding take_file start
one_taken = read_file begin refl

abbrev emptied : FileQueue
emptied = (take_file (start 1)).queue

Reach-files_example :
    ((0 ∷ []) ≡ down emptied.next) × (emptied.next ≤ 1) × (0 < 0 → (0 ∷ []) ≡ down 1)
Reach-files_example = Reach-files one_taken

Reach-awake_example : (take_file (finish_empty emptied)).turn ≢ asleep
Reach-awake_example = Reach-awake one_taken
