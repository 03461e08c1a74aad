-- ===== src/LogReader/Line.antt =====
-- 17_log_reader/main.c: parse_log_line, and what a worker does with a line. `atoll` is the C
-- library's, with its result as a size_t.
use otus_c_prog.Common.{
  ℕ, ◌==◌, ltb, Bool, if◌then◌else◌, List, [], ◌∷◌, Option, none, some, add_size,
}
use otus_c_prog.LogReader.Text.{strchr, before, skip_spaces, starts_digit, next, ◌>>=◌}
use otus_c_prog.LogReader.Maps.{Map, url_map_add, ref_map_inc}

pub record Parsed : Type 0 where
  pub url : List ℕ
  pub bytes : ℕ
  pub referer : List ℕ

-- What stands in memory for the two strings; NULL for one of them is a failed parse.
pub record Mallocs : Type 0 where
  pub for_url : Bool
  pub for_referer : Bool
  pub for_url_entry : Bool
  pub for_ref_entry : Bool

-- The counters that the workers share.
pub record Counters : Type 0 where
  pub total_bytes : ℕ
  pub url_map : Map
  pub ref_map : Map

module _ (atoll : List ℕ → ℕ) where
  unfoldable pub size_of : List ℕ → ℕ
  size_of [] = atoll []
  size_of (x ∷ s) = if x == 45 then 0 else atoll (x ∷ s)

  -- The end of parse_log_line, from the size of the answer on.
  unfoldable pub parse_size : Mallocs → List ℕ → List ℕ → Option Parsed
  parse_size memory url p = do
    quote ← strchr p 34
    let ref_start = next quote
    _ ← strchr ref_start 34
    if memory.for_url
        then if memory.for_referer
          then some (record { url = url; bytes = size_of p; referer = before ref_start 34 })
          else none
        else none

  unfoldable pub parse_status : Mallocs → List ℕ → List ℕ → Option Parsed
  parse_status memory url p =
      if starts_digit p
      then (do space ← strchr p 32; parse_size memory url (skip_spaces (next space)))
      else none

  unfoldable pub parse_log_line : Mallocs → List ℕ → Option Parsed
  parse_log_line memory line = do
    ip_end ← strchr line 32
    id_end ← strchr (next ip_end) 32
    bracket ← strchr (next id_end) 91
    quote ← strchr bracket 34
    method_end ← strchr (next quote) 32
    let url_start = next method_end
    url_end ← strchr url_start 32
    version_end ← strchr url_end 34
    parse_status memory (before url_start 32) (skip_spaces (next version_end))

  -- The part of a worker's turn that counts a parsed line; without memory the program ends.
  unfoldable pub count_parsed : Mallocs → Counters → Parsed → Option Counters
  count_parsed memory c p =
      if ltb 0 p.bytes
      then (do
        urls ← url_map_add memory.for_url_entry c.url_map (some p.url) p.bytes
        refs ← ref_map_inc memory.for_ref_entry c.ref_map (some p.referer)
        some (record {
          total_bytes = add_size c.total_bytes p.bytes;
          url_map = urls;
          ref_map = refs;
        }))
      else (do
        refs ← ref_map_inc memory.for_ref_entry c.ref_map (some p.referer)
        some (record { total_bytes = c.total_bytes; url_map = c.url_map; ref_map = refs }))

  unfoldable pub count_if_parsed : Mallocs → Counters → Option Parsed → Option Counters
  count_if_parsed memory c none = some c
  count_if_parsed memory c (some p) = count_parsed memory c p

  -- The lines of all the files, in the order in which the workers come to them.
  unfoldable pub count_lines : Counters → List (Mallocs × List ℕ) → Option Counters
  count_lines c [] = some c
  count_lines c (l ∷ ls) = do
    counted ← count_if_parsed l.0 c (parse_log_line l.0 l.1)
    count_lines counted ls
