-- ===== src/LogReader/Counted.antt =====
-- 17_log_reader/main.c: what the workers count together, whatever the lines and their order.
use otus_c_prog.Common.{
  ℕ, zero, suc, ◌+◌, ◌%◌, ◌^◌, ◌<◌, ◌≤◌, ◌==◌, ◌≡◌, refl, inl, inr, ltb, true, List, [], length,
  ◌∷◌, Option, none, some, replicate, length-replicate, add_size, arith, Bool-cases,
}
use otus_c_prog.LogReader.Maps.{
  Entry, Map, url_map_add, ref_map_inc, if_int, int_max, entries, hash_size,
}
use otus_c_prog.LogReader.Line.{
  Parsed, Mallocs, Counters, parse_log_line, count_parsed, count_if_parsed, count_lines,
}
use otus_c_prog.LogReader.Totals.{sum, total, IsTable, change-total, all_int-sum}

abbrev pub plenty : Mallocs
plenty = record { for_url = true; for_referer = true; for_url_entry = true; for_ref_entry = true }

-- Lines for which no allocation fails.
pub with_memory : List (List ℕ) → List (Mallocs × List ℕ)
with_memory [] = []
with_memory (l ∷ ls) = (plenty, l) ∷ with_memory ls

bytes_of : Option Parsed → ℕ
bytes_of none = 0
bytes_of (some p) = p.bytes

one_if : Option Parsed → ℕ
one_if none = 0
one_if (some p) = 1

module _ (atoll : List ℕ → ℕ) where
  -- The bytes of the lines that can be parsed, and how many these are.
  pub bytes_in : List (List ℕ) → ℕ
  bytes_in [] = 0
  bytes_in (l ∷ ls) = bytes_of (parse_log_line atoll plenty l) + bytes_in ls

  pub parsed_in : List (List ℕ) → ℕ
  parsed_in [] = 0
  parsed_in (l ∷ ls) = one_if (parse_log_line atoll plenty l) + parsed_in ls

pub parsed_in-le :
    (atoll : List ℕ → ℕ) (lines : List (List ℕ)) → parsed_in atoll lines ≤ length lines
unfolding parsed_in
parsed_in-le atoll [] = omega arith
parsed_in-le atoll (l ∷ ls) =
    omega (arith, parsed_in-le atoll ls, one_if-le (parse_log_line atoll plenty l))
  where
    one_if-le : (o : Option Parsed) → one_if o ≤ 1
    one_if-le none = unfold one_if in omega arith
    one_if-le (some p) = unfold one_if in omega arith

-- The counters c have counted `bytes` and `lines` more than c₀.
record Counted (c₀ c : Counters) (bytes lines : ℕ) : Type 0 where
  urls : IsTable c.url_map
  refs : IsTable c.ref_map
  total_eq : c.total_bytes % 2 ^ 64 ≡ (c₀.total_bytes + bytes) % 2 ^ 64
  urls_eq : total c.url_map % 2 ^ 64 ≡ (total c₀.url_map + bytes) % 2 ^ 64
  refs_eq : total c.ref_map ≡ total c₀.ref_map + lines

url_map_add-total :
    (map : Map) (key : List ℕ) (bytes : ℕ)
    → IsTable map
    → (changed : Map) × (url_map_add true map (some key) bytes ≡ some changed)
      × (total changed % 2 ^ 64 ≡ (total map + bytes) % 2 ^ 64)
      × IsTable changed
unfolding url_map_add
url_map_add-total map key bytes table = elim (Bool-cases (bytes == 0)) [
  | inl e ↦ (map, rw e, ground arith, table)
  | inr e ↦
      let (changed, x, y, eq, value, whole, still) =
        change-total (λ b. add_size b bytes) bytes map key table in
      (
        changed,
        rw (e, eq),
        elim value.value [
          | inl added ↦ omega (arith, added, whole)
          | inr (none_yet, new) ↦ omega (arith, none_yet, new, whole)
        ],
        still,
      )
]

ref_map_inc-total :
    (map : Map) (key : List ℕ)
    → total map < int_max
    → IsTable map
    → (changed : Map) × (ref_map_inc true map (some key) ≡ some changed)
      × (total changed ≡ total map + 1)
      × IsTable changed
unfolding ref_map_inc if_int
ref_map_inc-total map key small table =
    let (changed, x, y, eq, value, whole, still) = change-total (λ c. c + 1) 1 map key table in
    let one_more : total changed ≡ total map + 1 = elim value.value [
      | inl added ↦ omega (arith, added, whole)
      | inr (none_yet, new) ↦ omega (arith, none_yet, new, whole)
    ] in
    let ints = all_int-sum (entries changed.buckets) (unfold total in omega (arith, one_more)) in
    (changed, rw (eq, ints), one_more, still)

count_parsed-Counted :
    (atoll : List ℕ → ℕ) (c : Counters) (p : Parsed)
    → IsTable c.url_map
    → IsTable c.ref_map
    → total c.ref_map < int_max
    → (c' : Counters) × (count_parsed atoll plenty c p ≡ some c') × Counted c c' p.bytes 1
unfolding count_parsed
count_parsed-Counted atoll c p urls refs small =
    let (u, u_eq, u_total, u_table) = url_map_add-total c.url_map p.url p.bytes urls in
    let (r, r_eq, r_total, r_table) = ref_map_inc-total c.ref_map p.referer small refs in
    elim (Bool-cases (ltb 0 p.bytes)) [
      | inl some_bytes ↦ (
        record { total_bytes = add_size c.total_bytes p.bytes; url_map = u; ref_map = r },
        rw (some_bytes, u_eq, r_eq),
        record {
          urls = u_table;
          refs = r_table;
          total_eq = omega arith;
          urls_eq = u_total;
          refs_eq = r_total;
        },
      )
      | inr no_bytes ↦
          let zero_eq : p.bytes ≡ 0 = ground arith in
          (
            record { total_bytes = c.total_bytes; url_map = c.url_map; ref_map = r },
            rw (no_bytes, r_eq),
            record {
              urls = urls;
              refs = r_table;
              total_eq = omega (arith, zero_eq);
              urls_eq = omega (arith, zero_eq);
              refs_eq = r_total;
            },
          )
    ]

count_if_parsed-Counted :
    (atoll : List ℕ → ℕ) (c : Counters) (o : Option Parsed)
    → IsTable c.url_map
    → IsTable c.ref_map
    → total c.ref_map + one_if o ≤ int_max
    → (c' : Counters) × (count_if_parsed atoll plenty c o ≡ some c')
      × Counted c c' (bytes_of o) (one_if o)
unfolding count_if_parsed bytes_of one_if
count_if_parsed-Counted atoll c none urls refs small = (
  c,
  refl,
  record {
    urls = urls;
    refs = refs;
    total_eq = omega arith;
    urls_eq = omega arith;
    refs_eq = omega arith;
  },
)
count_if_parsed-Counted atoll c (some p) urls refs small =
    count_parsed-Counted atoll c p urls refs (omega arith)

count_lines-Counted :
    (atoll : List ℕ → ℕ) (c : Counters) (lines : List (List ℕ))
    → IsTable c.url_map
    → IsTable c.ref_map
    → total c.ref_map + parsed_in atoll lines ≤ int_max
    → (c' : Counters) × (count_lines atoll c (with_memory lines) ≡ some c')
      × Counted c c' (bytes_in atoll lines) (parsed_in atoll lines)
unfolding count_lines with_memory bytes_in parsed_in
count_lines-Counted atoll c [] urls refs small = (
  c,
  refl,
  record {
    urls = urls;
    refs = refs;
    total_eq = omega arith;
    urls_eq = omega arith;
    refs_eq = omega arith;
  },
)
count_lines-Counted atoll c (l ∷ ls) urls refs small =
    let (c₁, e₁, k₁) =
      count_if_parsed-Counted atoll c (parse_log_line atoll plenty l) urls refs (omega arith) in
    let (c₂, e₂, k₂) =
      count_lines-Counted atoll c₁ ls k₁.urls k₁.refs (omega (arith, k₁.refs_eq)) in
    (
      c₂,
      rw (e₁, e₂),
      record {
        urls = k₂.urls;
        refs = k₂.refs;
        total_eq = omega (arith, k₁.total_eq, k₂.total_eq);
        urls_eq = omega (arith, k₁.urls_eq, k₂.urls_eq);
        refs_eq = omega (arith, k₁.refs_eq, k₂.refs_eq);
      },
    )

-- The counters before the first line, with the maps as map_init leaves them.
abbrev pub no_entries : Map
no_entries = record { buckets = replicate hash_size []; size = hash_size }

abbrev pub no_counts : Counters
no_counts = record { total_bytes = 0; url_map = no_entries; ref_map = no_entries }

sum-replicate : (n : ℕ) → sum (entries (replicate n [])) ≡ 0
unfolding sum entries
sum-replicate zero = refl
sum-replicate (suc n) = sum-replicate n

-- Whatever lines the workers read, in whatever order, where no allocation fails and fewer than
-- 2^31 of the lines can be parsed: the counters are filled to the end, with no count that
-- overflows, the bytes of the entries of url_map add up to total_bytes and to the sizes of the
-- lines that can be parsed, modulo 2^64, and the counts in ref_map add up to how many lines these
-- are.
pub count_lines-totals :
    (atoll : List ℕ → ℕ) (lines : List (List ℕ))
    → parsed_in atoll lines < 2 ^ 31
    → (c : Counters) × (count_lines atoll no_counts (with_memory lines) ≡ some c)
      × (total c.url_map % 2 ^ 64 ≡ c.total_bytes % 2 ^ 64)
      × (c.total_bytes % 2 ^ 64 ≡ bytes_in atoll lines % 2 ^ 64)
      × (total c.ref_map ≡ parsed_in atoll lines)
unfolding total
count_lines-totals atoll lines few =
    let table : IsTable no_entries = record {
      positive = omega arith;
      chains = length-replicate {A = List Entry} hash_size [];
    } in
    let nothing = sum-replicate hash_size in
    let (c, e, k) =
      count_lines-Counted atoll no_counts lines table table (omega (arith, nothing, few)) in
    (
      c,
      e,
      omega (arith, k.total_eq, k.urls_eq, nothing),
      omega (arith, k.total_eq),
      omega (arith, k.refs_eq, nothing),
    )
