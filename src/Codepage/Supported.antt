-- ===== src/Codepage/Supported.antt =====
-- 04_types_contd_homework-12926-ae2162/main.c: the three code pages that main accepts.
use text.Mathlib.Text.{◌==◌ as str_eq}
use Prim.Native.String.{String}
use otus_c_prog.Common.{
  ℕ, ◌-◌, ◌<◌, ◌≤◌, ltb, false, arith, ◌≡◌, refl, List, [], ◌∷◌, ◌++◌, map, some, leb, get_or,
  length, leb→le, true, Bool-cases, inl, inr,
}
use native.Mathlib.Decide.{dec_lt}
use otus_c_prog.Common.Bits.{every, every_lem}
use otus_c_prog.Codepage.{Output, done, codepage_to_utf8, code_table_of, with_table, accepts_args}
use otus_c_prog.Codepage.Tables.{cp1251_to_utf8_table, koi8r_to_utf_table, iso_8859_5_to_utf_table}
use otus_c_prog.Codepage.Convert.{IsText, IsTable, Plain, Decodes, point_of, convert_bytes-Holds}

-- A table of 128 code points below the surrogates.
record PlainTable (table : List ℕ) : Type 0 where
  full : length table ≡ 128
  points : (i : ℕ) → i < 128 → get_or table i 0 ≤ 0xd7ff

as_IsTable : (table : List ℕ) → PlainTable table → IsTable table
as_IsTable table t = record { full = t.full; points = λ i h. omega (arith, t.points i h) }

points-Plain :
    (table : List ℕ)
    → PlainTable table
    → (cs : List ℕ) → IsText cs
    → Plain (map (point_of table) cs)
points-Plain table t [] h = tt
points-Plain table t (c ∷ cs) h = (point, points-Plain table t cs h.2)
  where
    point : point_of table c < 0xd800
    point = elim (dec_lt c 0x80) [
      | yes below ↦ let e : ltb c 0x80 ≡ true = ground arith in rw e (omega arith)
      | no above ↦
          let e : ltb c 0x80 ≡ false = ground arith in
          rw e (omega (arith, h.1, t.points (c - 0x80) (omega (arith, h.1))))
    ]

cp1251_points : every 128 (λ i. leb (get_or cp1251_to_utf8_table i 0) 0xd7ff) ≡ true
unfolding every cp1251_to_utf8_table
cp1251_points = refl

koi8r_points : every 128 (λ i. leb (get_or koi8r_to_utf_table i 0) 0xd7ff) ≡ true
unfolding every koi8r_to_utf_table
koi8r_points = refl

iso_points : every 128 (λ i. leb (get_or iso_8859_5_to_utf_table i 0) 0xd7ff) ≡ true
unfolding every iso_8859_5_to_utf_table
iso_points = refl

cp1251-Plain : PlainTable cp1251_to_utf8_table
unfolding cp1251_to_utf8_table
cp1251-Plain = record {
  full = refl;
  points = λ i h.
      leb→le _ 0xd7ff
        (every_lem 128 (λ i. leb (get_or cp1251_to_utf8_table i 0) 0xd7ff) i cp1251_points h);
}

koi8r-Plain : PlainTable koi8r_to_utf_table
unfolding koi8r_to_utf_table
koi8r-Plain = record {
  full = refl;
  points = λ i h.
      leb→le _ 0xd7ff
        (every_lem 128 (λ i. leb (get_or koi8r_to_utf_table i 0) 0xd7ff) i koi8r_points h);
}

iso-Plain : PlainTable iso_8859_5_to_utf_table
unfolding iso_8859_5_to_utf_table
iso-Plain = record {
  full = refl;
  points = λ i h.
      leb→le _ 0xd7ff
        (every_lem 128 (λ i. leb (get_or iso_8859_5_to_utf_table i 0) 0xd7ff) i iso_points h);
}

pub koi8r-IsTable : IsTable koi8r_to_utf_table
koi8r-IsTable = as_IsTable koi8r_to_utf_table koi8r-Plain

-- A name that main accepts has a table, and it is one of 128 code points below the surrogates.
code_table_of-Plain :
    (codepage : String)
    → accepts_args 4 codepage ≡ true
    → (table : List ℕ) × (code_table_of codepage ≡ some table) × PlainTable table
unfolding code_table_of accepts_args
code_table_of-Plain name ok = elim (Bool-cases (str_eq name "cp1251")) [
  | inl a ↦ (cp1251_to_utf8_table, rw a, cp1251-Plain)
  | inr a ↦ elim (Bool-cases (str_eq name "koi8-r")) [
    | inl b ↦ (koi8r_to_utf_table, rw (a, b), koi8r-Plain)
    | inr b ↦ elim (Bool-cases (str_eq name "iso-8859-5")) [
      | inl c ↦ (iso_8859_5_to_utf_table, rw (a, b, c), iso-Plain)
      | inr c ↦ cc (rw (a, b, c) at ok)
    ]
  ]
]

-- For a code page that main accepts and a text of non-zero bytes that ends in a zero, whatever stands
-- behind the zero, codepage_to_utf8 finds a table and converts the text: it writes the UTF-8
-- encodings, in order and in the shortest form, of the code points of its bytes, where a byte below
-- 0x80 is its own code point and the table gives the others; and it returns how many bytes it wrote.
pub codepage_to_utf8-done :
    (codepage : String)
    → accepts_args 4 codepage ≡ true
    → (cs junk : List ℕ) → IsText cs
    → (table : List ℕ) × (code_table_of codepage ≡ some table)
      × ((o : Output) × (codepage_to_utf8 (cs ++ 0 ∷ junk) codepage ≡ done o)
          × Decodes o.out (map (point_of table) cs)
          × (o.utf8_bytes ≡ length o.out))
unfolding codepage_to_utf8 with_table
codepage_to_utf8-done codepage ok cs junk text =
    let (table, found, t) = code_table_of-Plain codepage ok in
    let h = convert_bytes-Holds table (as_IsTable table t) junk cs text in
    (
      table,
      found,
      (h.output, rw (found, h.written), h.decodes (points-Plain table t cs text), h.counted),
    )
