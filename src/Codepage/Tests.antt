-- ===== src/Codepage/Tests.antt =====
-- 04_types_contd_homework-12926-ae2162/main.c: runs of the model, and its theorems at Russian words.
use otus_c_prog.Common.{
  ℕ, ◌+◌, ◌<◌, ◌≡◌, refl, List, [], ◌∷◌, ◌++◌, map, some, arith, get_or, length,
}
use otus_c_prog.Codepage.{
  Output, emit_point, convert_bytes, allocated, codepage_to_utf8, code_table_of, with_table,
  Converted, accepts_args,
}
use otus_c_prog.Codepage.Tables.{cp1251_to_utf8_table, koi8r_to_utf_table}
use otus_c_prog.Codepage.Utf8.{utf8_encode, decode_one, decode-utf8_encode}
use otus_c_prog.Codepage.Convert.{Decodes, point_of}
use otus_c_prog.Codepage.Supported.{koi8r-IsTable, codepage_to_utf8-done}
use otus_c_prog.Codepage.Size.{convert_bytes-overflows}

-- Two Russian letters in KOI8-R.
abbrev word : List ℕ
word = 0xc1 ∷ 0xc2 ∷ []

converts :
    codepage_to_utf8 (word ++ 0x21 ∷ 0 ∷ []) "koi8-r"
    ≡ Converted.done (record { out = 0xd0 ∷ 0xb0 ∷ 0xd0 ∷ 0xb1 ∷ 0x21 ∷ []; utf8_bytes = 5 })
unfolding codepage_to_utf8 code_table_of with_table convert_bytes emit_point utf8_encode
    koi8r_to_utf_table
converts = refl

-- 0x82 of CP1251 is U+201A, and the table has another code point.
cp1251_low_quote : get_or cp1251_to_utf8_table 2 0 ≡ 0x20a1
unfolding cp1251_to_utf8_table
cp1251_low_quote = refl

decode-utf8_encode_example : decode_one ((utf8_encode 0x44f).out ++ 7 ∷ []) ≡ some (0x44f, 7 ∷ [])
decode-utf8_encode_example = decode-utf8_encode 0x44f (7 ∷ []) (omega arith)

codepage_to_utf8-done_example :
    (table : List ℕ) × (code_table_of "koi8-r" ≡ some table)
    × ((o : Output) × (codepage_to_utf8 (word ++ 0 ∷ 5 ∷ []) "koi8-r" ≡ Converted.done o)
        × Decodes o.out (map (point_of table) word)
        × (o.utf8_bytes ≡ length o.out))
unfolding accepts_args
codepage_to_utf8-done_example = codepage_to_utf8-done "koi8-r" refl word (5 ∷ []) (omega arith)

convert_bytes-overflows_example :
    (o : Output) × (convert_bytes koi8r_to_utf_table (word ++ 0 ∷ []) ≡ some o)
    × (allocated 2 < o.utf8_bytes + 1)
unfolding koi8r_to_utf_table
convert_bytes-overflows_example =
    convert_bytes-overflows koi8r_to_utf_table koi8r-IsTable word (omega arith) [] (omega arith)
