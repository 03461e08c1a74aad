-- ===== src/Codepage.antt =====
-- 04_types_contd_homework-12926-ae2162/main.c: conversion of a text in one of three code pages to
-- UTF-8. The file's bytes are an argument, as read_file returns them.
pub mod Tables
pub mod Utf8
pub mod Convert
pub mod Size
pub mod Supported
mod Tests
use text.Mathlib.Text.{◌==◌ as str_eq}
use Prim.Native.String.{String}
use otus_c_prog.Common.{
  ℕ, ◌+◌, ◌*◌, ◌≡◌, Bool, true, false, ◌||◌, ◌&&◌, Option, none, some, List, [], ◌∷◌, ◌++◌, ◌==◌,
  if◌then◌else◌, bit_and, get_elem?, take, length,
}
use Tables.{cp1251_to_utf8_table, koi8r_to_utf_table, iso_8859_5_to_utf_table}
use Utf8.{utf8_encode}

-- What the loop has written to `out`, and its count of bytes.
pub record Output : Type 0 where
  pub out : List ℕ
  pub utf8_bytes : ℕ

-- One turn of the loop: `bytes` go in front of what the later turns write.
abbrev pub emit : List ℕ → ℕ → Option Output → Option Output
emit bytes n none = none
emit bytes n (some o) = some (record { out = bytes ++ o.out; utf8_bytes = n + o.utf8_bytes })

-- The turn for a byte above 0x7f, whose code point is looked up; `none` is a read past the table.
pub emit_point : Option ℕ → Option Output → Option Output
emit_point none later = none
emit_point (some codepoint) later =
    let e = utf8_encode codepoint in emit (take e.len e.out) e.len later

-- The loop of codepage_to_utf8 over the bytes of `in`; `none` where it reads past their end.
pub convert_bytes : List ℕ → List ℕ → Option Output
convert_bytes code_table [] = none
convert_bytes code_table (c ∷ rest) =
    let later = convert_bytes code_table rest in
    if c == 0
    then some (record { out = []; utf8_bytes = 0 })
    else if bit_and c 0x80 == 0
    then emit (c ∷ []) 1 later
    else emit_point (get_elem? code_table (bit_and 0x7f c)) later

-- The choice of the table; `none` is the exit for any other name.
pub code_table_of : String → Option (List ℕ)
code_table_of codepage =
    if str_eq codepage "cp1251"
    then some cp1251_to_utf8_table
    else if str_eq codepage "koi8-r"
    then some koi8r_to_utf_table
    else if str_eq codepage "iso-8859-5"
    then some iso_8859_5_to_utf_table
    else none

pub data Converted : Type 0 where
  unsupported : Converted
  overread : Converted
  done : Output → Converted

abbrev pub finish : Option Output → Converted
finish none = overread
finish (some o) = done o

pub with_table : Option (List ℕ) → List ℕ → Converted
with_table none input = unsupported
with_table (some t) input = finish (convert_bytes t input)

pub codepage_to_utf8 : List ℕ → String → Converted
codepage_to_utf8 input codepage = with_table (code_table_of codepage) input

-- The size that convert allocates for the output of `n` bytes of input.
pub allocated : ℕ → ℕ
allocated input_file_size = input_file_size * 2

-- The test of the arguments in main; true where convert is called.
pub accepts_args : ℕ → String → Bool
accepts_args argc codepage =
    argc == 4
    && (str_eq codepage "cp1251" || str_eq codepage "koi8-r" || str_eq codepage "iso-8859-5")
