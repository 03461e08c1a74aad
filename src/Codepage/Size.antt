-- ===== src/Codepage/Size.antt =====
-- 04_types_contd_homework-12926-ae2162/main.c: the size of the output against what convert
-- allocates for it.
use otus_c_prog.Common.{
  ℕ, ◌+◌, ◌-◌, ◌*◌, ◌≤◌, ◌<◌, ◌≡◌, List, [], ◌∷◌, ◌++◌, map, some, ltb, true, false, arith, length,
}
use native.Mathlib.Decide.{dec_lt}
use otus_c_prog.Codepage.{Output, convert_bytes, allocated}
use otus_c_prog.Codepage.Convert.{
  IsText, IsTable, point_of, width, total_width, convert_bytes-Holds,
}

-- No byte of the text stands for a character of ASCII.
abbrev pub HasNoAscii : List ℕ → List ℕ → Type 0
HasNoAscii table [] = Unit
HasNoAscii table (c ∷ cs) = (0x80 ≤ point_of table c) × HasNoAscii table cs

module _ (table : List ℕ) (t : IsTable table) where
  point-le : (c : ℕ) → c < 256 → point_of table c ≤ 0xffff
  point-le c h = elim (dec_lt c 0x80) [
    | yes below ↦ let e : ltb c 0x80 ≡ true = ground arith in rw e (omega arith)
    | no above ↦
        let e : ltb c 0x80 ≡ false = ground arith in rw e (t.points (c - 0x80) (omega arith))
  ]

  at_most_three : (cs : List ℕ) → IsText cs → total_width (map (point_of table) cs) ≤ 3 * length cs
  at_most_three [] h = omega arith
  at_most_three (c ∷ cs) h =
      let here : width (point_of table c) ≤ 3 = narrow (point_of table c) (point-le c h.1) in
      omega (arith, here, at_most_three cs h.2)
    where
      narrow : (u : ℕ) → u ≤ 0xffff → width u ≤ 3
      narrow u k = ground arith

  at_least_two :
      (cs : List ℕ) → HasNoAscii table cs → 2 * length cs ≤ total_width (map (point_of table) cs)
  at_least_two [] h = omega arith
  at_least_two (c ∷ cs) h =
      let here : 2 ≤ width (point_of table c) = wide (point_of table c) h.0 in
      omega (arith, here, at_least_two cs h.1)
    where
      wide : (u : ℕ) → 0x80 ≤ u → 2 ≤ width u
      wide u k = ground arith

  module _ (cs : List ℕ) (text : IsText cs) (junk : List ℕ) where
    -- With a table of 128 code points up to 0xffff, the conversion of a text of non-zero bytes that
    -- ends in a zero ends, and writes at most three bytes for each of them.
    pub convert_bytes-le :
        (o : Output) × (convert_bytes table (cs ++ 0 ∷ junk) ≡ some o)
        × (o.utf8_bytes ≤ 3 * length cs)
    convert_bytes-le =
        let h = convert_bytes-Holds table t junk cs text in
        (h.output, h.written, omega (arith, h.counted, h.sized, at_most_three cs text))

    -- Where no byte of a text of non-zero bytes stands for a character of ASCII, what the conversion
    -- stores, its closing zero included, is longer than the block that convert allocates for a file
    -- of that size; the table has 128 code points up to 0xffff.
    pub convert_bytes-overflows :
        HasNoAscii table cs
        → (o : Output) × (convert_bytes table (cs ++ 0 ∷ junk) ≡ some o)
          × (allocated (length cs) < o.utf8_bytes + 1)
    unfolding allocated
    convert_bytes-overflows none_ascii =
        let h = convert_bytes-Holds table t junk cs text in
        (h.output, h.written, omega (arith, h.counted, h.sized, at_least_two cs none_ascii))
