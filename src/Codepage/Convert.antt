-- ===== src/Codepage/Convert.antt =====
-- 04_types_contd_homework-12926-ae2162/main.c: what codepage_to_utf8 writes decodes to the code
-- points of the table.
use otus_c_prog.Common.{
  ℕ, ◌+◌, ◌-◌, ◌≤◌, ◌<◌, ◌≡◌, refl, bit_and, List, [], ◌∷◌, ◌++◌, map, Option, some, ltb, false,
  if◌then◌else◌, arith, get_or, length, get_elem?-eq-get_or, ◌==◌, length-append, lt→ltb, leb,
}
use native.Mathlib.Decide.{dec_lt}
use otus_c_prog.Common.Bits.{and_high_bit, and_seven_bits}
use otus_c_prog.Codepage.{Output, emit, emit_point, convert_bytes}
use otus_c_prog.Codepage.Utf8.{
  utf8_encode, decode_one, decode-point, decode-ascii, take-encoding, len-encoding, length-encoding,
}

-- `bs` is the sequence of the encodings of the code points `us`.
pub data Decodes : List ℕ → List ℕ → Type 0 where
  end : Decodes [] []
  next :
      {bs rest : List ℕ} {u : ℕ} {us : List ℕ}
      → decode_one bs ≡ some (u, rest)
      → Decodes rest us
      → Decodes bs (u ∷ us)

-- The code point that a table gives a byte.
abbrev pub point_of : List ℕ → ℕ → ℕ
point_of table c = if ltb c 0x80 then c else get_or table (c - 0x80) 0

-- A text of bytes, none of them zero.
abbrev pub IsText : List ℕ → Type 0
IsText [] = Unit
IsText (c ∷ cs) = (0 < c) × (c < 256) × IsText cs

-- A table of 128 code points.
pub record IsTable (table : List ℕ) : Type 0 where
  pub full : length table ≡ 128
  pub points : (i : ℕ) → i < 128 → get_or table i 0 ≤ 0xffff

-- How many bytes the encodings of some code points take together.
abbrev pub width : ℕ → ℕ
width u = if leb u 0x7f then 1 else if leb u 0x7ff then 2 else if leb u 0xffff then 3 else 4

abbrev pub total_width : List ℕ → ℕ
total_width [] = 0
total_width (u ∷ us) = width u + total_width us

-- All code points are below the surrogates.
abbrev pub Plain : List ℕ → Type 0
Plain [] = Unit
Plain (u ∷ us) = (u < 0xd800) × Plain us

-- What the loop leaves for a text whose code points are `us`.
pub record Holds (us : List ℕ) (r : Option Output) : Type 0 where
  pub output : Output
  pub written : r ≡ some output
  pub counted : output.utf8_bytes ≡ length output.out
  pub sized : length output.out ≡ total_width us
  pub decodes : Plain us → Decodes output.out us

emit_point-Holds :
    (u : ℕ) {us : List ℕ} {later : Option Output}
    → u ≤ 0x10ffff
    → Holds us later
    → Holds (u ∷ us) (emit_point (some u) later)
unfolding emit_point
emit_point-Holds u h later =
    let o = later.output in
    let bytes = (utf8_encode u).out in
    rw (take-encoding u h, later.written)
      (record {
        output = record { out = bytes ++ o.out; utf8_bytes = (utf8_encode u).len + o.utf8_bytes };
        written = refl;
        counted = omega (arith, len-encoding u h, later.counted, length-append bytes o.out);
        sized = omega (arith, length-encoding u h, later.sized, length-append bytes o.out);
        decodes = λ plain. next (decode-point u o.out plain.0) (later.decodes plain.1);
      })

emit_ascii-Holds :
    (c : ℕ) {us : List ℕ} {later : Option Output}
    → c < 0x80
    → Holds us later
    → Holds (c ∷ us) (emit (c ∷ []) 1 later)
emit_ascii-Holds c h later =
    let o = later.output in
    rw later.written (record {
      output = record { out = c ∷ o.out; utf8_bytes = 1 + o.utf8_bytes };
      written = refl;
      counted = omega (arith, later.counted);
      sized = ground (arith, later.sized);
      decodes = λ plain. next (decode-ascii c o.out h) (later.decodes plain.1);
    })

module _ (table : List ℕ) (t : IsTable table) (junk : List ℕ) where
  -- One byte of the text.
  convert_step :
      (c : ℕ) (cs : List ℕ) {us : List ℕ}
      → 0 < c
      → c < 256
      → Holds us (convert_bytes table cs)
      → Holds (point_of table c ∷ us) (convert_bytes table (c ∷ cs))
  unfolding convert_bytes
  convert_step c cs pos small later =
      let not_end : (c == 0) ≡ false = ground arith in
      let high = and_high_bit c small in
      let low = and_seven_bits c small in
      elim (dec_lt c 0x80) [
        | yes below ↦
            let ascii : bit_and c 0x80 ≡ 0 = omega (arith, high) in
            rw (not_end, ascii, lt→ltb c 0x80 below) (emit_ascii-Holds c below later)
        | no above ↦
            let set : (bit_and c 0x80 == 0) ≡ false = ground (arith, high) in
            let index : bit_and 0x7f c ≡ c - 0x80 = omega (arith, low) in
            let looked_up = get_elem?-eq-get_or table (c - 0x80) 0 (omega (arith, t.full)) in
            let up : ltb c 0x80 ≡ false = ground arith in
            rw (not_end, set, index, looked_up, up)
              (emit_point-Holds (get_or table (c - 0x80) 0)
                (omega (arith, t.points (c - 0x80) (omega arith))) later)
      ]

  -- A text of non-zero bytes that ends in a zero is converted, whatever stands behind the zero: the
  -- count that is returned is the number of bytes written, and these are, where the code points of
  -- its bytes are below the surrogates, the UTF-8 encodings of those, in order and in the shortest
  -- form; a byte below 0x80 is its own code point and the table gives the others.
  pub convert_bytes-Holds :
      (cs : List ℕ)
      → IsText cs
      → Holds (map (point_of table) cs) (convert_bytes table (cs ++ 0 ∷ junk))
  unfolding convert_bytes
  convert_bytes-Holds [] h = record {
    output = record { out = []; utf8_bytes = 0 };
    written = refl;
    counted = refl;
    sized = refl;
    decodes = λ plain. end;
  }
  convert_bytes-Holds (c ∷ cs) h =
      convert_step c (cs ++ 0 ∷ junk) h.0 h.1 (convert_bytes-Holds cs h.2)
