-- ===== src/Crc32/Chunks.antt =====
-- 16_crc32/main.c: the division of the file into chunks does not show in the result.
use otus_c_prog.Common.{
  ℕ, zero, suc, ◌+◌, ◌-◌, ◌*◌, ◌/◌, ◌≤◌, ◌<◌, ◌==◌, ◌≡◌, refl, ap, ◌∙◌, ltb, Bool, true, List, [],
  ◌∷◌, length, take, drop, drop_all, drop-drop, bit_xor, arith, Bool-cases, inl, inr, Option, none,
  some,
}
use otus_c_prog.Crc32.Bitwise.{bitwise, AllBytes, crc32_raw-bitwise}
use otus_c_prog.Crc32.{
  crc32_raw, chunk_size_of, Result, failed, printed, chunk_len, crc_chunks, crc32_file,
}

-- A page size that sysconf can return.
unfoldable pub Positive : Option ℕ → Type 0
Positive none = Unit
Positive (some page_size) = 0 < page_size

chunk_size_of-pos : (page_size : Option ℕ) → Positive page_size → 0 < chunk_size_of page_size
unfolding chunk_size_of Positive
chunk_size_of-pos none h = omega arith
chunk_size_of-pos (some page_size) h =
    let rounded = 64 * 1024 * 1024 / page_size * page_size in
    elim (Bool-cases (rounded == 0)) [
      | inl e ↦ rw e h
      | inr e ↦ let pos : 0 < rounded = ground arith in rw e pos
    ]

crc32_raw-take-drop :
    (n : ℕ) (xs : List ℕ) (crc : ℕ)
    → crc32_raw (drop n xs) (crc32_raw (take n xs) crc) ≡ crc32_raw xs crc
unfolding crc32_raw
crc32_raw-take-drop zero xs crc = refl
crc32_raw-take-drop (suc n) [] crc = refl
crc32_raw-take-drop (suc n) (x ∷ xs) crc = crc32_raw-take-drop n xs _

chunk_len-pos :
    (chunk_size filesize offset : ℕ)
    → 0 < chunk_size
    → offset < filesize
    → 0 < chunk_len chunk_size filesize offset
unfolding chunk_len
chunk_len-pos chunk_size filesize offset pos more =
    elim (Bool-cases (ltb chunk_size (filesize - offset))) [
      | inl e ↦ rw e pos
      | inr e ↦ rw e (omega (arith, more))
    ]

module _ (chunk_size : ℕ) (positive : 0 < chunk_size) (file : List ℕ) where
  crc_chunks-raw :
      (fuel offset crc : ℕ)
      → length file - offset < fuel
      → crc_chunks fuel (λ _. true) chunk_size file offset crc
        ≡ some (printed (bit_xor (crc32_raw (drop offset file) crc) 0xffffffff))
  unfolding crc_chunks crc32_raw
  crc_chunks-raw zero offset crc h = absurd (omega arith)
  crc_chunks-raw (suc fuel) offset crc h = elim (Bool-cases (ltb offset (length file))) [
    | inl more ↦
        let len = chunk_len chunk_size (length file) offset in
        let inside : offset < length file = ground arith in
        let pos = chunk_len-pos chunk_size (length file) offset positive inside in
        let next = crc32_raw (take len (drop offset file)) crc in
        rw more (
          crc_chunks-raw fuel (offset + len) next (omega arith)
          ∙ ap (λ c. some (printed (bit_xor c 0xffffffff)))
              (ap (λ xs. crc32_raw xs next) (drop-drop offset len file)
                ∙ crc32_raw-take-drop len (drop offset file) crc))
    | inr over ↦
        let all : length file ≤ offset = ground arith in rw (over, drop_all offset file all)
  ]

  crc_chunks-ends :
      (maps : ℕ → Bool) (fuel offset crc : ℕ)
      → length file - offset < fuel
      → (result : Result) × (crc_chunks fuel maps chunk_size file offset crc ≡ some result)
  unfolding crc_chunks
  crc_chunks-ends maps zero offset crc h = absurd (omega arith)
  crc_chunks-ends maps (suc fuel) offset crc h = elim (Bool-cases (ltb offset (length file))) [
    | inl more ↦
        let len = chunk_len chunk_size (length file) offset in
        let inside : offset < length file = ground arith in
        let pos = chunk_len-pos chunk_size (length file) offset positive inside in
        let next = crc32_raw (take len (drop offset file)) crc in
        elim (Bool-cases (maps offset)) [
          | inl mapped ↦
              rw (more, mapped) (crc_chunks-ends maps fuel (offset + len) next (omega arith))
          | inr refused ↦ (failed, rw (more, refused))
        ]
    | inr over ↦ (printed (bit_xor crc 0xffffffff), rw over)
  ]

-- Where every chunk can be mapped and a page is not empty, the program ends and prints the CRC-32
-- of all the bytes of the file: that of the register started with ones and inverted at the end.
pub crc32_file-bitwise :
    (page_size : Option ℕ) (file : List ℕ)
    → Positive page_size
    → AllBytes file
    → crc32_file (λ _. true) page_size file
      ≡ some (printed (bit_xor (bitwise file 0xffffffff) 0xffffffff))
unfolding crc32_file
crc32_file-bitwise page_size file h bytes =
    crc_chunks-raw (chunk_size_of page_size) (chunk_size_of-pos page_size h) file (length file + 1)
      0 0xffffffff (omega arith)
    ∙ ap (λ c. some (printed (bit_xor c 0xffffffff))) (crc32_raw-bitwise file 0xffffffff bytes)

-- Whichever chunks cannot be mapped, the program ends with a result, for any size of a
-- page above zero.
pub crc32_file_ends :
    (maps : ℕ → Bool) (page_size : Option ℕ) (file : List ℕ)
    → Positive page_size
    → (result : Result) × (crc32_file maps page_size file ≡ some result)
unfolding crc32_file
crc32_file_ends maps page_size file h =
    crc_chunks-ends (chunk_size_of page_size) (chunk_size_of-pos page_size h) file maps
      (length file + 1) 0 0xffffffff (omega arith)
