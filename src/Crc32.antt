-- ===== src/Crc32.antt =====
-- 16_crc32/main.c: the CRC-32 of a file, mapped into memory in chunks. The bytes of the file are an
-- argument.
pub mod Table
pub mod Bitwise
pub mod Chunks
mod Tests
use otus_c_prog.Common.{
  ℕ, zero, suc, ◌+◌, ◌-◌, ◌*◌, ◌/◌, ◌%◌, ◌^◌, ◌==◌, ltb, Bool, true, false, if◌then◌else◌, List, [],
  ◌∷◌, length, get_or, take, drop, bit_xor, bit_and, Option, none, some,
}
use Table.{crc32_tab}

unfoldable pub crc_step : ℕ → ℕ → ℕ
crc_step crc p = bit_xor (get_or crc32_tab (bit_and (bit_xor crc p) 0xff) 0) (crc / 2 ^ 8)

unfoldable pub crc32_raw : List ℕ → ℕ → ℕ
crc32_raw [] crc = crc
crc32_raw (p ∷ buf) crc = crc32_raw buf (crc_step crc p)

-- `chunk_size` for a page size from sysconf, or none where it fails with -1.
unfoldable pub chunk_size_of : Option ℕ → ℕ
chunk_size_of none = 64 * 1024 * 1024 / 4096 * 4096
chunk_size_of (some page_size) =
    let rounded = 64 * 1024 * 1024 / page_size * page_size in
    if rounded == 0 then page_size else rounded

-- The result of the program: no memory map, or the printed number.
pub data Result : Type 0 where
  failed : Result
  printed : ℕ → Result

unfoldable pub chunk_len : ℕ → ℕ → ℕ → ℕ
chunk_len chunk_size filesize offset =
    if ltb chunk_size (filesize - offset) then chunk_size else filesize - offset

-- The loop over the chunks with fuel for its turns; `maps` says whether mmap and munmap succeed at
-- an offset. Running out of fuel is no result.
unfoldable pub crc_chunks : ℕ → (ℕ → Bool) → ℕ → List ℕ → ℕ → ℕ → Option Result
crc_chunks zero maps chunk_size file offset crc = none
crc_chunks (suc fuel) maps chunk_size file offset crc =
    let len = chunk_len chunk_size (length file) offset in
    let rest =
      crc_chunks fuel maps chunk_size file (offset + len)
        (crc32_raw (take len (drop offset file)) crc) in
    if ltb offset (length file)
    then if maps offset then rest else some failed
    else some (printed (bit_xor crc 0xffffffff))

unfoldable pub crc32_file : (ℕ → Bool) → Option ℕ → List ℕ → Option Result
crc32_file maps page_size file =
    crc_chunks (length file + 1) maps (chunk_size_of page_size) file 0 0xffffffff
