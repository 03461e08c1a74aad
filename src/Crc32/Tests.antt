-- ===== src/Crc32/Tests.antt =====
-- 16_crc32/main.c: the check value of CRC-32 and other examples.
use otus_c_prog.Common.{ℕ, ◌≡◌, refl, arith, true, List, [], ◌∷◌, Option, some, bit_xor}
use otus_c_prog.Common.Text.{codes}
use otus_c_prog.Crc32.Bitwise.{bitwise, AllBytes}
use otus_c_prog.Crc32.Chunks.{Positive, crc32_file-bitwise}
use otus_c_prog.Crc32.{
  printed, crc_step, crc32_raw, chunk_len, chunk_size_of, crc_chunks, crc32_file,
}

abbrev bytes : List ℕ
bytes = 49 ∷ 255 ∷ []

bytes-AllBytes : AllBytes bytes
unfolding AllBytes
bytes-AllBytes = (omega arith, (omega arith, tt))

abbrev page : Option ℕ
page = some 4096

page-Positive : Positive page
unfolding Positive
page-Positive = omega arith

check_value : crc32_file (λ _. true) page (codes "123456789") ≡ some (printed 0xcbf43926)
unfolding crc32_file crc_chunks chunk_len chunk_size_of crc32_raw crc_step
check_value = refl

crc32_file-bitwise_example :
    crc32_file (λ _. true) page bytes
    ≡ some (printed (bit_xor (bitwise bytes 0xffffffff) 0xffffffff))
crc32_file-bitwise_example = crc32_file-bitwise page bytes page-Positive bytes-AllBytes
