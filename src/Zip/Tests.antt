-- ===== src/Zip/Tests.antt =====
-- 03_types_homework-12926-ac0783/main.c: an archive of one stored file behind two other bytes.
use otus_c_prog.Common.{
  ℕ, zero, suc, ◌≡◌, refl, ◌⊎◌, List, [], ◌∷◌, ◌++◌, length, arith, ltb, ◌&&◌, Bool, true,
}
use otus_c_prog.Common.Int.{ℤ, pos}
use otus_c_prog.Zip.Bytes.{ok, no, IsBytes}
use otus_c_prog.Zip.Bytes.{read16le, read32le, byte_at, lift}
use otus_c_prog.Zip.Headers.{
  find_eocdr, eocdr_loop, eocdr_turn, eocdr_fields, read_cfh, cfh_fields, cfh_fits, read_lfh,
  lfh_fields, lfh_fits,
}
use otus_c_prog.Zip.{
  Zip, zip_read, Tm, Member, list_members, read_members, file_offset, check_members, check_member,
  check_header, check_local, acceptable, has_zero,
}
use otus_c_prog.Zip.Found.{zip_read-Safe}
use otus_c_prog.Zip.Members.{Inside}
use otus_c_prog.Zip.Listing.{list_members-zip_read}

abbrev local_header : List ℕ
local_header =
    80 ∷ 75 ∷ 3 ∷ 4 ∷ 10 ∷ 0 ∷ 0 ∷ 0 ∷ 0 ∷ 0 ∷ 0 ∷ 0 ∷ 0 ∷ 0 ∷ 7 ∷ 0 ∷ 0 ∷ 0 ∷ 1 ∷ 0 ∷ 0 ∷ 0 ∷ 1 ∷ 0
    ∷ 0 ∷ 0 ∷ 1 ∷ 0 ∷ 0 ∷ 0 ∷ 97 ∷ 66 ∷ []

abbrev central_header : List ℕ
central_header =
    80 ∷ 75 ∷ 1 ∷ 2 ∷ 10 ∷ 0 ∷ 10 ∷ 0 ∷ 0 ∷ 0 ∷ 0 ∷ 0 ∷ 0 ∷ 0 ∷ 33 ∷ 0 ∷ 7 ∷ 0 ∷ 0 ∷ 0 ∷ 1 ∷ 0 ∷ 0
    ∷ 0 ∷ 1 ∷ 0 ∷ 0 ∷ 0 ∷ 1 ∷ 0 ∷ 0 ∷ 0 ∷ 0 ∷ 0 ∷ 0 ∷ 0 ∷ 0 ∷ 0 ∷ 0 ∷ 0 ∷ 0 ∷ 0 ∷ 0 ∷ 0 ∷ 0 ∷ 0 ∷ 97
    ∷ []

abbrev end_record : List ℕ
end_record =
    80 ∷ 75 ∷ 5 ∷ 6 ∷ 0 ∷ 0 ∷ 0 ∷ 0 ∷ 1 ∷ 0 ∷ 1 ∷ 0 ∷ 47 ∷ 0 ∷ 0 ∷ 0 ∷ 32 ∷ 0 ∷ 0 ∷ 0 ∷ 0 ∷ 0 ∷ []

abbrev file : List ℕ
file = (255 ∷ 217 ∷ []) ++ local_header ++ central_header ++ end_record

all_bytes : List ℕ → Bool
all_bytes [] = true
all_bytes (b ∷ bs) = ltb b 256 && all_bytes bs

all_bytes-IsBytes : (src : List ℕ) → all_bytes src ≡ true → IsBytes src
unfolding all_bytes
all_bytes-IsBytes [] e i = omega arith
all_bytes-IsBytes (b ∷ bs) e zero = ground arith
all_bytes-IsBytes (b ∷ bs) e (suc i) = all_bytes-IsBytes bs (ground arith) i

file-IsBytes : IsBytes file
unfolding all_bytes
file-IsBytes = all_bytes-IsBytes file refl

abbrev archive : Zip
archive = record {
  num_members = 1;
  comment = 103;
  comment_len = 0;
  members_begin = 34;
  members_end = 81;
  src = file;
}

file_read : zip_read file ≡ ok (archive, 2)
unfolding zip_read find_eocdr eocdr_loop eocdr_turn eocdr_fields read_members file_offset
    check_members check_member check_header check_local acceptable has_zero read_cfh cfh_fields
    cfh_fits read_lfh lfh_fields lfh_fits read16le read32le byte_at lift
file_read = refl

-- A constant in the place of the C library's mktime.
abbrev mktime : Tm → ℤ
mktime tm = pos tm.tm_year

zip_read-Safe_example : (zip_read file ≡ no) ⊎ ((a : Zip × ℕ) × (zip_read file ≡ ok a))
zip_read-Safe_example = zip_read-Safe file file-IsBytes

list_members-zip_read_example :
    (ms : List Member) × (list_members mktime 2 archive 2 34 ≡ ok ms)
    × (length ms ≡ 1)
    × Inside 103 ms
list_members-zip_read_example =
    list_members-zip_read file file-IsBytes mktime archive 2 (omega arith) file_read
