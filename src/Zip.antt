-- ===== src/Zip.antt =====
-- 03_types_homework-12926-ac0783/main.c: listing a ZIP archive that may stand behind other data, such
-- as a JPEG image. The bytes of the file are an argument, as read_file returns them.
pub mod Bytes
pub mod Headers
pub mod Safe
pub mod Loop
pub mod Found
pub mod Members
pub mod Listing
mod Tests
use otus_c_prog.Common.{
  ℕ, zero, suc, ◌+◌, ◌-◌, ◌*◌, ◌/◌, ◌%◌, ◌^◌, ◌==◌, ltb, leb, ◌||◌, ◌&&◌, not, Bool, true, false,
  if◌then◌else◌, List, [], ◌∷◌, length, add_size, sub_size, bit_and, get_or,
}
use otus_c_prog.Common.Int.{ℤ, negsuc, sub_ℕ}
use Bytes.{byte_at, Outcome, ok, no, fault, ◌>>=◌, ◌>>◌}
use Headers.{Eocdr, Cfh, Lfh, find_eocdr, read_cfh, read_lfh, eocdr_base_sz, cfh_base_sz}

pub record Zip : Type 0 where
  pub num_members : ℕ
  pub comment : ℕ
  pub comment_len : ℕ
  pub members_begin : ℕ
  pub members_end : ℕ
  pub src : List ℕ

-- `method_t`
abbrev pub zip_stored : ℕ
zip_stored = 0

abbrev pub zip_deflated : ℕ
zip_deflated = 8

-- memchr(p, '\0', n) is not null.
pub has_zero : List ℕ → ℕ → ℕ → Outcome Bool
has_zero src p zero = ok false
has_zero src p (suc n) =
    let rest = has_zero src (p + 1) n in byte_at src p >>= λ b. if b == 0 then ok true else rest

-- The checks of one member on the fields of its central header, in the order of zip_read.
pub acceptable : Cfh → Bool
acceptable cfh =
    (bit_and cfh.gp_flag 1 == 0)
    && ((cfh.method == zip_stored) || (cfh.method == zip_deflated))
    && not ((cfh.method == zip_stored) && not (cfh.uncomp_size == cfh.comp_size))
    && (cfh.disk_nbr_start == 0)

-- Where the member after `offset` stands.
abbrev pub next_offset : ℕ → Cfh → ℕ
next_offset offset cfh =
    add_size offset (cfh_base_sz + cfh.name_len + cfh.extra_len + cfh.comment_len)

-- The last check, that the local header and the data of the member are inside the file.
pub check_local : List ℕ → ℕ → Cfh → Outcome ℕ
check_local src offset cfh = do
  lfh ← read_lfh src cfh.lfh_offset
  if ltb (length src - (lfh.extra + lfh.extra_len)) cfh.comp_size
      then no
      else ok (next_offset offset cfh)

pub check_header : List ℕ → ℕ → Cfh → Outcome ℕ
check_header src offset cfh = if not (acceptable cfh) then no else do
  zero_byte ← has_zero src cfh.name cfh.name_len
  if zero_byte then no else check_local src offset cfh

-- The body of the loop of zip_read: the offset of the next member.
pub check_member : List ℕ → ℕ → ℕ → Outcome ℕ
check_member src zip_file_offset offset =
    read_cfh src offset zip_file_offset >>= check_header src offset

pub check_members : List ℕ → ℕ → ℕ → ℕ → Outcome ℕ
check_members src zip_file_offset zero offset = ok offset
check_members src zip_file_offset (suc n) offset =
    check_member src zip_file_offset offset >>= check_members src zip_file_offset n

-- Where the archive begins in the file.
pub file_offset : ℕ → Eocdr → ℕ → ℕ
file_offset src_len eocdr cd_offset =
    sub_size src_len
      (add_size (add_size (add_size cd_offset eocdr.cd_size) eocdr_base_sz) eocdr.comment_len)

-- zip_read from the found record on: the archive and `*zip_file_offset`.
pub read_members : List ℕ → Eocdr → ℕ → Outcome (Zip × ℕ)
read_members src eocdr cd_offset =
    let zip_file_offset = file_offset (length src) eocdr cd_offset in
    if not (eocdr.disk_nbr == 0)
      || not (eocdr.cd_start_disk == 0)
      || not (eocdr.disk_cd_entries == eocdr.cd_entries)
    then no
    else do
      end ← check_members src zip_file_offset eocdr.cd_entries eocdr.cd_offset
      ok (
        record {
          num_members = eocdr.cd_entries;
          comment = eocdr.comment;
          comment_len = eocdr.comment_len;
          members_begin = eocdr.cd_offset;
          members_end = end;
          src = src;
        },
        zip_file_offset,
      )

pub zip_read : List ℕ → Outcome (Zip × ℕ)
zip_read src = do found ← find_eocdr src; read_members src found.0 found.1

-- The `struct tm` that dos2ctime hands to mktime.
pub record Tm : Type 0 where
  pub tm_sec : ℕ
  pub tm_min : ℕ
  pub tm_hour : ℕ
  pub tm_mday : ℕ
  pub tm_mon : ℤ
  pub tm_year : ℕ
  pub tm_isdst : ℤ

pub dos_tm : ℕ → ℕ → Tm
dos_tm dos_date dos_time = record {
  tm_sec = bit_and dos_time 0x1f * 2;
  tm_min = bit_and (dos_time / 2 ^ 5) 0x3f;
  tm_hour = dos_time / 2 ^ 11;
  tm_mday = bit_and dos_date 0x1f;
  tm_mon = sub_ℕ (bit_and (dos_date / 2 ^ 5) 0xf) 1;
  tm_year = dos_date / 2 ^ 9 + 80;
  tm_isdst = negsuc 0;
}

pub record Member : Type 0 where
  pub name : ℕ
  pub name_len : ℕ
  pub mtime : ℤ
  pub comp_size : ℕ
  pub comp_data : ℕ
  pub method : ℕ
  pub uncomp_size : ℕ
  pub crc32 : ℕ
  pub comment : ℕ
  pub comment_len : ℕ
  pub is_dir : Bool
  pub next : ℕ

-- A header that was there when the archive was read must be there again.
abbrev pub assert_read {ℓ} : {A : Type ℓ} → Outcome A → Outcome A
assert_read (ok a) = ok a
assert_read no = fault
assert_read fault = fault

abbrev pub assert : Bool → Outcome (Unit {0})
assert true = ok tt
assert false = fault

-- `mktime` is the C library's.
module _ (mktime : Tm → ℤ) where
  pub member_of : ℕ → Cfh → Lfh → Member
  member_of it cfh lfh = record {
    name = cfh.name;
    name_len = cfh.name_len;
    mtime = mktime (dos_tm cfh.mod_date cfh.mod_time);
    comp_size = cfh.comp_size;
    comp_data = lfh.extra + lfh.extra_len;
    method = cfh.method;
    uncomp_size = cfh.uncomp_size;
    crc32 = cfh.crc32;
    comment = cfh.comment;
    comment_len = cfh.comment_len;
    is_dir = not (bit_and cfh.ext_attrs (2 ^ 4) == 0);
    next = next_offset it cfh;
  }

  pub zip_member : Zip → ℕ → ℕ → Outcome Member
  zip_member zip it zip_file_offset = do
    assert (leb zip.members_begin it && ltb it zip.members_end)
    cfh ← assert_read (read_cfh zip.src it zip_file_offset)
    lfh ← assert_read (read_lfh zip.src cfh.lfh_offset)
    let m = member_of it cfh lfh
    assert (leb m.next zip.members_end)
    ok m

  -- The loop of list_zip with fuel for its turns: the members that it prints. Running out of fuel is
  -- no result.
  pub list_members : ℕ → Zip → ℕ → ℕ → Outcome (List Member)
  list_members zero zip zip_file_offset it = no
  list_members (suc fuel) zip zip_file_offset it =
      let later = λ (m : Member). list_members fuel zip zip_file_offset m.next in
      if it == zip.members_end
      then ok []
      else do m ← zip_member zip it zip_file_offset; ms ← later m; ok (m ∷ ms)
