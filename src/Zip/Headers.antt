-- ===== src/Zip/Headers.antt =====
-- 03_types_homework-12926-ac0783/main.c: the headers of a ZIP archive and the functions that read
-- them. A pointer into `src` is its index.
use otus_c_prog.Common.{
  ℕ, zero, suc, ◌+◌, ◌-◌, ◌%◌, ◌^◌, ◌==◌, ltb, ◌||◌, not, if◌then◌else◌, List, length, add_size,
  sub_size,
}
use otus_c_prog.Zip.Bytes.{Outcome, ok, no, ◌>>=◌, read16le, read32le}

-- End of Central Directory Record.
pub record Eocdr : Type 0 where
  pub disk_nbr : ℕ
  pub cd_start_disk : ℕ
  pub disk_cd_entries : ℕ
  pub cd_entries : ℕ
  pub cd_size : ℕ
  pub cd_offset : ℕ
  pub comment_len : ℕ
  pub comment : ℕ

abbrev pub eocdr_base_sz : ℕ
eocdr_base_sz = 22

abbrev pub eocdr_signature : ℕ
eocdr_signature = 0x06054b50

-- Central File Header.
pub record Cfh : Type 0 where
  pub made_by_ver : ℕ
  pub extract_ver : ℕ
  pub gp_flag : ℕ
  pub method : ℕ
  pub mod_time : ℕ
  pub mod_date : ℕ
  pub crc32 : ℕ
  pub comp_size : ℕ
  pub uncomp_size : ℕ
  pub name_len : ℕ
  pub extra_len : ℕ
  pub comment_len : ℕ
  pub disk_nbr_start : ℕ
  pub int_attrs : ℕ
  pub ext_attrs : ℕ
  pub lfh_offset : ℕ
  pub name : ℕ
  pub extra : ℕ
  pub comment : ℕ

abbrev pub cfh_base_sz : ℕ
cfh_base_sz = 46

abbrev pub cfh_signature : ℕ
cfh_signature = 0x02014b50

-- Local File Header.
pub record Lfh : Type 0 where
  pub extract_ver : ℕ
  pub gp_flag : ℕ
  pub method : ℕ
  pub mod_time : ℕ
  pub mod_date : ℕ
  pub crc32 : ℕ
  pub comp_size : ℕ
  pub uncomp_size : ℕ
  pub name_len : ℕ
  pub extra_len : ℕ
  pub name : ℕ
  pub extra : ℕ

abbrev pub lfh_base_sz : ℕ
lfh_base_sz = 30

abbrev pub lfh_signature : ℕ
lfh_signature = 0x04034b50

-- The fields from `p` on, and whether what they announce behind them is inside the file.
unfoldable pub cfh_fields : List ℕ → ℕ → ℕ → Outcome Cfh
cfh_fields src p zip_file_offset = do
  made_by_ver ← read16le src (p + 4)
  extract_ver ← read16le src (p + 6)
  gp_flag ← read16le src (p + 8)
  method ← read16le src (p + 10)
  mod_time ← read16le src (p + 12)
  mod_date ← read16le src (p + 14)
  crc32 ← read32le src (p + 16)
  comp_size ← read32le src (p + 20)
  uncomp_size ← read32le src (p + 24)
  name_len ← read16le src (p + 28)
  extra_len ← read16le src (p + 30)
  comment_len ← read16le src (p + 32)
  disk_nbr_start ← read16le src (p + 34)
  int_attrs ← read16le src (p + 36)
  ext_attrs ← read32le src (p + 38)
  lfh_offset ← read32le src (p + 42)
  ok (record {
    made_by_ver = made_by_ver;
    extract_ver = extract_ver;
    gp_flag = gp_flag;
    method = method;
    mod_time = mod_time;
    mod_date = mod_date;
    crc32 = crc32;
    comp_size = comp_size;
    uncomp_size = uncomp_size;
    name_len = name_len;
    extra_len = extra_len;
    comment_len = comment_len;
    disk_nbr_start = disk_nbr_start;
    int_attrs = int_attrs;
    ext_attrs = ext_attrs;
    lfh_offset = add_size lfh_offset zip_file_offset % 2 ^ 32;
    name = p + 46;
    extra = p + 46 + name_len;
    comment = p + 46 + name_len + extra_len;
  })

unfoldable pub cfh_fits : ℕ → ℕ → Cfh → Outcome Cfh
cfh_fits src_len offset cfh =
    if ltb (src_len - offset - cfh_base_sz) (cfh.name_len + cfh.extra_len + cfh.comment_len)
    then no
    else ok cfh

unfoldable pub read_cfh : List ℕ → ℕ → ℕ → Outcome Cfh
read_cfh src offset zip_file_offset =
    if ltb (length src) offset || ltb (length src - offset) cfh_base_sz then no else do
      signature ← read32le src offset
      if not (signature == cfh_signature)
          then no
          else cfh_fields src offset zip_file_offset >>= cfh_fits (length src) offset

unfoldable pub lfh_fields : List ℕ → ℕ → Outcome Lfh
lfh_fields src p = do
  extract_ver ← read16le src (p + 4)
  gp_flag ← read16le src (p + 6)
  method ← read16le src (p + 8)
  mod_time ← read16le src (p + 10)
  mod_date ← read16le src (p + 12)
  crc32 ← read32le src (p + 14)
  comp_size ← read32le src (p + 18)
  uncomp_size ← read32le src (p + 22)
  name_len ← read16le src (p + 26)
  extra_len ← read16le src (p + 28)
  ok (record {
    extract_ver = extract_ver;
    gp_flag = gp_flag;
    method = method;
    mod_time = mod_time;
    mod_date = mod_date;
    crc32 = crc32;
    comp_size = comp_size;
    uncomp_size = uncomp_size;
    name_len = name_len;
    extra_len = extra_len;
    name = p + 30;
    extra = p + 30 + name_len;
  })

unfoldable pub lfh_fits : ℕ → ℕ → Lfh → Outcome Lfh
lfh_fits src_len offset lfh =
    if ltb (src_len - offset - lfh_base_sz) (lfh.name_len + lfh.extra_len) then no else ok lfh

unfoldable pub read_lfh : List ℕ → ℕ → Outcome Lfh
read_lfh src offset =
    if ltb (length src) offset || ltb (length src - offset) lfh_base_sz then no else do
      signature ← read32le src offset
      if not (signature == lfh_signature)
          then no
          else lfh_fields src offset >>= lfh_fits (length src) offset

-- The record at `p`, with the offset that is written there and the one that is computed.
unfoldable pub eocdr_fields : List ℕ → ℕ → ℕ → Outcome (Eocdr × ℕ)
eocdr_fields src p comment_len = do
  disk_nbr ← read16le src (p + 4)
  cd_start_disk ← read16le src (p + 6)
  disk_cd_entries ← read16le src (p + 8)
  cd_entries ← read16le src (p + 10)
  cd_size ← read32le src (p + 12)
  cd_offset ← read32le src (p + 16)
  written_len ← read16le src (p + 20)
  ok (
    record {
      disk_nbr = disk_nbr;
      cd_start_disk = cd_start_disk;
      disk_cd_entries = disk_cd_entries;
      cd_entries = cd_entries;
      cd_size = cd_size;
      cd_offset =
          sub_size (sub_size (sub_size (length src) cd_size) eocdr_base_sz) comment_len % 2 ^ 32;
      comment_len = written_len;
      comment = p + 22;
    },
    cd_offset,
  )

-- One turn of the loop of find_eocdr: `rest` is the turns for longer comments.
unfoldable pub eocdr_turn : List ℕ → ℕ → Outcome (Eocdr × ℕ) → Outcome (Eocdr × ℕ)
eocdr_turn src comment_len rest =
    let p = length src - eocdr_base_sz - comment_len in
    if ltb (length src) (eocdr_base_sz + comment_len) then no else do
      signature ← read32le src p
      if not (signature == eocdr_signature) then rest else do
        found ← eocdr_fields src p comment_len
        if found.0.comment_len == comment_len then ok found else rest

-- The loop over the lengths of the comment, with the turns that are left.
unfoldable pub eocdr_loop : List ℕ → ℕ → ℕ → Outcome (Eocdr × ℕ)
eocdr_loop src zero comment_len = no
eocdr_loop src (suc turns) comment_len =
    let rest = eocdr_loop src turns (comment_len + 1) in eocdr_turn src comment_len rest

unfoldable pub find_eocdr : List ℕ → Outcome (Eocdr × ℕ)
find_eocdr src = eocdr_loop src 65536 0
