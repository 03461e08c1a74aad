-- ===== src/Zip/Safe.antt =====
-- 03_types_homework-12926-ac0783/main.c: the header readers stay inside the file, and what they accept
-- lies inside it.
use otus_c_prog.Common.{
  ℕ, ◌+◌, ◌-◌, ◌%◌, ◌^◌, ◌≤◌, ◌≡◌, refl, ◌⊎◌, inl, inr, ltb, ◌||◌, not, ◌==◌, List, length, arith,
  Bool-cases, add_size,
}
use otus_c_prog.Zip.Bytes.{ok, no, IsBytes, word16, word32, read16le-word16, read32le-word32}
use otus_c_prog.Zip.Headers.{
  Cfh, Lfh, cfh_fields, cfh_fits, read_cfh, lfh_fields, lfh_fits, read_lfh, cfh_base_sz,
  lfh_base_sz, cfh_signature, lfh_signature,
}

-- A central header at `offset` and all that it announces behind it lie inside the file.
pub record CfhInside (src_len offset : ℕ) (cfh : Cfh) : Type 0 where
  pub name_at : cfh.name ≡ offset + 46
  pub fits : offset + 46 + (cfh.name_len + cfh.extra_len + cfh.comment_len) ≤ src_len

-- A local header, with its name and its extra field.
pub record LfhInside (src_len : ℕ) (lfh : Lfh) : Type 0 where
  pub fits : lfh.extra + lfh.extra_len ≤ src_len

abbrev cfh_at : List ℕ → ℕ → ℕ → Cfh
cfh_at src p zip_file_offset = record {
  made_by_ver = word16 src (p + 4);
  extract_ver = word16 src (p + 6);
  gp_flag = word16 src (p + 8);
  method = word16 src (p + 10);
  mod_time = word16 src (p + 12);
  mod_date = word16 src (p + 14);
  crc32 = word32 src (p + 16);
  comp_size = word32 src (p + 20);
  uncomp_size = word32 src (p + 24);
  name_len = word16 src (p + 28);
  extra_len = word16 src (p + 30);
  comment_len = word16 src (p + 32);
  disk_nbr_start = word16 src (p + 34);
  int_attrs = word16 src (p + 36);
  ext_attrs = word32 src (p + 38);
  lfh_offset = add_size (word32 src (p + 42)) zip_file_offset % 2 ^ 32;
  name = p + 46;
  extra = p + 46 + word16 src (p + 28);
  comment = p + 46 + word16 src (p + 28) + word16 src (p + 30);
}

abbrev lfh_at : List ℕ → ℕ → Lfh
lfh_at src p = record {
  extract_ver = word16 src (p + 4);
  gp_flag = word16 src (p + 6);
  method = word16 src (p + 8);
  mod_time = word16 src (p + 10);
  mod_date = word16 src (p + 12);
  crc32 = word32 src (p + 14);
  comp_size = word32 src (p + 18);
  uncomp_size = word32 src (p + 22);
  name_len = word16 src (p + 26);
  extra_len = word16 src (p + 28);
  name = p + 30;
  extra = p + 30 + word16 src (p + 26);
}

module _ (src : List ℕ) (bytes : IsBytes src) where
  cfh_fields-eq :
      (p zip_file_offset : ℕ)
      → p + 46 ≤ length src
      → cfh_fields src p zip_file_offset ≡ ok (cfh_at src p zip_file_offset)
  unfolding cfh_fields
  cfh_fields-eq p zip_file_offset h = rw (
    read16le-word16 src bytes (p + 4) (omega arith),
    read16le-word16 src bytes (p + 6) (omega arith),
    read16le-word16 src bytes (p + 8) (omega arith),
    read16le-word16 src bytes (p + 10) (omega arith),
    read16le-word16 src bytes (p + 12) (omega arith),
    read16le-word16 src bytes (p + 14) (omega arith),
    read32le-word32 src bytes (p + 16) (omega arith),
    read32le-word32 src bytes (p + 20) (omega arith),
    read32le-word32 src bytes (p + 24) (omega arith),
    read16le-word16 src bytes (p + 28) (omega arith),
    read16le-word16 src bytes (p + 30) (omega arith),
    read16le-word16 src bytes (p + 32) (omega arith),
    read16le-word16 src bytes (p + 34) (omega arith),
    read16le-word16 src bytes (p + 36) (omega arith),
    read32le-word32 src bytes (p + 38) (omega arith),
    read32le-word32 src bytes (p + 42) (omega arith),
  )

  lfh_fields-eq : (p : ℕ) → p + 30 ≤ length src → lfh_fields src p ≡ ok (lfh_at src p)
  unfolding lfh_fields
  lfh_fields-eq p h = rw (
    read16le-word16 src bytes (p + 4) (omega arith),
    read16le-word16 src bytes (p + 6) (omega arith),
    read16le-word16 src bytes (p + 8) (omega arith),
    read16le-word16 src bytes (p + 10) (omega arith),
    read16le-word16 src bytes (p + 12) (omega arith),
    read32le-word32 src bytes (p + 14) (omega arith),
    read32le-word32 src bytes (p + 18) (omega arith),
    read32le-word32 src bytes (p + 22) (omega arith),
    read16le-word16 src bytes (p + 26) (omega arith),
    read16le-word16 src bytes (p + 28) (omega arith),
  )

  -- The result of read_cfh: nothing that is there, or a header inside the file.
  pub read_cfh-cases :
      (offset zip_file_offset : ℕ)
      → (read_cfh src offset zip_file_offset ≡ no)
        ⊎ ((cfh : Cfh) × (read_cfh src offset zip_file_offset ≡ ok cfh)
            × CfhInside (length src) offset cfh)
  unfolding read_cfh cfh_fits
  read_cfh-cases offset z =
      elim (Bool-cases (ltb (length src) offset || ltb (length src - offset) cfh_base_sz)) [
        | inl outside ↦ inl (rw outside)
        | inr inside ↦
            let room : offset + 46 ≤ length src = ground arith in
            let sig = read32le-word32 src bytes offset (omega arith) in
            elim (Bool-cases (not (word32 src offset == cfh_signature))) [
              | inl other ↦ inl (rw (inside, sig, other))
              | inr same ↦
                  let cfh = cfh_at src offset z in
                  let read = cfh_fields-eq offset z room in
                  let behind = cfh.name_len + cfh.extra_len + cfh.comment_len in
                  elim (Bool-cases (ltb (length src - offset - cfh_base_sz) behind)) [
                    | inl long ↦ inl (rw (inside, sig, same, read, long))
                    | inr fits ↦ inr (
                      cfh,
                      rw (inside, sig, same, read, fits),
                      record { name_at = refl; fits = ground (arith, room, fits) },
                    )
                  ]
            ]
      ]

  pub read_lfh-cases :
      (offset : ℕ)
      → (read_lfh src offset ≡ no)
        ⊎ ((lfh : Lfh) × (read_lfh src offset ≡ ok lfh) × LfhInside (length src) lfh)
  unfolding read_lfh lfh_fits
  read_lfh-cases offset =
      elim (Bool-cases (ltb (length src) offset || ltb (length src - offset) lfh_base_sz)) [
        | inl outside ↦ inl (rw outside)
        | inr inside ↦
            let room : offset + 30 ≤ length src = ground arith in
            let sig = read32le-word32 src bytes offset (omega arith) in
            elim (Bool-cases (not (word32 src offset == lfh_signature))) [
              | inl other ↦ inl (rw (inside, sig, other))
              | inr same ↦
                  let lfh = lfh_at src offset in
                  let read = lfh_fields-eq offset room in
                  let behind = lfh.name_len + lfh.extra_len in
                  elim (Bool-cases (ltb (length src - offset - lfh_base_sz) behind)) [
                    | inl long ↦ inl (rw (inside, sig, same, read, long))
                    | inr fits ↦ inr (
                      lfh,
                      rw (inside, sig, same, read, fits),
                      record { fits = ground (arith, room, fits) },
                    )
                  ]
            ]
      ]
