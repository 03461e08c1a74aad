-- ===== src/Zip/Listing.antt =====
-- 03_types_homework-12926-ac0783/main.c: zip_read and then list_zip, as main calls them.
use otus_c_prog.Common.{
  ℕ, suc, ◌^◌, ◌<◌, ◌≤◌, arith, ◌==◌, ◌≡◌, refl, sym, inl, inr, ◌||◌, not, List, length, Bool-cases,
}
use mathlib.Core.Path.{subst}
use otus_c_prog.Common.Int.{ℤ}
use otus_c_prog.Zip.Bytes.{ok, IsBytes}
use otus_c_prog.Zip.Headers.{Eocdr}
use otus_c_prog.Zip.Loop.{check_members-cases}
use otus_c_prog.Zip.Found.{find_eocdr-Safe}
use otus_c_prog.Zip.Members.{Inside, ok_inj, no_ne_ok, members_listed}
use otus_c_prog.Zip.{
  Zip, check_members, file_offset, read_members, zip_read, Tm, Member, list_members,
}

-- The loop of zip_read has gone over the members of the archive.
Checked : List ℕ → Zip × ℕ → Type 0
Checked src (zip, z) =
    (zip.src ≡ src)
    × (check_members zip.src z zip.num_members zip.members_begin ≡ ok zip.members_end)

module _ (src : List ℕ) (bytes : IsBytes src) where
  read_members-Checked :
      (eocdr : Eocdr) (cd_offset : ℕ) (read : Zip × ℕ)
      → read_members src eocdr cd_offset ≡ ok read
      → Checked src read
  unfolding read_members Checked
  read_members-Checked eocdr cd_offset read e =
      let z = file_offset (length src) eocdr cd_offset in
      elim (Bool-cases (
        not (eocdr.disk_nbr == 0)
        || not (eocdr.cd_start_disk == 0)
        || not (eocdr.disk_cd_entries == eocdr.cd_entries))) [
          | inl split ↦ absurd (no_ne_ok (rw split at e))
          | inr whole ↦ elim (check_members-cases src bytes z eocdr.cd_entries eocdr.cd_offset) [
            | inl f ↦ absurd (no_ne_ok (rw (whole, f) at e))
            | inr (end, f) ↦ subst (Checked src) (ok_inj (rw (whole, f) at e)) (refl, f)
          ]
        ]

  zip_read-Checked : (read : Zip × ℕ) → zip_read src ≡ ok read → Checked src read
  unfolding zip_read
  zip_read-Checked read e = elim (find_eocdr-Safe src bytes) [
    | inl f ↦ absurd (no_ne_ok (rw f at e))
    | inr (found, f) ↦ read_members-Checked found.0 found.1 read (rw f at e)
  ]

  -- When zip_read accepts a file shorter than 2^64 bytes, list_zip runs to its end, with no failed
  -- assertion and no read outside the file: it lists as many members as the archive announces, and
  -- the data of each of them lies inside the file.
  pub list_members-zip_read :
      (mktime : Tm → ℤ) (zip : Zip) (zip_file_offset : ℕ)
      → length src < 2 ^ 64
      → zip_read src ≡ ok (zip, zip_file_offset)
      → (ms : List Member) × (list_members mktime
            (suc zip.num_members)
            zip
            zip_file_offset
            zip.members_begin
          ≡ ok ms)
        × (length ms ≡ zip.num_members)
        × Inside (length src) ms
  unfolding Checked
  list_members-zip_read mktime zip z short e =
      let (same, checked) = zip_read-Checked (zip, z) e in
      let here : zip.members_begin ≤ zip.members_begin = omega arith in
      let (ms, listed, len, inside) =
        members_listed mktime zip (subst IsBytes (sym same) bytes) z
          (subst (λ s. length s < 2 ^ 64) (sym same) short) zip.num_members zip.members_begin here
          checked in
      (ms, listed, len, subst (λ s. Inside (length s) ms) same inside)
