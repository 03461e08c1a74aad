-- ===== src/Zip/Loop.antt =====
-- 03_types_homework-12926-ac0783/main.c: the loop of zip_read over the members.
use otus_c_prog.Common.{
  ℕ, zero, suc, ◌+◌, ◌-◌, ◌≤◌, ◌==◌, ◌≡◌, refl, ◌⊎◌, inl, inr, ltb, not, true, false, List, length,
  arith, Bool-cases, get_or,
}
use otus_c_prog.Zip.Bytes.{ok, no, IsBytes, byte_lem}
use otus_c_prog.Zip.Headers.{Cfh, Lfh, read_cfh, read_lfh}
use otus_c_prog.Zip.Safe.{CfhInside, read_cfh-cases, read_lfh-cases}
use otus_c_prog.Zip.{
  has_zero, acceptable, next_offset, check_local, check_header, check_member, check_members,
}

-- What the loop of zip_read has seen of the member whose central header stands at `offset`.
pub record Seen (src : List ℕ) (zip_file_offset offset : ℕ) : Type 0 where
  pub cfh : Cfh
  pub lfh : Lfh
  pub central : read_cfh src offset zip_file_offset ≡ ok cfh
  pub local : read_lfh src cfh.lfh_offset ≡ ok lfh
  pub central_in : CfhInside (length src) offset cfh
  pub data_in : lfh.extra + lfh.extra_len + cfh.comp_size ≤ length src

module _ (src : List ℕ) (bytes : IsBytes src) where
  has_zero-cases :
      (p n : ℕ) → p + n ≤ length src → (has_zero src p n ≡ ok true) ⊎ (has_zero src p n ≡ ok false)
  unfolding has_zero
  has_zero-cases p zero h = inr refl
  has_zero-cases p (suc n) h =
      let byte = byte_lem src bytes p (omega arith) in
      elim (Bool-cases (get_or src p 0 == 0)) [
        | inl e ↦ inl (rw (byte, e))
        | inr e ↦ elim (has_zero-cases (p + 1) n (omega arith)) [
          | inl r ↦ inl (rw (byte, e, r))
          | inr r ↦ inr (rw (byte, e, r))
        ]
      ]

  check_local-cases :
      (offset z : ℕ) (cfh : Cfh)
      → read_cfh src offset z ≡ ok cfh
      → CfhInside (length src) offset cfh
      → (check_local src offset cfh ≡ no)
        ⊎ ((seen : Seen src z offset) × (check_local src offset cfh
              ≡ ok (next_offset offset seen.cfh)))
  unfolding check_local
  check_local-cases offset z cfh central inside = elim (read_lfh-cases src bytes cfh.lfh_offset) [
    | inl e ↦ inl (rw e)
    | inr (lfh, e, lfh_in) ↦
        elim (Bool-cases (ltb (length src - (lfh.extra + lfh.extra_len)) cfh.comp_size)) [
          | inl long ↦ inl (rw (e, long))
          | inr fits ↦ inr (
            record {
              cfh = cfh;
              lfh = lfh;
              central = central;
              local = e;
              central_in = inside;
              data_in = ground (arith, lfh_in.fits, fits);
            },
            rw (e, fits),
          )
        ]
  ]

  check_header-cases :
      (offset z : ℕ) (cfh : Cfh)
      → read_cfh src offset z ≡ ok cfh
      → CfhInside (length src) offset cfh
      → (check_header src offset cfh ≡ no)
        ⊎ ((seen : Seen src z offset) × (check_header src offset cfh
              ≡ ok (next_offset offset seen.cfh)))
  unfolding check_header
  check_header-cases offset z cfh central inside =
      let name_in : cfh.name + cfh.name_len ≤ length src =
        omega (arith, inside.name_at, inside.fits) in
      elim (Bool-cases (not (acceptable cfh))) [
        | inl bad ↦ inl (rw bad)
        | inr good ↦ elim (has_zero-cases cfh.name cfh.name_len name_in) [
          | inl zero_byte ↦ inl (rw (good, zero_byte))
          | inr none_there ↦ elim (check_local-cases offset z cfh central inside) [
            | inl e ↦ inl (rw (good, none_there, e))
            | inr (seen, e) ↦ inr (seen, rw (good, none_there, e))
          ]
        ]
      ]

  pub check_member-cases :
      (z offset : ℕ)
      → (check_member src z offset ≡ no)
        ⊎ ((seen : Seen src z offset) × (check_member src z offset
              ≡ ok (next_offset offset seen.cfh)))
  unfolding check_member
  check_member-cases z offset = elim (read_cfh-cases src bytes offset z) [
    | inl e ↦ inl (rw e)
    | inr (cfh, e, inside) ↦ elim (check_header-cases offset z cfh e inside) [
      | inl f ↦ inl (rw (e, f))
      | inr (seen, f) ↦ inr (seen, rw (e, f))
    ]
  ]

  pub check_members-cases :
      (z n offset : ℕ)
      → (check_members src z n offset ≡ no) ⊎ ((end : ℕ) × (check_members src z n offset ≡ ok end))
  unfolding check_members
  check_members-cases z zero offset = inr (offset, refl)
  check_members-cases z (suc n) offset = elim (check_member-cases z offset) [
    | inl e ↦ inl (rw e)
    | inr (seen, e) ↦ elim (check_members-cases z n (next_offset offset seen.cfh)) [
      | inl f ↦ inl (rw (e, f))
      | inr (end, f) ↦ inr (end, rw (e, f))
    ]
  ]
