-- ===== src/Zip/Found.antt =====
-- 03_types_homework-12926-ac0783/main.c: the search for the end of the central directory and the
-- whole of zip_read stay inside the file.
use otus_c_prog.Common.{
  ℕ, zero, suc, ◌+◌, ◌-◌, ◌%◌, ◌^◌, ◌≤◌, ◌==◌, ◌≡◌, refl, ◌⊎◌, inl, inr, ltb, ◌||◌, not, List,
  length, arith, Bool-cases, sub_size,
}
use otus_c_prog.Zip.Bytes.{
  Outcome, ok, no, ◌>>=◌, IsBytes, word16, word32, read16le-word16, read32le-word32,
}
use otus_c_prog.Zip.Headers.{
  Eocdr, eocdr_fields, eocdr_turn, eocdr_loop, find_eocdr, eocdr_base_sz, eocdr_signature,
}
use otus_c_prog.Zip.Loop.{check_members-cases}
use otus_c_prog.Zip.{check_members, file_offset, read_members, zip_read}

-- A function that gives a value or `false`, never a fault.
abbrev pub Safe {ℓ} : {A : Type ℓ} → Outcome A → Type ℓ
Safe {A = A} m = (m ≡ no) ⊎ ((a : A) × (m ≡ ok a))

>>=_Safe {ℓ κ} :
    {A : Type ℓ} {B : Type κ} (m : Outcome A) (f : A → Outcome B)
    → Safe m
    → ((a : A) → Safe (f a))
    → Safe (m >>= f)
>>=_Safe m f (inl e) h = inl (rw e)
>>=_Safe m f (inr (a, e)) h = rw e (h a)

module _ (src : List ℕ) (bytes : IsBytes src) where
  eocdr_at : ℕ → ℕ → Eocdr × ℕ
  eocdr_at p comment_len = (
    record {
      disk_nbr = word16 src (p + 4);
      cd_start_disk = word16 src (p + 6);
      disk_cd_entries = word16 src (p + 8);
      cd_entries = word16 src (p + 10);
      cd_size = word32 src (p + 12);
      cd_offset =
          sub_size (sub_size (sub_size (length src) (word32 src (p + 12))) eocdr_base_sz)
            comment_len
          % 2 ^ 32;
      comment_len = word16 src (p + 20);
      comment = p + 22;
    },
    word32 src (p + 16),
  )

  eocdr_fields-eq :
      (p comment_len : ℕ)
      → p + 22 ≤ length src
      → eocdr_fields src p comment_len ≡ ok (eocdr_at p comment_len)
  unfolding eocdr_fields eocdr_at
  eocdr_fields-eq p comment_len h = rw (
    read16le-word16 src bytes (p + 4) (omega arith),
    read16le-word16 src bytes (p + 6) (omega arith),
    read16le-word16 src bytes (p + 8) (omega arith),
    read16le-word16 src bytes (p + 10) (omega arith),
    read32le-word32 src bytes (p + 12) (omega arith),
    read32le-word32 src bytes (p + 16) (omega arith),
    read16le-word16 src bytes (p + 20) (omega arith),
  )

  eocdr_turn-Safe :
      (comment_len : ℕ) (rest : Outcome (Eocdr × ℕ))
      → Safe rest
      → Safe (eocdr_turn src comment_len rest)
  unfolding eocdr_turn
  eocdr_turn-Safe comment_len rest later =
      elim (Bool-cases (ltb (length src) (eocdr_base_sz + comment_len))) [
        | inl short ↦ inl (rw short)
        | inr room ↦
            let p = length src - eocdr_base_sz - comment_len in
            let inside : p + 22 ≤ length src = ground (arith, room) in
            let sig = read32le-word32 src bytes p (omega (arith, inside)) in
            elim (Bool-cases (not (word32 src p == eocdr_signature))) [
              | inl other ↦ rw (room, sig, other) later
              | inr same ↦
                  let found = eocdr_at p comment_len in
                  let e = eocdr_fields-eq p comment_len inside in
                  elim (Bool-cases (found.0.comment_len == comment_len)) [
                    | inl eq ↦ inr (found, rw (room, sig, same, e, eq))
                    | inr ne ↦ rw (room, sig, same, e, ne) later
                  ]
            ]
      ]

  eocdr_loop-Safe : (turns comment_len : ℕ) → Safe (eocdr_loop src turns comment_len)
  unfolding eocdr_loop
  eocdr_loop-Safe zero comment_len = inl refl
  eocdr_loop-Safe (suc turns) comment_len =
      eocdr_turn-Safe comment_len (eocdr_loop src turns (comment_len + 1))
        (eocdr_loop-Safe turns (comment_len + 1))

  pub find_eocdr-Safe : Safe (find_eocdr src)
  unfolding find_eocdr
  find_eocdr-Safe = eocdr_loop-Safe 65536 0

  pub read_members-Safe : (eocdr : Eocdr) (cd_offset : ℕ) → Safe (read_members src eocdr cd_offset)
  unfolding read_members
  read_members-Safe eocdr cd_offset =
      let z = file_offset (length src) eocdr cd_offset in
      elim (Bool-cases (
        not (eocdr.disk_nbr == 0)
        || not (eocdr.cd_start_disk == 0)
        || not (eocdr.disk_cd_entries == eocdr.cd_entries))) [
          | inl split ↦ inl (rw split)
          | inr whole ↦ rw whole (
              >>=_Safe (check_members src z eocdr.cd_entries eocdr.cd_offset) _
                (check_members-cases src bytes z eocdr.cd_entries eocdr.cd_offset)
                (λ end. inr (_, refl)))
        ]

  -- Whatever bytes a file holds, zip_read reads none outside them: it returns false, or an archive
  -- and where it begins.
  pub zip_read-Safe : Safe (zip_read src)
  unfolding zip_read
  zip_read-Safe = elim find_eocdr-Safe [
    | inl e ↦ inl (rw e)
    | inr (found, e) ↦ elim (read_members-Safe found.0 found.1) [
      | inl f ↦ inl (rw (e, f))
      | inr (zip, f) ↦ inr (zip, rw (e, f))
    ]
  ]
