-- ===== src/Zip/Members.antt =====
-- 03_types_homework-12926-ac0783/main.c: list_zip over an archive that zip_read has accepted.
use otus_c_prog.Common.{
  ℕ, zero, suc, ◌+◌, ◌^◌, ◌≤◌, ◌<◌, ◌==◌, ◌≡◌, refl, ap, sym, inl, inr, ltb, leb, Bool, true, false,
  List, [], ◌∷◌, length, arith, le→leb, lt→ltb,
}
use mathlib.Core.Bool.{true≢false}
use mathlib.Core.Logic.{◌≢◌}
use native.Mathlib.Nat.{mod-eq_of_lt}
use otus_c_prog.Common.Int.{ℤ}
use otus_c_prog.Zip.Bytes.{Outcome, ok, no, fault, IsBytes}
use otus_c_prog.Zip.Loop.{Seen, check_member-cases}
use otus_c_prog.Zip.{
  Zip, next_offset, check_members, Tm, Member, member_of, zip_member, list_members,
}

-- The data of the member lies inside the file.
abbrev pub DataInside : ℕ → Member → Type 0
DataInside src_len m = m.comp_data + m.comp_size ≤ src_len

-- Of each of them.
pub Inside : ℕ → List Member → Type 0
Inside src_len [] = Unit
Inside src_len (m ∷ ms) = DataInside src_len m × Inside src_len ms

is_ok {ℓ} : {A : Type ℓ} → Outcome A → Bool
is_ok (ok a) = true
is_ok no = false
is_ok fault = false

value {ℓ} : {A : Type ℓ} → A → Outcome A → A
value a (ok b) = b
value a no = a
value a fault = a

pub ok_inj {ℓ} : {A : Type ℓ} {a b : A} → ok a ≡ ok b → a ≡ b
unfolding value
ok_inj {a = a} e = ap (value a) e

pub no_ne_ok {ℓ} : {A : Type ℓ} {a : A} → Outcome.no ≢ ok a
unfolding is_ok
no_ne_ok e = true≢false (sym (ap is_ok e))

module _ (mktime : Tm → ℤ) (zip : Zip) (bytes : IsBytes zip.src) (z : ℕ) where
  zip_member-ok :
      (it : ℕ) (seen : Seen zip.src z it)
      → zip.members_begin ≤ it
      → it < zip.members_end
      → next_offset it seen.cfh ≤ zip.members_end
      → zip_member mktime zip it z ≡ ok (member_of mktime it seen.cfh seen.lfh)
  unfolding zip_member member_of
  zip_member-ok it seen from below to =
      let from' : leb zip.members_begin it ≡ true = le→leb zip.members_begin it from in
      let below' : ltb it zip.members_end ≡ true = lt→ltb it zip.members_end below in
      let to' : leb (next_offset it seen.cfh) zip.members_end ≡ true =
        le→leb (next_offset it seen.cfh) zip.members_end to in
      rw (from', below', seen.central, seen.local, to')

  module _ (short : length zip.src < 2 ^ 64) where
    -- A member ends inside the file and after it begins.
    next_offset-gt : (it : ℕ) (seen : Seen zip.src z it) → it < next_offset it seen.cfh
    next_offset-gt it seen =
        let sum = it + (46 + seen.cfh.name_len + seen.cfh.extra_len + seen.cfh.comment_len) in
        let fits : sum < 2 ^ 64 = omega (arith, seen.central_in.fits, short) in
        let exact = mod-eq_of_lt {n = sum} {m = 2 ^ 64} fits in omega (arith, exact)

    check_members-le : (n it end : ℕ) → check_members zip.src z n it ≡ ok end → it + n ≤ end
    unfolding check_members
    check_members-le zero it end e = omega (arith, ok_inj e)
    check_members-le (suc n) it end e = elim (check_member-cases zip.src bytes z it) [
      | inl f ↦ absurd (no_ne_ok (rw f at e))
      | inr (seen, f) ↦
          let rest = rw f at e in
          omega
            (arith, check_members-le n (next_offset it seen.cfh) end rest, next_offset-gt it seen)
    ]

    pub members_listed :
        (n it : ℕ)
        → zip.members_begin ≤ it
        → check_members zip.src z n it ≡ ok zip.members_end
        → (ms : List Member) × (list_members mktime (suc n) zip z it ≡ ok ms)
          × (length ms ≡ n)
          × Inside (length zip.src) ms
    unfolding list_members check_members member_of Inside
    members_listed zero it from e =
        let here : (it == zip.members_end) ≡ true = ground (arith, ok_inj e) in
        ([], rw here, refl, tt)
    members_listed (suc n) it from e = elim (check_member-cases zip.src bytes z it) [
      | inl f ↦ absurd (no_ne_ok (rw f at e))
      | inr (seen, f) ↦
          let rest = rw f at e in
          let next = next_offset it seen.cfh in
          let after = next_offset-gt it seen in
          let le = check_members-le n next zip.members_end rest in
          let m = member_of mktime it seen.cfh seen.lfh in
          let now = zip_member-ok it seen from (omega arith) (omega arith) in
          let (ms, listed, len, inside) = members_listed n next (omega arith) rest in
          let on : (it == zip.members_end) ≡ false = ground arith in
          (m ∷ ms, rw (on, now, listed), omega (arith, len), (seen.data_in, inside))
    ]
