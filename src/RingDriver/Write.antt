-- ===== src/RingDriver/Write.antt =====
-- 27_driver/ringbuf_driver.c: ringbuf_write, whose blocks are in Write/Blocks.
mod Blocks
use native.Mathlib.Nat.{mod-add-mod}
use otus_c_prog.Common.{
  ℕ, ◌+◌, ◌-◌, ◌%◌, ◌≤◌, ◌<◌, ◌≡◌, ◌≢◌, refl, sym, ◌∙◌, ap, List, [], ◌∷◌, ◌++◌, Option, none, some,
  arith, length, get_or, take, drop, min, add_size, sub_size, ◌⊎◌, inl, inr, ◌==◌, ==_iff, Bool,
  true, false, Bool-cases, length-take, length-drop, length-append, ltb, if◌then◌else◌, take_all,
  drop-append, drop-take, drop_all,
}
use native.Mathlib.Decide.{dec_le}
use otus_c_prog.RingDriver.{
  RingBuffer, drop_oldest, make_room, ringbuf_space, clip_source, finish_write, copy_in, write_at,
  ringbuf_write,
}
use otus_c_prog.RingDriver.Copy.{UserCopy}
use otus_c_prog.RingDriver.Window.{at, slice, slice_shift, slice-eq, slice-append, length-slice}
use otus_c_prog.RingDriver.Inv.{
  IsValid, contents_of, contents_at, contents, contents_lem, write_in, space_lem,
  drop_oldest-IsValid, drop_oldest-contents,
}
use Blocks.{
  Fits, Untouched, Written, part1, first, second, first-Untouched, second-Untouched, first-Written,
  second-Written,
}

-- No copy from the caller ever leaves a byte over.
abbrev pub AlwaysCopies : UserCopy → Type 0
AlwaysCopies k =
    (d : List ℕ) (pos : ℕ) (src : List ℕ) (n : ℕ) → (k.copy_from_user d pos src n).0 ≡ 0

-- What a write of `n` bytes of `src` does to a valid buffer that holds `old`: all of them are
-- appended, or a copy failed and what the buffer holds is unchanged.
pub record Outcome (k : UserCopy) (size : ℕ) (old src : List ℕ) (n : ℕ) (r : ℕ × RingBuffer)
    : Type 0 where
  pub alloc : List ℕ
  pub valid : IsValid r.1 alloc
  pub same_size : r.1.size ≡ size
  pub effect :
      ((r.0 ≡ n) × (contents_of r.1 alloc ≡ old ++ take n src))
      ⊎ ((r.0 ≡ 0) × (contents_of r.1 alloc ≡ old) × (AlwaysCopies k → ⊥))

module _ (k : UserCopy) {rb : RingBuffer} {d : List ℕ} {n : ℕ} (f : Fits rb d n)
    (src : List ℕ) where
  open f.valid use {stored, width, low, high, read_in, count_in, write_end}

  failed :
      (d' : List ℕ)
      → Untouched rb n d d'
      → (AlwaysCopies k → ⊥)
      → Outcome k rb.size (contents_of rb d) src n (0, record rb { bytes = some d' })
  failed d' u not_all = record {
    alloc = d';
    valid = record {
      stored = refl;
      width = u.0 ∙ width;
      low = low;
      high = high;
      read_in = read_in;
      count_in = count_in;
      write_end = write_end;
    };
    same_size = refl;
    effect = inr (
      refl,
      slice_shift (at d' rb.size) (at d rb.size) rb.read_pos rb.read_pos rb.count u.1,
      not_all,
    );
  }

  -- The buffer as ringbuf_write leaves it when both copies have succeeded.
  abbrev done : List ℕ → RingBuffer
  done d' = record rb {
    bytes = some d';
    write_pos = add_size rb.write_pos n % rb.size;
    count = add_size rb.count n;
  }

  done-contents :
      (d' : List ℕ)
      → n ≤ length src
      → Written rb d n src d'
      → contents_of (done d') d' ≡ contents_of rb d ++ take n src
  done-contents d' long w =
      ap (slice (at d' rb.size) rb.read_pos) (omega (arith, f.room))
      ∙ slice-append (at d' rb.size) rb.read_pos rb.count n
      ∙ rw (
        slice_shift (at d' rb.size) (at d rb.size) rb.read_pos rb.read_pos rb.count w.keeps.1,
        slice-eq (at d' rb.size) (rb.read_pos + rb.count) n src long w.new,
      )

  succeeded :
      (d' : List ℕ)
      → n ≤ length src
      → Written rb d n src d'
      → Outcome k rb.size (contents_of rb d) src n (n, done d')
  succeeded d' long w = record {
    alloc = d';
    valid = record {
      stored = refl;
      width = w.keeps.0 ∙ width;
      low = low;
      high = high;
      read_in = read_in;
      count_in = omega (arith, f.room);
      write_end =
          let a : add_size rb.write_pos n ≡ rb.write_pos + n =
            omega (arith, write_in f.valid, f.room) in
          let b : rb.read_pos + add_size rb.count n ≡ rb.read_pos + rb.count + n =
            omega (arith, f.room) in
          rw (a, b, write_end) (mod-add-mod (rb.read_pos + rb.count) rb.size n);
    };
    same_size = refl;
    effect = inl (refl, done-contents d' long w);
  }

  finish_write-Outcome :
      n ≤ length src
      → (k.copy_from_user d rb.write_pos src (part1 k f src)).0 ≡ 0
      → Outcome k rb.size
          (contents_of rb d)
          src
          n
          (finish_write k rb (first k f src) src n (part1 k f src))
  unfolding finish_write first second part1
  finish_write-Outcome long ok₁ =
      let p = part1 k f src in
      let left : sub_size n p ≡ n - p = omega (arith, f.room) in
      rw left (elim (Bool-cases (n - p == 0)) [
        | inl e ↦ rw e (succeeded _ long (first-Written k f src long ok₁ ((==_iff (n - p) 0).0 e)))
        | inr e ↦
            let left₂ = k.copy_from_user (first k f src) 0 (drop p src) (n - p) in
            elim (Bool-cases (left₂.0 == 0)) [
              | inl e₂ ↦
                  rw (e, e₂)
                    (succeeded _ long (second-Written k f src long ok₁ ((==_iff left₂.0 0).0 e₂)))
              | inr e₂ ↦
                  rw (e, e₂)
                    (failed _ (second-Untouched k f src)
                      (λ all. ground (arith, all (first k f src) 0 (drop p src) (n - p))))
            ]
      ])

  pub copy_in-Outcome :
      n ≤ length src → Outcome k rb.size (contents_of rb d) src n (copy_in k rb d src n)
  unfolding copy_in first part1
  copy_in-Outcome long =
      let p = part1 k f src in
      let e : sub_size rb.size rb.write_pos ≡ rb.size - rb.write_pos =
        omega (arith, write_in f.valid) in
      rw e (
        let left₁ = k.copy_from_user d rb.write_pos src p in
        elim (Bool-cases (left₁.0 == 0)) [
          | inl e₁ ↦ rw e₁ (finish_write-Outcome long ((==_iff left₁.0 0).0 e₁))
          | inr e₁ ↦
              rw e₁ (
                failed _ (first-Untouched k f src)
                  (λ all. ground (arith, all d rb.write_pos src p)))
        ])

-- `xs` without its first elements, so that at most `cap` are left.
abbrev pub last_of : ℕ → List ℕ → List ℕ
last_of cap xs = drop (length xs - cap) xs

-- A buffer that is full from its oldest byte on, and the part of a source that is kept.
pub keep_last :
    (cap count len : ℕ) (old ubuf : List ℕ)
    → length old ≡ count
    → count ≤ cap
    → len ≤ length ubuf
    → drop (count + min len cap - cap) old ++ take (min len cap) (drop (len - min len cap) ubuf)
      ≡ last_of cap (old ++ take len ubuf)
keep_last cap count len old ubuf e le long =
    let total : length (old ++ take len ubuf) ≡ count + len =
      omega (arith, length-append old (take len ubuf), length-take len ubuf) in
    rw
      (
        total,
        drop-append (count + len - cap) old (take len ubuf),
        drop-take (count + len - cap - length old) len ubuf,
      )
      (elim (dec_le len cap) [
        | yes small ↦
            let a : min len cap ≡ len = omega arith in
            let b : count + len - cap - length old ≡ len - len = omega arith in
            let c : len - (len - len) ≡ len = omega arith in rw (a, b, c)
        | no large ↦
            let a : min len cap ≡ cap = omega arith in
            let b : count + len - cap - length old ≡ len - cap = omega arith in
            let c : len - (len - cap) ≡ cap = omega arith in
            rw (a, b, c)
              (ap (λ t. t ++ take cap (drop (len - cap) ubuf))
                (drop_all (count + cap - cap) old (omega arith)
                  ∙ sym (drop_all (count + len - cap) old (omega arith))))
      ])

module _ (k : UserCopy) {rb : RingBuffer} {d : List ℕ} (v : IsValid rb d) (ubuf : List ℕ) where
  -- Behind the window there is room once make_room has run.
  pub make_room-Fits :
      (n : ℕ)
      → n ≤ rb.size
      → Fits (make_room rb n) d n
        × (contents_of (make_room rb n) d ≡ drop (rb.count + n - rb.size) (contents_of rb d))
        × ((make_room rb n).size ≡ rb.size)
  unfolding make_room drop_oldest
  make_room-Fits n le =
      let space = space_lem v in
      elim (Bool-cases (ltb (ringbuf_space rb) n)) [
        | inl e ↦
            let excess = sub_size n (ringbuf_space rb) in
            let is : excess ≡ rb.count + n - rb.size = ground (arith, space, e) in
            rw e (
              record {
                valid = drop_oldest-IsValid v excess (omega arith);
                room = room_after n excess (omega arith);
              },
              rw (← is) (drop_oldest-contents v excess (omega arith)),
              refl,
            )
        | inr e ↦
            let none_over : rb.count + n - rb.size ≡ 0 = ground (arith, space, e) in
            rw (e, none_over) (record { valid = v; room = ground (arith, space, e) }, refl, refl)
      ]
    where
      room_after :
          (n excess : ℕ)
          → (excess ≡ rb.count + n - rb.size) × (n ≤ rb.size) × (rb.size ≤ rb.count + n)
          → (drop_oldest rb excess).count + n ≤ rb.size
      room_after n excess h = unfold drop_oldest in omega arith
