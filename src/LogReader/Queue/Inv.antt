-- ===== src/LogReader/Queue/Inv.antt =====
-- 17_log_reader/main.c: what holds of the queue however the steps of the workers are ordered.
use otus_c_prog.Common.{
  ℕ, zero, suc, ◌+◌, ◌≤◌, ◌<◌, ◌==◌, ◌≡◌, ◌≢◌, refl, ap, sym, ◌⊎◌, inl, inr, ◌∙◌, leb, Bool, true,
  false, if◌then◌else◌, List, [], ◌∷◌, arith, Bool-cases,
}
use mathlib.Core.Bool.{true≢false}
use mathlib.Core.Path.{subst}
use otus_c_prog.LogReader.Queue.{
  FileQueue, Turn, asleep, leave, reading, take_file, start, finish_empty, Reach, begin, by_main,
  read_file, wait, exit,
}

-- The numbers below n, the last first.
pub down : ℕ → List ℕ
down zero = []
down (suc n) = n ∷ down n

record Inv (file_count : ℕ) (q : FileQueue) (taken : List ℕ) (left : ℕ) : Type 0 where
  count_eq : q.count ≡ file_count
  taken_eq : taken ≡ down q.next
  below : q.next ≤ file_count
  flagged : q.finished ≡ true → q.next ≡ file_count
  at_end : q.next ≡ file_count → 0 < file_count → q.finished ≡ true
  after : 0 < left → q.next ≡ file_count

-- The three results of take_file.
take_file-cases :
    (q : FileQueue)
    → ((q.count ≤ q.next)
        × (q.finished ≡ false)
        × (take_file q ≡ record { turn = asleep; queue = q }))
      ⊎ (((q.count ≤ q.next)
            × (q.finished ≡ true)
            × (take_file q ≡ record { turn = leave; queue = q }))
          ⊎ ((q.next < q.count)
              × (take_file q ≡ record {
                turn = reading q.next;
                queue = record {
                  count = q.count;
                  next = q.next + 1;
                  finished = if q.next + 1 == q.count then true else q.finished;
                };
              })))
unfolding take_file
take_file-cases q = elim (Bool-cases (leb q.count q.next)) [
  | inl e ↦ elim (Bool-cases q.finished) [
    | inl f ↦ inr (inl (ground arith, f, rw (e, f)))
    | inr f ↦ inl (ground arith, f, rw (e, f))
  ]
  | inr e ↦ elim (Bool-cases q.finished) [
    | inl f ↦ inr (inr (ground arith, rw (e, f)))
    | inr f ↦ inr (inr (ground arith, rw (e, f)))
  ]
]

down_succ : (n : ℕ) → n ∷ down n ≡ down (n + 1)
unfolding down
down_succ n = let e : suc n ≡ n + 1 = omega arith in ap down e

is_reading : Turn → Bool
is_reading asleep = false
is_reading leave = false
is_reading (reading i) = true

is_leaving : Turn → Bool
is_leaving asleep = false
is_leaving leave = true
is_leaving (reading i) = false

is_asleep : Turn → Bool
is_asleep asleep = true
is_asleep leave = false
is_asleep (reading i) = false

pos_ne : (n : ℕ) → 0 < n → 0 ≢ n
pos_ne n h = omega arith

file_of : Turn → ℕ
file_of asleep = 0
file_of leave = 0
file_of (reading i) = i

take_file-Inv :
    (file_count : ℕ) (q : FileQueue) (taken : List ℕ) (left : ℕ)
    → Inv file_count q taken left
    → q.next < q.count
    → Inv file_count
        (record {
          count = q.count;
          next = q.next + 1;
          finished = if q.next + 1 == q.count then true else q.finished;
        })
        (q.next ∷ taken)
        left
take_file-Inv file_count q taken left inv more = record {
  count_eq = inv.count_eq;
  taken_eq = ap (λ t. q.next ∷ t) inv.taken_eq ∙ down_succ q.next;
  below = omega (arith, inv.count_eq);
  flagged = λ f. elim (Bool-cases (q.next + 1 == q.count)) [
    | inl e ↦ ground (arith, inv.count_eq)
    | inr e ↦ absurd (last_not (inv.flagged (rw e at f)))
  ];
  at_end =
      λ e _. let last : (q.next + 1 == q.count) ≡ true = ground (arith, inv.count_eq) in rw last;
  after = λ l. absurd (last_not (inv.after l));
}
  where
    last_not : q.next ≢ file_count
    last_not e = omega (arith, more, e, inv.count_eq)

-- What main does leaves a queue without files finished.
finish_empty-finished : (q : FileQueue) → q.count ≡ 0 → (finish_empty q).finished ≡ true
unfolding finish_empty
finish_empty-finished q e = let empty : (q.count == 0) ≡ true = ground arith in rw empty

finish_empty-count : (q : FileQueue) → (finish_empty q).count ≡ q.count
unfolding finish_empty
finish_empty-count q = elim (Bool-cases (q.count == 0)) [ inl e ↦ rw e | inr e ↦ rw e ]

Reach-Inv :
    {file_count : ℕ} {q : FileQueue} {taken : List ℕ} {left : ℕ}
    → Reach file_count q taken left
    → Inv file_count q taken left
unfolding start finish_empty down is_reading is_leaving file_of
Reach-Inv {file_count = file_count} begin = record {
  count_eq = refl;
  taken_eq = refl;
  below = omega arith;
  flagged = λ f. absurd (true≢false (sym f));
  at_end = λ e h. absurd (pos_ne file_count h e);
  after = λ l. absurd (pos_ne 0 l refl);
}
Reach-Inv {file_count = file_count} (by_main {q = q} r) =
    let inv = Reach-Inv r in
    elim (Bool-cases (q.count == 0)) [
      | inl e ↦
          let none_left : q.next ≡ file_count = ground (arith, inv.below, inv.count_eq) in
          rw e (record {
            count_eq = inv.count_eq;
            taken_eq = inv.taken_eq;
            below = inv.below;
            flagged = λ _. none_left;
            at_end = λ _ _. refl;
            after = inv.after;
          })
      | inr e ↦ rw e inv
    ]
Reach-Inv {file_count = file_count} (read_file {q = q} {taken = taken} {left = left} {i = i} r e) =
    let inv = Reach-Inv r in
    elim (take_file-cases q) [
      | inl (_, _, f) ↦ absurd (true≢false (sym (ap is_reading (rw f at e))))
      | inr (inl (_, _, f)) ↦ absurd (true≢false (sym (ap is_reading (rw f at e))))
      | inr (inr (more, f)) ↦
          let same : q.next ≡ i = ap file_of (rw f at e) in
          subst (λ k. Inv file_count (take_file q).queue (k ∷ taken) left) same
            (rw f (take_file-Inv file_count q taken left inv more))
    ]
Reach-Inv (wait {q = q} r e) =
    let inv = Reach-Inv r in
    elim (take_file-cases q) [
      | inl (_, _, f) ↦ rw f inv
      | inr (inl (_, _, f)) ↦ rw f inv
      | inr (inr (more, f)) ↦ absurd (true≢false (ap is_reading (rw f at e)))
    ]
Reach-Inv {file_count = file_count} (exit {q = q} r e) =
    let inv = Reach-Inv r in
    elim (take_file-cases q) [
      | inl (_, _, f) ↦ absurd (true≢false (sym (ap is_leaving (rw f at e))))
      | inr (inl (_, over, f)) ↦ rw f (record {
        count_eq = inv.count_eq;
        taken_eq = inv.taken_eq;
        below = inv.below;
        flagged = inv.flagged;
        at_end = inv.at_end;
        after = λ _. inv.flagged over;
      })
      | inr (inr (more, f)) ↦ absurd (true≢false (ap is_reading (rw f at e)))
    ]

-- However the steps of any number of workers and of main are ordered, the files taken are those
-- below `next`, each once and in the order of the list, and once a worker has left, they are all the
-- files.
pub Reach-files :
    {file_count : ℕ} {q : FileQueue} {taken : List ℕ} {left : ℕ}
    → Reach file_count q taken left
    → (taken ≡ down q.next) × (q.next ≤ file_count) × (0 < left → taken ≡ down file_count)
Reach-files r =
    let inv = Reach-Inv r in (inv.taken_eq, inv.below, λ l. inv.taken_eq ∙ ap down (inv.after l))

-- However the steps are ordered, once main has done its own no worker goes to sleep again: each
-- finds a file to read or leaves.
pub Reach-awake :
    {file_count : ℕ} {q : FileQueue} {taken : List ℕ} {left : ℕ}
    → Reach file_count q taken left
    → (take_file (finish_empty q)).turn ≢ asleep
unfolding is_asleep
Reach-awake {q = q} r e =
    let inv = Reach-Inv (by_main r) in
    let q' = finish_empty q in
    elim (take_file-cases q') [
      | inl (over, f, _) ↦ elim (Bool-cases (q'.count == 0)) [
        | inl g ↦
            true≢false (sym (finish_empty-finished q (ground (arith, finish_empty-count q))) ∙ f)
        | inr g ↦ true≢false (
            sym (
              inv.at_end (omega (arith, over, inv.below, inv.count_eq))
                (ground (arith, g, inv.count_eq)))
            ∙ f)
      ]
      | inr (inl (_, _, f)) ↦ true≢false (sym (ap is_asleep (rw f at e)))
      | inr (inr (_, f)) ↦ true≢false (sym (ap is_asleep (rw f at e)))
    ]
