-- ===== src/Daemon/PidFile.antt =====
-- 15_daemon/main.c: check_pid_file, create_pid_file and remove_pid_file. The file is its bytes, if
-- there is one.
use otus_c_prog.Common.{
  ℕ, zero, suc, ◌-◌, ◌^◌, ◌≤◌, ◌<◌, ◌≡◌, ◌≢◌, refl, sym, ap, ◌∙◌, ◌⊎◌, inl, inr, Bool, true, false,
  ◌||◌, not, Option, none, some, List, [], ◌∷◌, ◌++◌, length, ltb, ◌==◌, if◌then◌else◌, arith,
}
use otus_c_prog.Common.Int.{pos, negsuc}
use otus_c_prog.Common.Decimal.{
  Number, strtol, decimal, is_digit, AllDigits, decimal-AllDigits, decimal_head, length-decimal,
  strtol-decimal,
}

abbrev pub int_max : ℕ
int_max = 2 ^ 31 - 1

-- fgets with room for `n` bytes: up to the first line break, which is kept.
unfoldable pub line : ℕ → List ℕ → List ℕ
line zero s = []
line (suc n) [] = []
line (suc n) (c ∷ cs) = let more = line n cs in if c == b'\n' then c ∷ [] else c ∷ more

-- What kill(pid, 0) tells: it succeeds, or errno is ESRCH or another.
pub data Signalled : Type 0 where
  running : Signalled
  no_process : Signalled
  not_permitted : Signalled

-- `*endptr` is a line break or the end of the text.
unfoldable pub ends_line : List ℕ → Bool
ends_line [] = true
ends_line (c ∷ cs) = c == b'\n' || c == 0

-- The number of a process, if strtol has found one.
unfoldable pub pid_of : Number → Option ℕ
unfolding ends_line
pid_of n =
    if not n.in_range || not n.found || not (ends_line n.rest) then none else elim (n.value) [
      | pos p ↦ if p == 0 || ltb int_max p then none else some p
      | negsuc p ↦ none
    ]

-- Whether the result is 0, and the file after.
unfoldable pub after_kill : List ℕ → Signalled → Bool × Option (List ℕ)
after_kill content running = (false, some content)
after_kill content no_process = (true, none)
after_kill content not_permitted = (false, some content)

unfoldable pub check_pid : (ℕ → Signalled) → List ℕ → Option ℕ → Bool × Option (List ℕ)
unfolding after_kill
check_pid kill content none = (false, some content)
check_pid kill content (some pid) = after_kill content (kill pid)

unfoldable pub check_line : (ℕ → Signalled) → List ℕ → List ℕ → Bool × Option (List ℕ)
unfolding check_pid pid_of
check_line kill content [] = (true, some content)
check_line kill content (c ∷ cs) = check_pid kill content (pid_of (strtol (c ∷ cs)))

-- The first argument is whether a file that is there can be opened and read.
unfoldable pub check_pid_file : Bool → (ℕ → Signalled) → Option (List ℕ) → Bool × Option (List ℕ)
unfolding check_line line
check_pid_file reads kill none = (true, none)
check_pid_file reads kill (some content) =
    if not reads then (true, some content) else check_line kill content (line 31 content)

-- create_pid_file where the file can be opened for writing, which empties it. The first argument is
-- whether what fprintf has put into the buffer then gets into the file; the code does not ask.
unfoldable pub create_pid_file : Bool → ℕ → Option (List ℕ)
create_pid_file stored pid = if stored then some (decimal pid ++ (b'\n' ∷ [])) else some []

unfoldable pub remove_pid_file : Option (List ℕ) → Option (List ℕ)
remove_pid_file file = none

line-whole :
    (n : ℕ) (a : List ℕ)
    → length a < n
    → AllDigits a
    → line n (a ++ (b'\n' ∷ [])) ≡ a ++ (b'\n' ∷ [])
unfolding line is_digit
line-whole zero a h d = absurd (omega arith)
line-whole (suc n) [] h d = refl
line-whole (suc n) (c ∷ a) h d =
    let no_break : (c == b'\n') ≡ false = ground (arith, d.0) in
    rw no_break (ap (λ t. c ∷ t) (line-whole n a (omega arith) d.1))

check_line-pid :
    (kill : ℕ → Signalled) (content : List ℕ) (pid : ℕ)
    → 0 < pid
    → pid ≤ int_max
    → check_line kill content (decimal pid ++ (b'\n' ∷ [])) ≡ after_kill content (kill pid)
unfolding check_line
check_line-pid kill content pid p h =
    let (c, cs, e, d) = decimal_head pid in
    let text = decimal pid ++ (b'\n' ∷ []) in
    let split : text ≡ c ∷ (cs ++ (b'\n' ∷ [])) = ap (λ t. t ++ (b'\n' ∷ [])) e in
    let n = strtol-decimal pid (b'\n' ∷ []) (omega arith) (unfold is_digit in refl) in
    ap (check_line kill content) split
    ∙ ap (λ t. check_pid kill content (pid_of (strtol t))) (sym split)
    ∙ ap (λ r. check_pid kill content (pid_of r)) n
    ∙ ap (check_pid kill content) (read pid p h)
    ∙ unfold check_pid in refl
  where
    read :
        (pid : ℕ)
        → 0 < pid
        → pid ≤ int_max
        → pid_of (record { value = pos pid; in_range = true; found = true; rest = b'\n' ∷ [] })
          ≡ some pid
    read pid p h =
        let zero_no : (pid == 0) ≡ false = ground arith in
        let large_no : ltb int_max pid ≡ false = ground arith in
        unfold pid_of in rw (zero_no, large_no)

after_kill-cases :
    (content : List ℕ) (k : Signalled)
    → ((k ≡ no_process) × (after_kill content k ≡ (true, none)))
      ⊎ ((k ≢ no_process) × (after_kill content k ≡ (false, some content)))
unfolding after_kill
after_kill-cases content running = ground arith
after_kill-cases content no_process = inl (refl, refl)
after_kill-cases content not_permitted = ground arith

-- check_pid_file, where it can read the file, reads the number of a process, a positive int, back from
-- the file that create_pid_file wrote: it accepts the start and removes the file if there is no such
-- process, and else refuses and leaves the file as it is.
pub check_pid_file-create_pid_file :
    (kill : ℕ → Signalled) (pid : ℕ)
    → 0 < pid
    → pid ≤ int_max
    → ((kill pid ≡ no_process)
        × (check_pid_file true kill (create_pid_file true pid) ≡ (true, none)))
      ⊎ ((kill pid ≢ no_process)
          × (check_pid_file true kill (create_pid_file true pid)
              ≡ (false, create_pid_file true pid)))
unfolding check_pid_file create_pid_file
check_pid_file-create_pid_file kill pid p h =
    let text = decimal pid ++ (b'\n' ∷ []) in
    let short = length-decimal pid 9 (omega arith) in
    let whole = line-whole 31 (decimal pid) (omega (arith, short)) (decimal-AllDigits pid) in
    let result = ap (check_line kill text) whole ∙ check_line-pid kill text pid p h in
    elim (after_kill-cases text (kill pid)) [
      | inl (e, a) ↦ inl (e, result ∙ a)
      | inr (e, a) ↦ inr (e, result ∙ a)
    ]

-- A file that could not be filled, or that cannot be read, lets any start pass and stays.
pub check_pid_file-unread :
    (reads : Bool) (kill : ℕ → Signalled) (pid : ℕ) (content : List ℕ)
    → (check_pid_file reads kill (create_pid_file false pid) ≡ (true, some []))
      × (check_pid_file false kill (some content) ≡ (true, some content))
unfolding check_pid_file create_pid_file
check_pid_file-unread true kill pid content = (refl, refl)
check_pid_file-unread false kill pid content = (refl, refl)

-- When check_pid_file accepts the start of a file that can be read, no number is left in it: there
-- is no file, or an empty one.
pub check_pid_file-accepts :
    (kill : ℕ → Signalled) (file : Option (List ℕ))
    → (check_pid_file true kill file).0 ≡ true
    → ((check_pid_file true kill file).1 ≡ none)
      ⊎ ((file ≡ some []) × ((check_pid_file true kill file).1 ≡ file))
unfolding check_pid_file
check_pid_file-accepts kill none h = inl refl
check_pid_file-accepts kill (some []) h = inr (refl, refl)
check_pid_file-accepts kill (some (c ∷ cs)) h = ground arith
