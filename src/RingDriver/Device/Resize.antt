-- ===== src/RingDriver/Device/Resize.antt =====
-- 27_driver/ringbuf_driver.c: writing the module parameter buf_size.
use otus_c_prog.Common.{
  ℕ, ◌≡◌, ◌≤◌, refl, Option, none, some, List, [], arith, inl, inr, length, Bool, true, false,
  if◌then◌else◌, ap, Bool-cases, ◌||◌, sym, ◌+◌,
}
use otus_c_prog.Common.Int.{ℤ, pos, negsuc, ltb_ℤ, pos_part}
use otus_c_prog.RingDriver.{Result, ok, err, einval, enomem, erestartsys}
use otus_c_prog.RingDriver.Inv.{IsValid, contents}
use otus_c_prog.RingDriver.Window.{slice}
use mathlib.Core.Path.{subst}
use native.Mathlib.Nat.{mod-eq_of_lt}
use otus_c_prog.RingDriver.Device.{Driver, Parsed, int, bad, buf_size_set, with_memory}

-- A number that buf_size_set takes.
abbrev pub IsSize : ℕ → Type 0
IsSize n = (16 ≤ n) × (n ≤ 65536)

-- What buf_size_set leaves of a driver `s`, for an allocator, and whether the wait for the mutex was
-- interrupted.
pub data Resized (kmalloc : ℕ → Option (List ℕ)) (interrupted : Bool) (s : Driver) (val : Parsed)
    (r : Result × Driver) : Type 0 where
  -- no number: nothing has changed
  unread : (code : ℕ) → val ≡ bad code → r ≡ (err code, s) → Resized kmalloc interrupted s val r
  -- a number that is no size: nothing has changed
  refused :
      (z : ℤ)
      → val ≡ int z
      → ((n : ℕ) → z ≡ pos n → ¬ (IsSize n))
      → r ≡ (err einval, s)
      → Resized kmalloc interrupted s val r
  -- the wait was interrupted: nothing has changed
  stopped :
      (n : ℕ)
      → val ≡ int (pos n)
      → IsSize n
      → interrupted ≡ true
      → r ≡ (err erestartsys, s)
      → Resized kmalloc interrupted s val r
  -- no memory for the size asked for: the ring has lost its bytes
  emptied :
      (n : ℕ)
      → val ≡ int (pos n)
      → IsSize n
      → interrupted ≡ false
      → kmalloc n ≡ none
      → r.0 ≡ err enomem
      → r.1.rb.bytes ≡ none
      → r.1.param_buf_size ≡ s.param_buf_size
      → Resized kmalloc interrupted s val r
  -- a new, empty and valid ring of the size asked for
  resized :
      (n : ℕ) (d : List ℕ)
      → val ≡ int (pos n)
      → IsSize n
      → interrupted ≡ false
      → kmalloc n ≡ some d
      → r.0 ≡ ok 0
      → IsValid r.1.rb d
      → (r.1.rb.size ≡ n) × (r.1.param_buf_size ≡ n)
      → contents r.1.rb ≡ []
      → Resized kmalloc interrupted s val r

outside-IsSize :
    (z : ℤ) → (ltb_ℤ z (pos 16) || ltb_ℤ (pos 65536) z) ≡ true → (n : ℕ) → z ≡ pos n → ¬ (IsSize n)
outside-IsSize (pos m) h n e (lo, hi) = let same : m ≡ n = cc in ground arith
outside-IsSize (negsuc m) h n e size = cc

inside-IsSize :
    (z : ℤ)
    → (ltb_ℤ z (pos 16) || ltb_ℤ (pos 65536) z) ≡ false
    → (z ≡ pos (pos_part z)) × IsSize (pos_part z)
inside-IsSize (pos n) h = (refl, (ground arith, ground arith))
inside-IsSize (negsuc n) h = ground arith

module _ (kmalloc : ℕ → Option (List ℕ))
    (sized : (n : ℕ) (d : List ℕ) → kmalloc n ≡ some d → length d ≡ n) where
  over :
      (s : Driver) (n : ℕ) (o : Option (List ℕ))
      → kmalloc n ≡ o
      → IsSize n
      → Resized kmalloc false s (int (pos n)) (with_memory o s n)
  unfolding with_memory slice
  over s n none e size = emptied n refl size refl e refl refl refl
  over s n (some d) e size =
      resized n d refl size refl e refl
        (record {
          stored = refl;
          width = sized n d e;
          low = size.0;
          high = size.1;
          read_in = omega (arith, size.0);
          count_in = omega arith;
          write_end = sym (mod-eq_of_lt {n = 0 + 0} {m = n} (omega (arith, size.0)));
        })
        (refl, refl) refl

  -- With an allocator that returns as many bytes as it is asked for, a new value of the parameter
  -- that is no number, or no number from 16 to 65536, or whose wait for the mutex is interrupted, is
  -- refused with the error of that case, and nothing changes; else, where there is no memory for so
  -- many bytes, the ring has no bytes and the parameter its old value, and where there is, the ring
  -- is valid, empty and of that size, which is then the parameter's value.
  pub buf_size_set-Resized :
      (interrupted : Bool) (s : Driver) (val : Parsed)
      → Resized kmalloc interrupted s val (buf_size_set kmalloc interrupted s val)
  unfolding buf_size_set
  buf_size_set-Resized interrupted s (bad code) = unread code refl refl
  buf_size_set-Resized interrupted s (int z) =
      elim (Bool-cases (ltb_ℤ z (pos 16) || ltb_ℤ (pos 65536) z)) [
        | inl out ↦ rw out (refused z refl (outside-IsSize z out) refl)
        | inr within ↦
            rw within (in_time interrupted (inside-IsSize z within).0 (inside-IsSize z within).1)
      ]
    where
      in_time :
          (b : Bool)
          → z ≡ pos (pos_part z)
          → IsSize (pos_part z)
          → Resized kmalloc b s (int z) (
              if b then (err erestartsys, s) else with_memory (kmalloc (pos_part z)) s (pos_part z))
      in_time true e size = stopped (pos_part z) (ap int e) size refl refl
      in_time false e size =
          subst (λ v. Resized kmalloc false s v (with_memory (kmalloc (pos_part z)) s (pos_part z)))
            (ap int (sym e)) (over s (pos_part z) (kmalloc (pos_part z)) refl size)
