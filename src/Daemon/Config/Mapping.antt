-- ===== src/Daemon/Config/Mapping.antt =====
-- 15_daemon/config.c: what load_config makes of a file that is one flat mapping.
use otus_c_prog.Common.{
  ℕ, ◌≡◌, refl, ap, ◌∙◌, inl, inr, Bool, true, false, not, ◌&&◌, ◌||◌, Option, none, some, List, [],
  ◌∷◌, if◌then◌else◌, arith, Bool-cases,
}
use otus_c_prog.Common.Text.{codes, same, same-eq}
use otus_c_prog.Daemon.Config.{
  Config, Events, scalar, other, stream_end, Loading, empty, at_start, strdup, take_scalar, load,
  checked, load_config,
}

-- The events of `key: value` lines, before other events.
abbrev pub lines_before : List (List ℕ × List ℕ) → Events → Events
lines_before [] rest = rest
lines_before ((key, value) ∷ lines) rest = scalar key (scalar value (lines_before lines rest))

-- Stream, document and mapping begin, then the lines, then these end.
abbrev pub mapping : List (List ℕ × List ℕ) → Events
mapping lines = other (other (other (lines_before lines (other (other stream_end)))))

-- The value of the last line with a key, or what there was before.
abbrev pub last_value : Option (List ℕ) → List ℕ → List (List ℕ × List ℕ) → Option (List ℕ)
last_value before name [] = before
last_value before name ((key, value) ∷ lines) =
    last_value (if same key name then some value else before) name lines

abbrev pub is_option : List ℕ → Bool
is_option text =
    same text (codes "file_path") || same text (codes "socket_path") || same text (codes "pid_path")

-- No line with another key has the name of an option as its value.
abbrev pub Plain : List (List ℕ × List ℕ) → Type 0
Plain [] = Unit
Plain ((key, value) ∷ lines) = ((is_option key || not (is_option value)) ≡ true) × Plain lines

-- All three paths, or no configuration.
abbrev pub all_three : Option (List ℕ) → Option (List ℕ) → Option (List ℕ) → Option Config
all_three (some file) (some socket) (some pid) =
    some (record { file_path = some file; socket_path = some socket; pid_path = some pid })
all_three _ _ _ = none

record Idle (l : Loading) : Type 0 where
  no_file : l.in_file_path ≡ false
  no_socket : l.in_socket_path ≡ false
  no_pid : l.in_pid_path ≡ false

abbrev with_line : Config → List ℕ → List ℕ → Config
with_line c key value = record {
  file_path = if same key (codes "file_path") then some value else c.file_path;
  socket_path = if same key (codes "socket_path") then some value else c.socket_path;
  pid_path = if same key (codes "pid_path") then some value else c.pid_path;
}

with_lines : Config → List (List ℕ × List ℕ) → Config
with_lines c [] = c
with_lines c ((key, value) ∷ lines) = with_lines (with_line c key value) lines

one_text : (t a b : List ℕ) → same a b ≡ false → (same t a && same t b) ≡ false
one_text t a b h = elim (Bool-cases (same t a)) [
  | inl e ↦ rw e (ap (λ s. same s b) (same-eq t a e) ∙ h)
  | inr e ↦ rw e
]

-- A text is the name of one option at most.
one_option :
    (t : List ℕ)
    → ((same t (codes "file_path") && same t (codes "socket_path")) ≡ false)
      × ((same t (codes "file_path") && same t (codes "pid_path")) ≡ false)
      × ((same t (codes "socket_path") && same t (codes "pid_path")) ≡ false)
unfolding same
one_option t = (one_text t _ _ refl, one_text t _ _ refl, one_text t _ _ refl)

checked-all_three :
    (f s p : Option (List ℕ))
    → checked (some (record { file_path = f; socket_path = s; pid_path = p })) ≡ all_three f s p
unfolding checked
checked-all_three none s p = refl
checked-all_three (some f) none p = refl
checked-all_three (some f) (some s) none = refl
checked-all_three (some f) (some s) (some p) = refl

with_lines-last_value :
    (c : Config) (lines : List (List ℕ × List ℕ))
    → with_lines c lines ≡ record {
      file_path = last_value c.file_path (codes "file_path") lines;
      socket_path = last_value c.socket_path (codes "socket_path") lines;
      pid_path = last_value c.pid_path (codes "pid_path") lines;
    }
unfolding with_lines
with_lines-last_value c [] = refl
with_lines-last_value c ((key, value) ∷ lines) = with_lines-last_value (with_line c key value) lines

module _ (memory : ℕ → Bool) (room : (n : ℕ) → memory n ≡ true) where
  take_line :
      (l : Loading) (key value : List ℕ)
      → Idle l
      → (is_option key || not (is_option value)) ≡ true
      → Idle (take_scalar memory (take_scalar memory l key) value)
        × ((take_scalar memory (take_scalar memory l key) value).config
            ≡ with_line l.config key value)
  unfolding take_scalar strdup
  take_line l key value i p = ground (arith, one_option key, room l.copies)

  -- The loop over the lines ends as it began, with the lines in the configuration.
  load_lines :
      (l : Loading) (lines : List (List ℕ × List ℕ)) (rest : Events)
      → Idle l
      → Plain lines
      → (l' : Loading) × (l'.config ≡ with_lines l.config lines)
        × (load memory l (lines_before lines rest) ≡ load memory l' rest)
  unfolding load with_lines
  load_lines l [] rest i p = (l, refl, refl)
  load_lines l ((key, value) ∷ lines) rest i p =
      let (idle, e) = take_line l key value i p.0 in
      let (l', c, done) =
        load_lines (take_scalar memory (take_scalar memory l key) value) lines rest idle p.1 in
      (l', c ∙ ap (λ t. with_lines t lines) e, done)

  -- Where there is memory, a file of lines `key: value`, of which no line with another key has the
  -- name of an option as its value, gives for each of the three paths the value of its last line,
  -- and no configuration if a path has no line.
  pub load_config-mapping :
      (lines : List (List ℕ × List ℕ))
      → Plain lines
      → load_config memory true (some (mapping lines))
        ≡ all_three
            (last_value none (codes "file_path") lines)
            (last_value none (codes "socket_path") lines)
            (last_value none (codes "pid_path") lines)
  unfolding load_config load at_start
  load_config-mapping lines p =
      let (l, c, e) =
        load_lines at_start lines (other (other stream_end))
          (record { no_file = refl; no_socket = refl; no_pid = refl }) p in
      let whole = c ∙ with_lines-last_value empty lines in
      ap (checked) (e ∙ ap some whole) ∙ checked-all_three _ _ _
