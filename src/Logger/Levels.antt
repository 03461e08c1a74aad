-- ===== src/Logger/Levels.antt =====
-- 12_error_handling/logger.c: the levels, and the variables of the environment.
use otus_c_prog.Common.{
  ℕ, ◌+◌, ◌-◌, ◌%◌, ◌^◌, ◌==◌, ◌≡◌, refl, ltb, leb, ◌&&◌, ◌||◌, Bool, true, false, if◌then◌else◌,
  List, [], ◌∷◌, ◌++◌, map, take, Option, none, some, arith, Bool-cases, inl, inr,
}
use otus_c_prog.Common.Int.{ℤ, pos, negsuc}
use otus_c_prog.Common.Text.{codes, same}

-- `enum logger_level`
abbrev pub log_error : ℕ
log_error = 3

abbrev pub log_warning : ℕ
log_warning = 4

abbrev pub log_info : ℕ
log_info = 6

abbrev pub log_debug : ℕ
log_debug = 7

unfoldable pub is_valid_level : ℤ → Bool
is_valid_level (pos level) =
    level == log_error || level == log_warning || level == log_info || level == log_debug
is_valid_level (negsuc level) = false

-- `(int)val`, where long is wider: the low 32 bits, with their sign.
unfoldable pub signed : ℕ → ℤ
signed low = if ltb low (2 ^ 31) then pos low else negsuc (2 ^ 32 - 1 - low)

unfoldable pub to_int : ℤ → ℤ
to_int (pos val) = signed (val % 2 ^ 32)
to_int (negsuc val) = signed (2 ^ 32 - 1 - val % 2 ^ 32)

-- `*endptr == '\0'`
abbrev pub at_end : List ℕ → Bool
at_end [] = true
at_end (c ∷ s) = c == 0

-- The value and the rest of the text that strtol gives in base 10.
unfoldable pub from_number : ℤ × List ℕ → ℤ
from_number (val, rest) =
    if at_end rest && is_valid_level (to_int val) then to_int val else pos log_error

unfoldable pub level_from_string : (List ℕ → ℤ × List ℕ) → Option (List ℕ) → ℤ
level_from_string strtol none = pos log_error
level_from_string strtol (some str) =
    if same str (codes "error") || same str (codes "ERROR")
    then pos log_error
    else if same str (codes "warning") || same str (codes "WARNING")
    then pos log_warning
    else if same str (codes "info") || same str (codes "INFO")
    then pos log_info
    else if same str (codes "debug") || same str (codes "DEBUG")
    then pos log_debug
    else from_number (strtol str)

-- tolower, of the C locale.
unfoldable pub to_lower : ℕ → ℕ
to_lower c = if leb 65 c && leb c 90 then c + 32 else c

-- `strcasecmp(a, b) == 0`
unfoldable pub same_letters : List ℕ → List ℕ → Bool
same_letters a b = same (map to_lower a) (map to_lower b)

-- `buffer` has room for 255 characters.
unfoldable pub make_env_name : List ℕ → List ℕ → List ℕ
make_env_name env_prefix suffix = take 255 (env_prefix ++ suffix)

unfoldable pub is_switch_on : Option (List ℕ) → Bool
is_switch_on none = false
is_switch_on (some env) = same_letters env (codes "1") || same_letters env (codes "true")

from_number-valid : (read : ℤ × List ℕ) → is_valid_level (from_number read) ≡ true
unfolding from_number is_valid_level
from_number-valid (val, rest) = elim (Bool-cases (at_end rest)) [
  | inl e ↦ elim (Bool-cases (is_valid_level (to_int val))) [
    | inl f ↦ rw (e, f) f
    | inr f ↦ rw (e, f)
  ]
  | inr e ↦ rw e
]

-- Whatever LOG_LEVEL holds, the level is one of the four.
pub level_from_string-valid :
    (strtol : List ℕ → ℤ × List ℕ) (str : Option (List ℕ))
    → is_valid_level (level_from_string strtol str) ≡ true
unfolding level_from_string is_valid_level
level_from_string-valid strtol none = refl
level_from_string-valid strtol (some str) = ground (arith, from_number-valid (strtol str))
