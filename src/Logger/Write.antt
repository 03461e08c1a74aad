-- ===== src/Logger/Write.antt =====
-- 12_error_handling/logger.c: the text of a message, and how one is written. What the formatting of the
-- caller's arguments, of the time and of the line number gives, the names in the stack, and whether
-- there is memory are parameters.
use otus_c_prog.Common.{
  ℕ, ◌+◌, ◌==◌, ◌≡◌, ◌&&◌, ◌||◌, not, Bool, true, false, if◌then◌else◌, List, [], ◌∷◌, ◌++◌, length,
  Option, none, some, arith, length-append,
}
use mathlib.Core.Path.{subst}
use otus_c_prog.Common.Int.{ℤ, pos, negsuc}
use otus_c_prog.Common.Text.{codes}
use otus_c_prog.Logger.Levels.{log_error, log_warning, log_info, log_debug}
use otus_c_prog.Logger.State.{CommonFile, no_file, std_err, opened}

unfoldable pub level_str : ℤ → List ℕ
level_str (pos level) =
    if level == log_error
    then codes "ERROR"
    else if level == log_warning
    then codes "WARNING"
    else if level == log_info
    then codes "INFO"
    else if level == log_debug
    then codes "DEBUG"
    else codes "UNKNOWN"
level_str (negsuc level) = codes "UNKNOWN"

unfoldable pub is_level : ℤ → ℕ → Bool
is_level (pos level) n = level == n
is_level (negsuc level) n = false

-- The place of a call, with its line in decimal.
pub record Place : Type 0 where
  pub file : List ℕ
  pub line : List ℕ
  pub func : List ℕ

-- format_log_message, with time_buf and user_msg, NULL without memory.
unfoldable pub format_log_message : ℤ → Place → List ℕ → Option (List ℕ) → Option (List ℕ)
format_log_message level place time_buf none = none
format_log_message level place time_buf (some user_msg) =
    let start = time_buf ++ codes " [" ++ level_str level ++ codes "] " in
    if is_level level log_info
    then some (start ++ user_msg)
    else some (
        start
        ++ place.file
        ++ codes ":"
        ++ place.line
        ++ codes " "
        ++ place.func
        ++ codes "(): "
        ++ user_msg)

-- The heading of a stack, in UTF-8.
abbrev pub stack_heading : List ℕ
stack_heading =
    10 ∷ 208 ∷ 161 ∷ 209 ∷ 130 ∷ 208 ∷ 181 ∷ 208 ∷ 186 ∷ 32 ∷ 208 ∷ 178 ∷ 209 ∷ 139 ∷ 208 ∷ 183
    ∷ 208 ∷ 190 ∷ 208 ∷ 178 ∷ 208 ∷ 190 ∷ 208 ∷ 178 ∷ 58 ∷ 10 ∷ []

abbrev pub stack_line : List ℕ → List ℕ
stack_line symbol = codes "  " ++ symbol ++ (10 ∷ [])

-- The first loop of get_stack_trace_string: the lengths.
unfoldable pub total_len : ℕ → List (List ℕ) → ℕ
total_len len [] = len
total_len len (symbol ∷ symbols) = total_len (len + length (stack_line symbol)) symbols

-- The second loop: the bytes.
unfoldable pub print_symbols : List (List ℕ) → List ℕ
print_symbols [] = []
print_symbols (symbol ∷ symbols) = stack_line symbol ++ print_symbols symbols

-- The text, and how much is allocated for it.
pub record Allocated : Type 0 where
  pub size : ℕ
  pub text : List ℕ

-- get_stack_trace_string with what backtrace_symbols returns and whether malloc succeeds.
unfoldable pub get_stack_trace_string : Option (List (List ℕ)) → Bool → Option Allocated
get_stack_trace_string none memory = none
get_stack_trace_string (some symbols) memory =
    if memory
    then some (record {
      size = total_len (length stack_heading) symbols + 1;
      text = stack_heading ++ print_symbols symbols;
    })
    else none

pub data Stream : Type 0 where
  to_stdout : Stream
  to_file : Stream

unfoldable pub has_return : List ℕ → Bool
has_return [] = false
has_return (c ∷ text) = let rest = has_return text in c == 13 || rest

unfoldable pub is_std_err : CommonFile → Bool
is_std_err no_file = false
is_std_err std_err = true
is_std_err (opened name) = false

unfoldable pub with_stack : List ℕ → Option Allocated → List ℕ
with_stack text none = text ++ (10 ∷ [])
with_stack text (some stack) = text ++ stack.text ++ (10 ∷ [])

-- write_single_log_message with a file and a text: where the bytes go, and which. The last argument
-- is whether asprintf succeeds.
unfoldable pub write_single_log_message :
    CommonFile → ℤ → ℤ → List ℕ → Option Allocated → Bool → Option (Stream × List ℕ)
write_single_log_message common_file current_level level text stack memory =
    if not memory
    then none
    else if is_level level log_info && is_std_err common_file
    then some (to_stdout, if has_return text then text else text ++ (10 ∷ []))
    else if is_level current_level log_debug
    then some (to_file, with_stack text stack)
    else some (to_file, text ++ (10 ∷ []))

length-print_symbols :
    (len : ℕ) (symbols : List (List ℕ))
    → total_len len symbols ≡ len + length (print_symbols symbols)
unfolding total_len print_symbols
length-print_symbols len [] = omega arith
length-print_symbols len (symbol ∷ symbols) = omega (
  arith,
  length-print_symbols (len + length (stack_line symbol)) symbols,
  length-append (stack_line symbol) (print_symbols symbols),
)

-- Whatever names the stack has, the text that get_stack_trace_string writes fills the block that it
-- has measured before: the bytes and the closing zero, no more and no less.
pub get_stack_trace_string-fits :
    (symbols : Option (List (List ℕ))) (memory : Bool) (trace : Allocated)
    → get_stack_trace_string symbols memory ≡ some trace
    → length trace.text + 1 ≡ trace.size
unfolding get_stack_trace_string
get_stack_trace_string-fits none memory trace e = cc
get_stack_trace_string-fits (some symbols) false trace e = cc
get_stack_trace_string-fits (some symbols) true trace e =
    let made : Allocated = record {
      size = total_len (length stack_heading) symbols + 1;
      text = stack_heading ++ print_symbols symbols;
    } in
    let same_trace : made ≡ trace = cc in
    subst (λ (t : Allocated). length t.text + 1 ≡ t.size) same_trace
      (omega (
        arith,
        length-append stack_heading (print_symbols symbols),
        length-print_symbols (length stack_heading) symbols,
      ))
