-- ===== src/Logger/Slots.antt =====
-- 12_error_handling/logger.c: the array of asynchronous loggers.
use otus_c_prog.Common.{
  ℕ, ◌<◌, ◌==◌, ◌≡◌, leb, refl, sym, ap, ◌∙◌, ◌⊎◌, inl, inr, ◌||◌, Bool, true, false, if◌then◌else◌,
  List, [], ◌∷◌, length, get_or, set, Option, none, some, arith, Bool-cases, length-set, get_or-set,
}
use mathlib.Core.Path.{subst}
use mathlib.Core.Bool.{true≢false}
use otus_c_prog.Common.Int.{pos}
use otus_c_prog.Logger.Levels.{is_valid_level}
use otus_c_prog.Logger.State.{
  System, AsyncSlot, no_logger, not_empty, suffix_of, create_async_logger, created_slot,
  create_if_named, valid_levels, get_env_with_prefix, create_loggers, is_file, is_open,
  destroy_async_logger, destroy_loggers,
}

abbrev pub logger_at : List AsyncSlot → ℕ → AsyncSlot
logger_at loggers level = get_or loggers level no_logger

unfoldable pub member : ℕ → List ℕ → Bool
member n [] = false
member n (k ∷ ks) = let rest = member n ks in k == n || rest

-- The indices are those of the array.
unfoldable pub Inside : ℕ → List ℕ → Type 0
Inside n [] = Unit
Inside n (k ∷ ks) = (k < n) × Inside n ks

pub set_at :
    (loggers : List AsyncSlot) (level other : ℕ) (logger : AsyncSlot)
    → level < length loggers
    → logger_at (set loggers level logger) other
      ≡ (if level == other then logger else logger_at loggers other)
set_at loggers level other logger inside = get_or-set loggers level other logger no_logger inside

-- A logger that is open after the loop of logger_shutdown was so before, and is none of the levels.
destroyed_closed : (logger : AsyncSlot) → is_open (destroy_async_logger logger) ≡ false
unfolding destroy_async_logger is_open is_file
destroyed_closed logger = elim (Bool-cases (is_file logger.file)) [
  | inl e ↦ rw e
  | inr e ↦ ground (arith, e)
]

pub open_after :
    (levels : List ℕ) (loggers : List AsyncSlot) (level : ℕ)
    → Inside (length loggers) levels
    → is_open (logger_at (destroy_loggers levels loggers) level) ≡ true
    → (is_open (logger_at loggers level) ≡ true) × (member level levels ≡ false)
unfolding destroy_loggers Inside member
open_after [] loggers level inside still = (still, refl)
open_after (k ∷ levels) loggers level inside still =
    let logger = destroy_async_logger (logger_at loggers k) in
    let len = length-set loggers k logger in
    let (before, apart) =
      open_after levels (set loggers k logger) level
        (subst (λ n. Inside n levels) (sym len) inside.1) still in
    let here = set_at loggers k level logger inside.0 in
    elim (Bool-cases (k == level)) [
      | inl e ↦
          let shut = ap is_open (rw e at here) ∙ destroyed_closed (logger_at loggers k) in
          absurd (true≢false (sym before ∙ shut))
      | inr e ↦ (sym (ap is_open (rw e at here)) ∙ before, rw e apart)
    ]

pub length-create_if_named :
    (sys : System) (loggers : List AsyncSlot) (k : ℕ) (filename : Option (List ℕ))
    → length (create_if_named sys loggers k filename) ≡ length loggers
unfolding create_if_named create_async_logger
length-create_if_named sys loggers k none = refl
length-create_if_named sys loggers k (some name) = elim (Bool-cases (leb (length loggers) k)) [
  | inl e ↦ rw e
  | inr e ↦ rw e (length-set loggers k (created_slot sys k name))
]

pub created_apart :
    (sys : System) (loggers : List AsyncSlot) (k level : ℕ) (filename : Option (List ℕ))
    → k < length loggers
    → (k == level) ≡ false
    → logger_at (create_if_named sys loggers k filename) level ≡ logger_at loggers level
unfolding create_if_named create_async_logger
created_apart sys loggers k level none inside ne = refl
created_apart sys loggers k level (some name) inside ne =
    let fits : leb (length loggers) k ≡ false = ground (arith, inside) in
    let here = set_at loggers k level (created_slot sys k name) inside in rw fits (rw ne at here)

-- A logger that is open after the loop of do_init was so before, or is one of the levels.
pub open_created :
    (sys : System) (env_prefix levels : List ℕ) (loggers : List AsyncSlot) (level : ℕ)
    → Inside (length loggers) levels
    → is_open (logger_at (create_loggers sys env_prefix levels loggers) level) ≡ true
    → (is_open (logger_at loggers level) ≡ true) ⊎ (member level levels ≡ true)
unfolding create_loggers Inside member
open_created sys env_prefix [] loggers level inside still = inl still
open_created sys env_prefix (k ∷ levels) loggers level inside still =
    let filename = not_empty (get_env_with_prefix sys env_prefix (suffix_of k)) in
    let created = create_if_named sys loggers k filename in
    let len = length-create_if_named sys loggers k filename in
    elim (Bool-cases (k == level)) [
      | inl e ↦ inr (rw e)
      | inr e ↦
          let apart = created_apart sys loggers k level filename inside.0 e in
          elim (open_created sys env_prefix levels created level
            (subst (λ n. Inside n levels) (sym len) inside.1) still) [
              | inl before ↦ inl (ap is_open (sym apart) ∙ before)
              | inr among ↦ inr (rw e among)
            ]
    ]

pub length-create_loggers :
    (sys : System) (env_prefix levels : List ℕ) (loggers : List AsyncSlot)
    → length (create_loggers sys env_prefix levels loggers) ≡ length loggers
unfolding create_loggers
length-create_loggers sys env_prefix [] loggers = refl
length-create_loggers sys env_prefix (k ∷ levels) loggers =
    length-create_loggers sys env_prefix levels _ ∙ length-create_if_named sys loggers k _

pub length-destroy_loggers :
    (levels : List ℕ) (loggers : List AsyncSlot)
    → length (destroy_loggers levels loggers) ≡ length loggers
unfolding destroy_loggers
length-destroy_loggers [] loggers = refl
length-destroy_loggers (k ∷ levels) loggers =
    length-destroy_loggers levels _ ∙ length-set loggers k _

pub levels_fit : (n : ℕ) → n ≡ 8 → Inside n valid_levels
unfolding Inside
levels_fit n e = (omega (arith, e), (omega (arith, e), (omega (arith, e), (omega (arith, e), tt))))

pub valid_member :
    (level : ℕ) → is_valid_level (pos level) ≡ true → member level valid_levels ≡ true
unfolding is_valid_level member
valid_member level h = ground (arith, h)
