-- ===== src/Game/Lines.antt =====
-- 35_game/main.c: the eight lines of the board, and what check_winner finds of them.
use otus_c_prog.Common.{
  ℕ, ◌<◌, ◌==◌, ◌≡◌, ◌≢◌, refl, sym, ◌∙◌, ◌&&◌, ◌||◌, Bool, true, false, if◌then◌else◌, List, [],
  ◌∷◌, length, get_or, set, arith, get_or-set,
}
use otus_c_prog.Game.{all_same, check_row_and_col, check_diagonals, check_winner}

abbrev pub Line : Type 0
Line = ℕ × (ℕ × ℕ)

-- The rows, the columns and the diagonals, as indices in the board.
abbrev pub all_lines : List Line
all_lines =
    (0, (1, 2))
    ∷ (0, (3, 6))
    ∷ (3, (4, 5))
    ∷ (1, (4, 7))
    ∷ (6, (7, 8))
    ∷ (2, (5, 8))
    ∷ (0, (4, 8))
    ∷ (2, (4, 6))
    ∷ []

-- Whether a player holds a line.
unfoldable pub holds_line : ℕ → List ℕ → Line → Bool
holds_line player board (a, (b, c)) =
    (get_or board a 0 == player) && (get_or board b 0 == player) && (get_or board c 0 == player)

unfoldable pub holds_any : ℕ → List ℕ → List Line → Bool
holds_any player board [] = false
holds_any player board (line ∷ lines) =
    let rest = holds_any player board lines in holds_line player board line || rest

first_full : List ℕ → List Line → ℕ
first_full board [] = 0
first_full board ((a, (b, c)) ∷ lines) =
    let rest = first_full board lines in
    if all_same (get_or board a 0) (get_or board b 0) (get_or board c 0)
    then get_or board a 0
    else rest

check_winner-first_full : (board : List ℕ) → check_winner board ≡ first_full board all_lines
unfolding check_winner check_row_and_col check_diagonals first_full
check_winner-first_full board = refl

none_full :
    (player : ℕ) (board : List ℕ) (lines : List Line)
    → player ≢ 0
    → first_full board lines ≡ 0
    → holds_any player board lines ≡ false
unfolding first_full holds_any holds_line all_same
none_full player board [] some_player e = refl
none_full player board ((a, (b, c)) ∷ lines) some_player e =
    ground (arith, none_full player board lines some_player)

first_held :
    (player : ℕ) (board : List ℕ) (lines : List Line)
    → player ≢ 0
    → first_full board lines ≡ player
    → holds_any player board lines ≡ true
unfolding first_full holds_any holds_line all_same
first_held player board [] some_player e = absurd (some_player (sym e))
first_held player board ((a, (b, c)) ∷ lines) some_player e =
    ground (arith, first_held player board lines some_player)

-- check_winner gives a player that holds a line, and gives 0 only if no player holds one.
pub check_winner-holds_any :
    (board : List ℕ) (player : ℕ)
    → player ≢ 0
    → (check_winner board ≡ player → holds_any player board all_lines ≡ true)
      × (check_winner board ≡ 0 → holds_any player board all_lines ≡ false)
check_winner-holds_any board player some_player =
    let first = check_winner-first_full board in
    (
      λ e. first_held player board all_lines some_player (sym first ∙ e),
      λ e. none_full player board all_lines some_player (sym first ∙ e),
    )

-- A mark of another player makes no line.
pub holds_any-set :
    (player other i : ℕ) (board : List ℕ) (lines : List Line)
    → i < length board
    → (other == player) ≡ false
    → holds_any player board lines ≡ false
    → holds_any player (set board i other) lines ≡ false
unfolding holds_any holds_line
holds_any-set player other i board [] inside ne e = refl
holds_any-set player other i board ((a, (b, c)) ∷ lines) inside ne e = ground (
  arith,
  get_or-set board i a other 0 inside,
  get_or-set board i b other 0 inside,
  get_or-set board i c other 0 inside,
  holds_any-set player other i board lines inside ne,
)
