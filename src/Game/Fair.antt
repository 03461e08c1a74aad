-- ===== src/Game/Fair.antt =====
-- 35_game/main.c: a board that a fair game can have, and a mark on it.
use otus_c_prog.Common.{
  ℕ, zero, suc, ◌+◌, ◌<◌, ◌==◌, ◌≡◌, ◌≢◌, ◌⊎◌, refl, ◌∙◌, not, Bool, true, false, if◌then◌else◌,
  List, [], ◌∷◌, length, get_or, set, arith, get_or-set, length-set,
}
use otus_c_prog.Game.{char_x, char_o, check_winner}
use otus_c_prog.Game.Lines.{all_lines, holds_any, check_winner-holds_any, holds_any-set}

-- How many cells have the mark.
unfoldable pub count : ℕ → List ℕ → ℕ
count char [] = 0
count char (c ∷ board) = let rest = count char board in if c == char then suc rest else rest

abbrev pub mark_of : Bool → ℕ
mark_of player_x_turn = if player_x_turn then char_x else char_o

-- Nine cells, each empty or with a mark of one of the players, who take turns, and the player to move
-- holds no line.
pub record Fair (board : List ℕ) (player_x_turn : Bool) : Type 0 where
  pub nine : length board ≡ 9
  pub marks :
      (i : ℕ) → (get_or board i 0 ≡ 0) ⊎ ((get_or board i 0 ≡ char_x) ⊎ (get_or board i 0 ≡ char_o))
  pub turns : count char_x board ≡ count char_o board + (if player_x_turn then 0 else 1)
  pub no_line : holds_any (mark_of player_x_turn) board all_lines ≡ false

count-set :
    (char mark i : ℕ) (board : List ℕ)
    → i < length board
    → get_or board i 0 ≡ 0
    → char ≢ 0
    → count char (set board i mark) ≡ count char board + (if mark == char then 1 else 0)
unfolding count
count-set char mark i [] inside empty some_mark = absurd (omega arith)
count-set char mark zero (c ∷ board) inside empty some_mark = ground arith
count-set char mark (suc i) (c ∷ board) inside empty some_mark =
    ground (arith, count-set char mark i board)

other_player : (x_turn : Bool) → (mark_of x_turn == mark_of (not x_turn)) ≡ false
other_player true = refl
other_player false = refl

mark_of-ne : (x_turn : Bool) → mark_of x_turn ≢ 0
mark_of-ne true = omega arith
mark_of-ne false = omega arith

marks_after :
    (board : List ℕ) (i j : ℕ) (x_turn : Bool)
    → i < length board
    → (get_or board j 0 ≡ 0) ⊎ ((get_or board j 0 ≡ char_x) ⊎ (get_or board j 0 ≡ char_o))
    → (get_or (set board i (mark_of x_turn)) j 0 ≡ 0)
      ⊎ ((get_or (set board i (mark_of x_turn)) j 0 ≡ char_x)
          ⊎ (get_or (set board i (mark_of x_turn)) j 0 ≡ char_o))
marks_after board i j true inside before = ground (arith, get_or-set board i j char_x 0 inside)
marks_after board i j false inside before = ground (arith, get_or-set board i j char_o 0 inside)

turns_after :
    (board : List ℕ) (i : ℕ) (x_turn : Bool)
    → i < length board
    → get_or board i 0 ≡ 0
    → count char_x board ≡ count char_o board + (if x_turn then 0 else 1)
    → count char_x (set board i (mark_of x_turn))
      ≡ count char_o (set board i (mark_of x_turn)) + (if not x_turn then 0 else 1)
turns_after board i true inside empty before =
    let of_x = count-set char_x char_x i board inside empty (omega arith) in
    let of_o = count-set char_o char_x i board inside empty (omega arith) in
    omega (arith, of_x, of_o, before)
turns_after board i false inside empty before =
    let of_x = count-set char_x char_o i board inside empty (omega arith) in
    let of_o = count-set char_o char_o i board inside empty (omega arith) in
    omega (arith, of_x, of_o, before)

-- A mark on an empty cell of a game that nobody has won.
pub marked :
    (board : List ℕ) (i : ℕ) (x_turn : Bool)
    → Fair board x_turn
    → check_winner board ≡ 0
    → i < 9
    → get_or board i 0 ≡ 0
    → Fair (set board i (mark_of x_turn)) (not x_turn)
marked board i x_turn fair unwon i_lt empty =
    let inside : i < length board = omega (arith, fair.nine) in
    let other = mark_of (not x_turn) in
    let no_line = (check_winner-holds_any board other (mark_of-ne (not x_turn))).1 unwon in
    record {
      nine = length-set board i (mark_of x_turn) ∙ fair.nine;
      marks = λ j. marks_after board i j x_turn inside (fair.marks j);
      turns = turns_after board i x_turn inside empty fair.turns;
      no_line =
          holds_any-set other (mark_of x_turn) i board all_lines inside (other_player x_turn)
            no_line;
    }
