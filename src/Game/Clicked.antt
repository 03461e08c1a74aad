-- ===== src/Game/Clicked.antt =====
-- 35_game/main.c: a click on a cell, where it is drawn.
use otus_c_prog.Common.{
  ℕ, zero, suc, ◌+◌, ◌*◌, ◌<◌, ◌≤◌, ◌==◌, ◌≡◌, ◌≢◌, refl, ◌||◌, not, Bool, true, false, List, [],
  ◌∷◌, length, get_or, set, some, arith, get_or-set,
}
use otus_c_prog.Common.Int.{pos}
use otus_c_prog.Game.{
  Game, Mark, char_x, char_o, cell, check_winner, is_board_full, col_at, row_at, put_mark,
  handle_board_click, cell_x, cell_y, draw_cell,
}
use otus_c_prog.Game.Fair.{mark_of}

-- A coordinate is at most 50 pixels from the centre, as all of a mark is.
abbrev pub Within : ℕ → ℕ → Type 0
Within centre at = (at ≤ centre + 50) × (centre ≤ at + 50)

col_at-Within : (col mx : ℕ) → col < 3 → Within (get_or cell_x col 0) mx → col_at mx ≡ some col
unfolding col_at
col_at-Within zero mx lt near = ground arith
col_at-Within (suc zero) mx lt near = ground arith
col_at-Within (suc (suc zero)) mx lt near = ground arith
col_at-Within (suc (suc (suc col))) mx lt near = absurd (omega arith)

row_at-Within : (row my : ℕ) → row < 3 → Within (get_or cell_y row 0) my → row_at my ≡ some row
unfolding row_at
row_at-Within zero my lt near = ground arith
row_at-Within (suc zero) my lt near = ground arith
row_at-Within (suc (suc zero)) my lt near = ground arith
row_at-Within (suc (suc (suc row))) my lt near = absurd (omega arith)

-- The mark of a player in a cell.
abbrev pub mark_at : Bool → ℕ → ℕ → Mark
mark_at x_turn row col = record {
  char = mark_of x_turn;
  centre_x = get_or cell_x col 0;
  centre_y = get_or cell_y row 0;
}

is_mark : (x_turn : Bool) → ((mark_of x_turn == char_x) || (mark_of x_turn == char_o)) ≡ true
is_mark true = refl
is_mark false = refl

mark_drawn :
    (board : List ℕ) (row col : ℕ) (x_turn : Bool)
    → row * 3 + col < length board
    → draw_cell (set board (row * 3 + col) (mark_of x_turn)) row col ≡ mark_at x_turn row col ∷ []
unfolding draw_cell
mark_drawn board row col x_turn inside =
    let k = row * 3 + col in
    let itself : (k == k) ≡ true = ground arith in
    let here = get_or-set board k k (mark_of x_turn) 0 inside in rw (here, itself, is_mark x_turn)

drawn_elsewhere :
    (board : List ℕ) (k r c mark : ℕ)
    → k < length board
    → k ≢ r * 3 + c
    → draw_cell (set board k mark) r c ≡ draw_cell board r c
unfolding draw_cell
drawn_elsewhere board k r c mark inside apart =
    let other : (k == r * 3 + c) ≡ false = ground (arith, apart) in
    let there = get_or-set board k (r * 3 + c) mark 0 inside in rw (there, other)

-- On a board of nine cells, in a game that is not over, a click within 50 pixels of the centre of
-- an empty cell puts the mark of the player to move there and gives the turn to the other; that
-- mark is then drawn around that centre, and every other cell is drawn as before.
pub handle_board_click-draw_cell :
    (g : Game) (row col mx my : ℕ)
    → length g.board ≡ 9
    → check_winner g.board ≡ 0
    → is_board_full g.board ≡ false
    → row < 3
    → col < 3
    → cell g.board row col ≡ 0
    → Within (get_or cell_x col 0) mx
    → Within (get_or cell_y row 0) my
    → ((handle_board_click g (pos mx) (pos my)).player_x_turn ≡ not g.player_x_turn)
      × (draw_cell (handle_board_click g (pos mx) (pos my)).board row col
          ≡ mark_at g.player_x_turn row col ∷ [])
      × ((r c : ℕ)
          → row * 3 + col ≢ r * 3 + c
          → draw_cell (handle_board_click g (pos mx) (pos my)).board r c ≡ draw_cell g.board r c)
unfolding handle_board_click put_mark
handle_board_click-draw_cell g row col mx my nine unwon room row_lt col_lt empty near_x near_y =
    let inside : row * 3 + col < length g.board = omega (arith, nine) in
    let at_row = row_at-Within row my row_lt near_y in
    let at_col = col_at-Within col mx col_lt near_x in
    rw (unwon, room, at_row, at_col, empty)
      (
        refl,
        mark_drawn g.board row col g.player_x_turn inside,
        λ r c apart.
            drawn_elsewhere g.board (row * 3 + col) r c (mark_of g.player_x_turn) inside apart,
      )
