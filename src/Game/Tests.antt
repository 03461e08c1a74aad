-- ===== src/Game/Tests.antt =====
-- 35_game/main.c: the beginning of a game.
use otus_c_prog.Common.{
  ℕ, ◌+◌, ◌≡◌, ◌⊎◌, refl, not, Bool, true, false, if◌then◌else◌, List, [], ◌∷◌, length, get_or,
  arith,
}
use otus_c_prog.Common.Int.{pos}
use otus_c_prog.Game.{
  Game, playing, char_x, char_o, all_same, check_row_and_col, check_diagonals, check_winner,
  is_board_full, col_at, row_at, put_mark, handle_board_click, reset_game, Event, timer,
  mouse_button_down, on_button, click, handle_event, redraw_if, is_quit, main_loop, started,
}
use otus_c_prog.Game.Lines.{all_lines, holds_any, check_winner-holds_any}
use otus_c_prog.Game.Fair.{count, mark_of}
use otus_c_prog.Game.Played.{main_loop-fair}

-- A click on "Играть", and one on the middle.
abbrev opening : List (Event × Bool)
opening =
    (mouse_button_down 1 (pos 400) (pos 320), true)
    ∷ (mouse_button_down 1 (pos 400) (pos 300), false)
    ∷ (timer, true)
    ∷ []

middle : (main_loop started opening).board ≡ 0 ∷ 0 ∷ 0 ∷ 0 ∷ 88 ∷ 0 ∷ 0 ∷ 0 ∷ 0 ∷ []
unfolding main_loop started handle_event click on_button reset_game redraw_if is_quit
    handle_board_click put_mark col_at row_at check_winner check_row_and_col check_diagonals
    all_same is_board_full
middle = refl

main_loop-fair_example :
    (length (main_loop started opening).board ≡ 9)
    × ((i : ℕ)
        → (get_or (main_loop started opening).board i 0 ≡ 0)
          ⊎ ((get_or (main_loop started opening).board i 0 ≡ char_x)
              ⊎ (get_or (main_loop started opening).board i 0 ≡ char_o)))
    × (count char_x (main_loop started opening).board
        ≡ count char_o (main_loop started opening).board
          + (if (main_loop started opening).player_x_turn then 0 else 1))
    × ((check_winner (main_loop started opening).board ≡ 0)
        ⊎ (check_winner (main_loop started opening).board
            ≡ mark_of (not (main_loop started opening).player_x_turn)))
    × (holds_any
          (mark_of (main_loop started opening).player_x_turn)
          (main_loop started opening).board
          all_lines
        ≡ false)
main_loop-fair_example = main_loop-fair opening

abbrev won_board : List ℕ
won_board = 79 ∷ 79 ∷ 88 ∷ 0 ∷ 88 ∷ 0 ∷ 88 ∷ 0 ∷ 0 ∷ []

held_line :
    (check_winner won_board ≡ 88 → holds_any 88 won_board all_lines ≡ true)
    × (check_winner won_board ≡ 0 → holds_any 88 won_board all_lines ≡ false)
held_line = check_winner-holds_any won_board 88 (omega arith)

abbrev begun : Game
begun = record {
  board = 0 ∷ 0 ∷ 0 ∷ 0 ∷ 88 ∷ 0 ∷ 0 ∷ 0 ∷ 0 ∷ [];
  player_x_turn = false;
  state = playing;
  redraw = false;
  pictures = [];
}
