-- ===== src/Game.antt =====
-- 35_game/main.c: noughts and crosses. The events of the library and what of a picture depends on the
-- game are modelled; the board is its nine characters, row after row.
pub mod Lines
pub mod Fair
pub mod Played
pub mod Clicked
mod Tests
use otus_c_prog.Common.{
  ℕ, zero, suc, ◌+◌, ◌*◌, ◌==◌, leb, ltb, ◌&&◌, ◌||◌, not, Bool, true, false, if◌then◌else◌, List,
  [], ◌∷◌, ◌++◌, get_or, set, replicate, Option, none, some,
}
use otus_c_prog.Common.Int.{ℤ, pos, negsuc}

-- The states MENU, PLAYING and QUIT.
pub data GameState : Type 0 where
  in_menu : GameState
  playing : GameState
  quitting : GameState

pub data Message : Type 0 where
  won_by : ℕ → Message
  drawn_game : Message
  turn_of_x : Bool → Message

-- The marks of a picture with their centres.
pub record Mark : Type 0 where
  pub char : ℕ
  pub centre_x : ℕ
  pub centre_y : ℕ

pub data Picture : Type 0 where
  menu_picture : Picture
  board_picture : List Mark → Message → Picture

-- `board`, `player_x_turn`, `state`, main's `redraw`, and the pictures drawn, the last first.
pub record Game : Type 0 where
  pub board : List ℕ
  pub player_x_turn : Bool
  pub state : GameState
  pub redraw : Bool
  pub pictures : List Picture

abbrev pub char_x : ℕ
char_x = 88

abbrev pub char_o : ℕ
char_o = 79

-- `board[row][col]`
abbrev pub cell : List ℕ → ℕ → ℕ → ℕ
cell board row col = get_or board (row * 3 + col) 0

unfoldable pub all_same : ℕ → ℕ → ℕ → Bool
all_same a b c = not (a == 0) && a == b && b == c

-- One turn of the loop of check_winner, before what follows it.
unfoldable pub check_row_and_col : List ℕ → ℕ → ℕ → ℕ
check_row_and_col board i rest =
    if all_same (cell board i 0) (cell board i 1) (cell board i 2)
    then cell board i 0
    else if all_same (cell board 0 i) (cell board 1 i) (cell board 2 i)
    then cell board 0 i
    else rest

unfoldable pub check_diagonals : List ℕ → ℕ
check_diagonals board =
    if all_same (cell board 0 0) (cell board 1 1) (cell board 2 2)
    then cell board 0 0
    else if all_same (cell board 0 2) (cell board 1 1) (cell board 2 0)
    then cell board 0 2
    else 0

unfoldable pub check_winner : List ℕ → ℕ
check_winner board =
    check_row_and_col board 0
      (check_row_and_col board 1 (check_row_and_col board 2 (check_diagonals board)))

unfoldable pub is_board_full : List ℕ → Bool
is_board_full [] = true
is_board_full (c ∷ board) = let rest = is_board_full board in if c == 0 then false else rest

unfoldable pub col_at : ℕ → Option ℕ
col_at mx =
    if leb 100 mx && ltb mx 266
    then some 0
    else if leb 266 mx && ltb mx 533
    then some 1
    else if leb 533 mx && leb mx 700
    then some 2
    else none

unfoldable pub row_at : ℕ → Option ℕ
row_at my =
    if leb 100 my && ltb my 233
    then some 0
    else if leb 233 my && ltb my 366
    then some 1
    else if leb 366 my && leb my 500
    then some 2
    else none

-- The tests on an int that are false below zero.
abbrev pub unless_negative : (ℕ → Option ℕ) → ℤ → Option ℕ
unless_negative f (pos n) = f n
unless_negative f (negsuc n) = none

unfoldable pub put_mark : Game → Option ℕ → Option ℕ → Game
put_mark g none col = g
put_mark g (some row) none = g
put_mark g (some row) (some col) =
    if cell g.board row col == 0
    then record g {
      board = set g.board (row * 3 + col) (if g.player_x_turn then char_x else char_o);
      player_x_turn = not g.player_x_turn;
    }
    else g

unfoldable pub handle_board_click : Game → ℤ → ℤ → Game
handle_board_click g mx my =
    if not (check_winner g.board == 0) || is_board_full g.board
    then record g { state = in_menu }
    else put_mark g (unless_negative row_at my) (unless_negative col_at mx)

unfoldable pub reset_game : Game → Game
reset_game g = record g { board = replicate 9 0; player_x_turn = true }

-- draw_board: the centres of the cells.
abbrev pub cell_x : List ℕ
cell_x = 183 ∷ 400 ∷ 617 ∷ []

abbrev pub cell_y : List ℕ
cell_y = 167 ∷ 300 ∷ 433 ∷ []

unfoldable pub draw_cell : List ℕ → ℕ → ℕ → List Mark
draw_cell board row col =
    let char = cell board row col in
    if char == char_x || char == char_o
    then record { char = char; centre_x = get_or cell_x col 0; centre_y = get_or cell_y row 0 } ∷ []
    else []

unfoldable pub draw_row : List ℕ → ℕ → List Mark
draw_row board row = draw_cell board row 0 ++ draw_cell board row 1 ++ draw_cell board row 2

unfoldable pub message_of : List ℕ → Bool → Message
message_of board player_x_turn =
    if not (check_winner board == 0)
    then won_by (check_winner board)
    else if is_board_full board
    then drawn_game
    else turn_of_x player_x_turn

unfoldable pub draw_board : Game → Picture
draw_board g =
    board_picture (draw_row g.board 0 ++ draw_row g.board 1 ++ draw_row g.board 2)
      (message_of g.board g.player_x_turn)

-- The events that main tells apart: a key is ALLEGRO_KEY_ESCAPE or not.
pub data Event : Type 0 where
  timer : Event
  display_close : Event
  key_down : Bool → Event
  mouse_button_down : ℕ → ℤ → ℤ → Event
  other_event : Event

unfoldable pub escape : Game → GameState → Game
escape g playing = record g { state = in_menu }
escape g in_menu = record g { state = quitting }
escape g quitting = record g { state = quitting }

-- Whether a point lies on a button, of which the upper edge is given.
unfoldable pub on_button : ℕ → ℤ → ℤ → Bool
on_button top (pos mx) (pos my) = leb 350 mx && leb mx 450 && leb top my && leb my (top + 50)
on_button top mx my = false

unfoldable pub click : Game → GameState → ℤ → ℤ → Game
click g in_menu mx my =
    if on_button 300 mx my
    then record (reset_game g) { state = playing }
    else if on_button 400 mx my
    then record g { state = quitting }
    else g
click g playing mx my = handle_board_click g mx my
click g quitting mx my = g

unfoldable pub handle_event : Game → Event → Game
handle_event g timer = record g { redraw = true }
handle_event g display_close = record g { state = quitting }
handle_event g (key_down is_escape) = if is_escape then escape g g.state else g
handle_event g (mouse_button_down button mx my) = if button == 1 then click g g.state mx my else g
handle_event g other_event = g

unfoldable pub picture_of : Game → GameState → List Picture
picture_of g in_menu = menu_picture ∷ []
picture_of g playing = draw_board g ∷ []
picture_of g quitting = []

unfoldable pub redraw_if : Game → Bool → Game
redraw_if g is_queue_empty =
    if g.redraw && is_queue_empty
    then record g { redraw = false; pictures = picture_of g g.state ++ g.pictures }
    else g

unfoldable pub is_quit : GameState → Bool
is_quit in_menu = false
is_quit playing = false
is_quit quitting = true

-- main's loop over the events that it waits for, each with whether the queue is empty after it.
unfoldable pub main_loop : Game → List (Event × Bool) → Game
main_loop g [] = g
main_loop g ((event, is_queue_empty) ∷ events) =
    let rest = main_loop (redraw_if (handle_event g event) is_queue_empty) events in
    if is_quit g.state then g else rest

-- main before its loop.
unfoldable pub started : Game
started = record {
  board = replicate 9 0;
  player_x_turn = true;
  state = in_menu;
  redraw = true;
  pictures = [];
}
