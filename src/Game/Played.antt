-- ===== src/Game/Played.antt =====
-- 35_game/main.c: what holds of the board whatever is clicked.
use otus_c_prog.Common.{
  ℕ, ◌+◌, ◌*◌, ◌<◌, ◌==◌, ◌≡◌, ◌≢◌, ◌⊎◌, inl, inr, refl, ◌&&◌, ◌||◌, not, Bool, true, false,
  if◌then◌else◌, List, [], ◌∷◌, length, get_or, replicate, Option, none, some, arith, Bool-cases,
  get_or-replicate,
}
use otus_c_prog.Common.Int.{ℤ, pos, negsuc}
use otus_c_prog.Game.{
  Game, GameState, in_menu, playing, quitting, char_x, char_o, cell, check_winner, is_board_full,
  col_at, row_at, unless_negative, put_mark, handle_board_click, reset_game, Event, timer,
  display_close, key_down, mouse_button_down, other_event, escape, on_button, click, handle_event,
  redraw_if, is_quit, main_loop, started,
}
use otus_c_prog.Game.Lines.{Line, all_lines, holds_line, holds_any, check_winner-holds_any}
use otus_c_prog.Game.Fair.{count, mark_of, Fair, marked}

FairGame : Game → Type 0
FairGame g = Fair g.board g.player_x_turn

if-FairGame :
    (b : Bool) (g h : Game)
    → (b ≡ true → FairGame g)
    → (b ≡ false → FairGame h)
    → FairGame (if b then g else h)
if-FairGame true g h first second = first refl
if-FairGame false g h first second = second refl

col_at-lt : (mx : ℤ) (col : ℕ) → unless_negative col_at mx ≡ some col → col < 3
unfolding col_at
col_at-lt (pos mx) col e = ground arith
col_at-lt (negsuc mx) col e = cc

row_at-lt : (my : ℤ) (row : ℕ) → unless_negative row_at my ≡ some row → row < 3
unfolding row_at
row_at-lt (pos my) row e = ground arith
row_at-lt (negsuc my) row e = cc

put_mark-Fair :
    (g : Game) (row col : Option ℕ)
    → FairGame g
    → check_winner g.board ≡ 0
    → ((r : ℕ) → row ≡ some r → r < 3)
    → ((c : ℕ) → col ≡ some c → c < 3)
    → FairGame (put_mark g row col)
unfolding put_mark FairGame
put_mark-Fair g none col fair unwon row_lt col_lt = fair
put_mark-Fair g (some row) none fair unwon row_lt col_lt = fair
put_mark-Fair g (some row) (some col) fair unwon row_lt col_lt =
    let r = row_lt row refl in
    let c = col_lt col refl in
    if-FairGame (cell g.board row col == 0) _ g
      (λ empty.
        marked g.board (row * 3 + col) g.player_x_turn fair unwon (omega (arith, r, c))
          (ground (arith, empty)))
      (λ taken. fair)

click_Fair : (g : Game) (mx my : ℤ) → FairGame g → FairGame (handle_board_click g mx my)
unfolding handle_board_click FairGame
click_Fair g mx my fair =
    if-FairGame (not (check_winner g.board == 0) || is_board_full g.board) _ _ (λ over. fair)
      (λ going.
        put_mark-Fair g (unless_negative row_at my) (unless_negative col_at mx) fair
          (ground (arith, going)) (row_at-lt my) (col_at-lt mx))

empty_Fair : Fair (replicate 9 0) true
unfolding count holds_any holds_line
empty_Fair = record {
  nine = refl;
  marks = λ i. inl (get_or-replicate 9 i 0);
  turns = refl;
  no_line = refl;
}

escape_Fair : (g : Game) (state : GameState) → FairGame g → FairGame (escape g state)
unfolding escape FairGame
escape_Fair g in_menu fair = fair
escape_Fair g playing fair = fair
escape_Fair g quitting fair = fair

clicked_Fair :
    (g : Game) (state : GameState) (mx my : ℤ) → FairGame g → FairGame (click g state mx my)
unfolding click FairGame reset_game
clicked_Fair g in_menu mx my fair =
    if-FairGame (on_button 300 mx my) _ _ (λ play. empty_Fair)
      (λ elsewhere. if-FairGame (on_button 400 mx my) _ g (λ exit. fair) (λ nothing. fair))
clicked_Fair g playing mx my fair = click_Fair g mx my fair
clicked_Fair g quitting mx my fair = fair

event_Fair : (g : Game) (event : Event) → FairGame g → FairGame (handle_event g event)
unfolding handle_event FairGame
event_Fair g timer fair = fair
event_Fair g display_close fair = fair
event_Fair g (key_down is_escape) fair =
    if-FairGame is_escape _ g (λ yes_key. escape_Fair g g.state fair) (λ other_key. fair)
event_Fair g (mouse_button_down button mx my) fair =
    if-FairGame (button == 1) _ g (λ left. clicked_Fair g g.state mx my fair) (λ other_button. fair)
event_Fair g other_event fair = fair

redraw_Fair :
    (g : Game) (is_queue_empty : Bool) → FairGame g → FairGame (redraw_if g is_queue_empty)
unfolding redraw_if FairGame
redraw_Fair g is_queue_empty fair =
    if-FairGame (g.redraw && is_queue_empty) _ g (λ draw. fair) (λ later. fair)

main_loop_Fair :
    (g : Game) (events : List (Event × Bool)) → FairGame g → FairGame (main_loop g events)
unfolding main_loop
main_loop_Fair g [] fair = fair
main_loop_Fair g ((event, is_queue_empty) ∷ events) fair =
    if-FairGame (is_quit g.state) g _ (λ over. fair)
      (λ going.
        main_loop_Fair (redraw_if (handle_event g event) is_queue_empty) events
          (redraw_Fair (handle_event g event) is_queue_empty (event_Fair g event fair)))

-- A line that a player holds has that player's mark.
held_mark :
    (board : List ℕ) (player : ℕ) (lines : List Line)
    → holds_any player board lines ≡ true
    → (i : ℕ) × (get_or board i 0 ≡ player)
unfolding holds_any holds_line
held_mark board player [] e = cc
held_mark board player ((a, (b, c)) ∷ lines) e = elim (Bool-cases (get_or board a 0 == player)) [
  | inl here ↦ (a, ground (arith, here))
  | inr ne ↦ held_mark board player lines (ground (arith, e, ne))
]

-- A player with a line is not the one to move.
last_to_move :
    (board : List ℕ) (player : ℕ) (x_turn : Bool)
    → (player ≡ char_x) ⊎ (player ≡ char_o)
    → holds_any (mark_of x_turn) board all_lines ≡ false
    → holds_any player board all_lines ≡ true
    → player ≡ mark_of (not x_turn)
last_to_move board player true (inl x) no_line line = absurd (cc)
last_to_move board player true (inr o) no_line line = o
last_to_move board player false (inl x) no_line line = x
last_to_move board player false (inr o) no_line line = absurd (cc)

winner_of :
    (board : List ℕ) (x_turn : Bool)
    → Fair board x_turn
    → (check_winner board ≡ 0) ⊎ (check_winner board ≡ mark_of (not x_turn))
winner_of board x_turn fair = elim (Bool-cases (check_winner board == 0)) [
  | inl none_yet ↦ inl (ground arith)
  | inr won ↦
      let some_player : check_winner board ≢ 0 = ground (arith, won) in
      let line = (check_winner-holds_any board (check_winner board) some_player).0 refl in
      let (i, at) = held_mark board (check_winner board) all_lines line in
      let player : (check_winner board ≡ char_x) ⊎ (check_winner board ≡ char_o) =
        ground (arith, fair.marks i, at, some_player) in
      inr (last_to_move board (check_winner board) x_turn player fair.no_line line)
]

-- Whatever events come, the board has nine cells, each empty or with the mark of a player, X has as
-- many as O, or one more when O is to move, and check_winner gives nobody or the player who moved
-- last, and then the other holds no line.
pub main_loop-fair :
    (events : List (Event × Bool))
    → (length (main_loop started events).board ≡ 9)
      × ((i : ℕ)
          → (get_or (main_loop started events).board i 0 ≡ 0)
            ⊎ ((get_or (main_loop started events).board i 0 ≡ char_x)
                ⊎ (get_or (main_loop started events).board i 0 ≡ char_o)))
      × (count char_x (main_loop started events).board
          ≡ count char_o (main_loop started events).board
            + (if (main_loop started events).player_x_turn then 0 else 1))
      × ((check_winner (main_loop started events).board ≡ 0)
          ⊎ (check_winner (main_loop started events).board
              ≡ mark_of (not (main_loop started events).player_x_turn)))
      × (holds_any
            (mark_of (main_loop started events).player_x_turn)
            (main_loop started events).board
            all_lines
          ≡ false)
unfolding FairGame started
main_loop-fair events =
    let fair = main_loop_Fair started events empty_Fair in
    let g = main_loop started events in
    (fair.nine, fair.marks, fair.turns, winner_of g.board g.player_x_turn fair, fair.no_line)
