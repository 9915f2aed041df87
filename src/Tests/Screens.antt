-- ===== src/Tests/Screens.antt =====
-- The theorems about the screens at concrete inputs: floats are whole pixels, and each frame has a
-- click on every button.
use mathlib.Core.List.{Permᴰ}
use kiv_ups.GoLib.Panic.{returned}
use kiv_ups.Prelude.{
  List, ℕ, ◌+◌, ◌-◌, ◌*◌, ◌/◌, ◌≡◌, refl, true, false, not, [], ◌∷◌, ◌++◌, some, arith, ltb, ◌==◌,
  codes, same, All,
}
use kiv_ups.Prelude.Int.{pos, ltb_ℤ}
use kiv_ups.GoLib.Decimal.{digits, format_int}
use kiv_ups.GoLib.Strconv.{parse_int}
use kiv_ups.GoLib.Trim.{trim_space}
use kiv_ups.Serde.Fields.{read_big_int}
use kiv_ups.Serde.Fields.RoundTrip.{var_int_text}
use kiv_ups.Window.Geometry.{Float32, Rectangle}
use kiv_ups.Window.Component.{TextBoxComponent, text_box, h_stack, stack, child, end, present}
use kiv_ups.Window.Layout.{depth, calculate_with, calculate}
use kiv_ups.Window.Layout.Fuel.{calculate_with-depth}
use kiv_ups.Window.Layout.Again.{calculate-calculate}
use kiv_ups.Window.Rebuild.{rebuild, at_rest}
use kiv_ups.Window.Rebuild.Restore.{IsReached, rebuild-at_rest}
use kiv_ups.Window.Draw.{Input, draw}
use kiv_ups.Window.Draw.Events.{controls, Drawn}
use kiv_ups.Window.Draw.Total.{draw-Drawn}
use kiv_ups.Client.Map.{lookup}
use kiv_ups.Client.Data.{Popup, Room, ProgCtx, evt_room_join, evt_game_action}
use kiv_ups.Client.Effects.{send_net_msg}
use kiv_ups.Client.Logic.{lobby, joining_room}
use kiv_ups.Client.Input.{lobby_input}
use kiv_ups.Client.Validate.{validate_game_action}
use kiv_ups.Client.Validate.Bets.{spelt}
use kiv_ups.Client.Screens.{TextRef, bet_amount_ref, Screen}
use kiv_ups.Client.Screens.Menu.{centered_button, build_main_menu}
use kiv_ups.Client.Screens.Rooms.{room_button}
use kiv_ups.Client.Screens.Game.{build_game_screen, build_game_screen-Permᴰ}
use kiv_ups.Client.Ui.{send_input, handle_ui_event}
use kiv_ups.Client.Ui.Actions.{IsOffered, build_game_screen-IsOffered}
use kiv_ups.Client.Ui.Joining.{join_id, join_payload, room_button_joins}
use kiv_ups.Client.Ui.Betting.{bet_sent_and_judged}
use kiv_ups.Client.Frame.{Window, texts, build_ui, frame, init_prog_ctx}
use kiv_ups.Client.Popups.{calculate_popups, update_popups}
use kiv_ups.Window.Build.{add_children}
use kiv_ups.Window.Component.{add_child, append_child}
use kiv_ups.Client.Frame.Total.{frame_returns}
use kiv_ups.Tests.Fixtures.{int_floats, int_floats-IsExactAt, seated, context}

abbrev pixels : Float32
pixels = record {
  Float = ℕ;
  plus = λ a b. a + b;
  minus = λ a b. a - b;
  times = λ a b. a * b;
  over = λ a b. a / b;
  less = ltb;
  equal = λ a b. a == b;
  ratio = λ n d. n / d;
  of_int = λ n. n;
}

abbrev all_clicked : Input ℕ
all_clicked = record {
  clicked = λ r t. true;
  mouse_pressed = true;
  mouse_in = λ r. false;
  edited = λ r t n e. (t, false);
}

abbrev area : ℕ → Rectangle ℕ
area n = record { x = 0; y = 0; width = n; height = n }

abbrev connect_button : Screen pixels
connect_button = centered_button pixels (codes "MainMenu_ConnectBtn") (codes "Connect")

abbrev bob : ProgCtx
bob = context (codes "bob")

layout_with_fuel :
    calculate_with pixels 5 connect_button (area 600) ≡ calculate pixels connect_button (area 600)
unfolding depth centered_button
layout_with_fuel = calculate_with-depth pixels 5 connect_button (area 600) (omega arith)

calculate-calculate_example :
    calculate pixels (calculate pixels connect_button (area 600)) (area 40)
    ≡ calculate pixels connect_button (area 40)
calculate-calculate_example = calculate-calculate pixels connect_button (area 600) (area 40)

draw-Drawn_example :
    Drawn (controls connect_button) [] (draw all_clicked texts connect_button (bob.state, []))
unfolding controls centered_button
draw-Drawn_example = draw-Drawn all_clicked texts connect_button bob.state [] (omega arith)

-- The text box of a bet while it is being edited.
abbrev bet_box : TextBoxComponent ℕ TextRef
bet_box = record {
  bounds = area 50;
  id = codes "Game_BetAmount";
  text = bet_amount_ref;
  max_chars = 6;
  edit_mode = true;
}

abbrev bet_bar : Screen pixels
bet_bar = h_stack (stack (area 100) (child connect_button (child (text_box bet_box) end)) 0)

rebuild-at_rest_example : rebuild (at_rest bet_bar) (present bet_bar) ≡ bet_bar
unfolding IsReached centered_button
rebuild-at_rest_example = rebuild-at_rest bet_bar (tt, (tt, tt))

build_game_screen-Permᴰ_example :
    build_game_screen pixels (codes "ann" ∷ codes "bob" ∷ []) bob.state
    ≡ build_game_screen pixels (codes "bob" ∷ codes "ann" ∷ []) bob.state
build_game_screen-Permᴰ_example = build_game_screen-Permᴰ pixels bob.state (Permᴰ.swap refl refl)

build_game_screen-IsOffered_example :
    All
      (IsOffered int_floats bob)
      (controls (build_game_screen pixels (codes "ann" ∷ codes "bob" ∷ []) bob.state))
build_game_screen-IsOffered_example =
    build_game_screen-IsOffered int_floats bob pixels (codes "ann" ∷ codes "bob" ∷ [])

abbrev den : Room
den = record { id = pos 12; name = codes "den"; current_players = pos 2; max_players = pos 8 }

room_button_joins_example :
    (controls (room_button pixels den) ≡ join_id 12 ∷ [])
    × (handle_ui_event int_floats (join_id 12) bob
        ≡ send_input (evt_room_join (format_int (pos 12))) bob)
    × (lobby_input (evt_room_join (format_int (pos 12))) bob ≡ (
      send_net_msg (record { code = codes "JOIN"; payload = join_payload 12 }) bob,
      lobby,
      some joining_room,
    ))
    × (read_big_int (join_payload 12) ≡ returned (some 12))
room_button_joins_example = room_button_joins int_floats pixels den 12 bob bob refl (omega arith)

-- A player who has typed a bet of 20, between spaces.
abbrev typing : ProgCtx
typing = record bob { state = record bob.state { bet_amount = codes " 20 " } }

bet_sent_and_judged_example :
    (handle_ui_event int_floats (codes "Game_Bet") typing
      ≡ send_input
          (evt_game_action (codes "BETT") (var_int_text (pos 20)))
          (record typing { state = bob.state }))
    × ((validate_game_action
          (codes "BETT")
          (var_int_text (pos 20))
          (record typing { state = bob.state })).1
        ≡ not (ltb_ℤ (pos 300) (pos (spelt 20))))
unfolding lookup same trim_space parse_int digits
bet_sent_and_judged_example =
    bet_sent_and_judged int_floats typing (seated 300 true) 20 refl (omega arith) refl refl
      (int_floats-IsExactAt (pos 20)) refl (omega arith)

abbrev window : Window pixels
window = build_ui pixels [] bob.state

frame_returns_example :
    (r : Window pixels × ProgCtx) × (frame pixels int_floats all_clicked
        (area 900)
        true
        (λ p. 0)
        (codes "ann" ∷ codes "bob" ∷ [])
        []
        window
        bob
      ≡ some r)
frame_returns_example =
    frame_returns pixels int_floats all_clicked (area 900) (codes "ann" ∷ codes "bob" ∷ []) []
      window true (λ p. 0) bob refl (omega arith)

trim_space-mixed : trim_space (b'\t' ∷ b' ' ∷ codes "2 0" ++ 0xC2 ∷ 0xA0 ∷ b' ' ∷ []) ≡ codes "2 0"
unfolding trim_space
trim_space-mixed = refl

-- Only the bytes of a whole white-space character are taken off.
trim_space-half : trim_space (0xA0 ∷ codes "20" ++ 0xC2 ∷ []) ≡ 0xA0 ∷ codes "20" ++ 0xC2 ∷ []
unfolding trim_space
trim_space-half = refl

-- Two popups below one another, and after four seconds the second one only.
abbrev popups : List Popup
popups =
    record { text = codes "short"; seconds = 2 } ∷ record { text = codes "long"; seconds = 5 } ∷ []

popups-places :
    calculate_popups pixels (λ t. (50, 20)) popups (area 900)
    ≡ record { x = 0; y = 0; width = 60; height = 30 }
      ∷ record { x = 0; y = 35; width = 60; height = 30 }
      ∷ []
unfolding calculate_popups
popups-places = refl

popups-later : update_popups (λ p. 4) popups ≡ record { text = codes "long"; seconds = 5 } ∷ []
unfolding update_popups
popups-later = refl

-- The buttons of the main menu at the start, in the order in which they are drawn.
start_controls :
    controls (build_ui pixels [] (init_prog_ctx 7 1000).state).main_menu
    ≡ codes "MainMenu_NickBox"
      ∷ codes "MainMenu_NickBox"
      ∷ codes "Server_IPBox"
      ∷ codes "Server_PortBox"
      ∷ codes "MainMenu_ConnectBtn"
      ∷ codes "MainMenu_CloseBtn"
      ∷ []
unfolding build_ui build_main_menu controls add_children add_child append_child centered_button
start_controls = refl
