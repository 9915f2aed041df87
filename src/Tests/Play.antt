-- ===== src/Tests/Play.antt =====
-- The client's theorems at a table of two players.
use kiv_ups.Client.RoomState.{deserialize_room}
use kiv_ups.Client.RoomState.Listing.{room_text, deserialize_room-room_text}
use kiv_ups.Client.Events.{
  menu_network, connecting_network, sending_network, requesting_network, lobby_network,
  joining_network, game_network,
}
use kiv_ups.Prelude.{
  List, ◌≡◌, refl, ◌⊎◌, true, false, not, [], ◌∷◌, none, some, arith, codes, same,
}
use kiv_ups.Prelude.Int.{pos, ltb_ℤ, add_int}
use kiv_ups.GoLib.Decimal.{digits, format_padded}
use kiv_ups.GoLib.Panic.{returned, panic, Returns}
use kiv_ups.Serde.Fields.RoundTrip.{var_int_text}
use kiv_ups.Network.{NetEvent, net_message, net_disconnected}
use kiv_ups.Client.Map.{lookup}
use kiv_ups.Client.Data.{ProgCtx, evt_room_join}
use kiv_ups.Client.Effects.{player}
use kiv_ups.Serde.Fields.{read_small_int, read_big_int, read_var_int, count_digits}
use kiv_ups.Serde.Message.{parse_message, parse_fields, read_field}
use kiv_ups.GoLib.Panic.{slice_from, slice_range}
use kiv_ups.GoLib.Strconv.{parse_int}
use kiv_ups.Client.RoomState.{deserialize_room_state, read_cards, append_cards, read_players}
use kiv_ups.Client.Data.{screen_in_game, set_dirty}
use kiv_ups.Client.Effects.{mark_dirty, set_screen, send_net_msg, signal, on_table}
use kiv_ups.Client.Enter.{enter, exit}
use kiv_ups.Client.Events.{handle_network, joining_message}
use kiv_ups.Client.Game.{accept_action}
use kiv_ups.Client.Game.Chips.{puts_bet, accept_action_chips}
use kiv_ups.Client.Input.{handle_input, lobby_input}
use kiv_ups.Client.Logic.{bet_action, main_menu, in_game, joining_room, lobby, code_of}
use kiv_ups.Client.Loop.{Taken, input, net_event, transition, take_input, step, run}
use kiv_ups.Client.Loop.Moves.{
  Moves, step-Moves, step-in_game, run-in_game, Joins, step-net_disconnected,
}
use kiv_ups.Client.Loop.Route.{kind, k_game, k_joining}
use kiv_ups.Client.Payloads.{handle_showdown}
use kiv_ups.Client.Safety.Handlers.{handle_network-Returns}
use kiv_ups.Client.Safety.Showdown.{handle_showdown-Returns, handle_showdown_short}
use kiv_ups.Client.Validate.{validate_game_action}
use kiv_ups.Client.Validate.Bets.{spelt, validate_game_action-spelt, all_in_refused}
use kiv_ups.Tests.Fixtures.{int_floats, int_floats-IsReadable, msg, seated, context}

abbrev bob : ProgCtx
bob = context (codes "bob")

found_bob : lookup (codes "bob") bob.state.table.players ≡ some (seated 300 true)
unfolding lookup same
found_bob = refl

-- A bet of 20 chips of 300 passes, as 220; one of 40, as 240; one of 100, as 3100, does not.
validate_game_action-spelt_example :
    (validate_game_action (codes "BETT") (var_int_text (pos 20)) bob).1
    ≡ not (ltb_ℤ (pos 300) (pos (spelt 20)))
unfolding digits
validate_game_action-spelt_example =
    validate_game_action-spelt bob (seated 300 true) 20 found_bob refl (omega arith) (omega arith)

all_in_refused_example :
    (validate_game_action (codes "BETT") (var_int_text (pos 300)) bob).1 ≡ false
unfolding digits
all_in_refused_example =
    all_in_refused bob (seated 300 true) 300 found_bob refl (omega arith) (omega arith) refl

accept_action_chips_example :
    ((player (codes "bob") (accept_action (some (bet_action (pos 20))) bob)).chip_count ≡ pos 280)
    × ((accept_action (some (bet_action (pos 20))) bob).state.table.pot ≡ pos 70)
unfolding lookup same
accept_action_chips_example =
    accept_action_chips bob 300 50 20 refl refl (omega arith) (omega arith) (bet_action (pos 20))
      puts_bet

-- A player joins.
abbrev joins : NetEvent
joins = net_message (msg (codes "PJIN") (codes "0003eve025000010001100100100"))

handle_network-Returns_example : Returns (handle_network int_floats (in_game none) joins bob)
unfolding code_of lookup same
handle_network-Returns_example =
    handle_network-Returns int_floats (in_game none) joins bob
      (int_floats-IsReadable (codes "0003eve025000010001100100100") (omega arith)) refl

handle_showdown-Returns_example : Returns (handle_showdown int_floats (codes "010003bob0112") bob)
handle_showdown-Returns_example =
    handle_showdown-Returns int_floats (codes "010003bob0112") bob (omega arith) (omega arith)
      (omega arith, (omega arith, tt))

handle_showdown_short_example : handle_showdown int_floats (codes "1") bob ≡ panic
handle_showdown_short_example = handle_showdown_short int_floats (codes "1") bob (omega arith)

-- The state of a room that nobody has joined yet, and the context that it leaves.
abbrev room_state : NetEvent
room_state = net_message (msg (codes "RMST") (codes "0100100000000000"))

abbrev in_room_from : ProgCtx → ProgCtx
in_room_from ctx = mark_dirty (
    mark_dirty (
      set_screen screen_in_game (
        send_net_msg (signal (codes "STOK"))
          (on_table (λ t. record t { community_cards = []; pot = pos 0; high_bet = pos 0 }) ctx))))

abbrev in_room : ProgCtx
in_room = in_room_from bob

step-room_state :
    step int_floats (joining_room, bob) (net_event room_state) ≡ returned (in_game none, in_room)
unfolding add_int step transition handle_network menu_network connecting_network sending_network
    requesting_network lobby_network joining_network game_network joining_message code_of lookup
    same deserialize_room_state read_cards append_cards read_players parse_message parse_fields
    read_field read_small_int read_big_int read_var_int parse_int count_digits digits slice_from
    slice_range enter exit set_dirty
step-room_state = refl

step-Moves_example : Moves joining_room (in_game none)
step-Moves_example = step-Moves int_floats joining_room bob (net_event room_state) step-room_state

step-in_game_example : (kind joining_room ≡ k_game) ⊎ (kind joining_room ≡ k_joining)
step-in_game_example =
    step-in_game int_floats joining_room bob (net_event room_state) step-room_state

-- The player joins the room from the lobby.
abbrev joining : List Taken
joining = input (evt_room_join (codes "12")) ∷ net_event room_state ∷ []

abbrev sent_join : ProgCtx
sent_join = mark_dirty (send_net_msg (record { code = codes "JOIN"; payload = codes "0012" }) bob)

run-joining : run int_floats (lobby, bob) joining ≡ returned (in_game none, in_room_from sent_join)
unfolding add_int run step take_input transition handle_network menu_network connecting_network
    sending_network requesting_network lobby_network joining_network game_network joining_message
    code_of lookup same deserialize_room_state read_cards append_cards read_players parse_message
    parse_fields read_field read_small_int read_big_int read_var_int parse_int count_digits digits
    slice_from slice_range enter exit set_dirty handle_input lobby_input format_padded
run-joining = refl

run-in_game_example : Joins int_floats lobby bob joining
run-in_game_example = run-in_game int_floats lobby bob joining (λ e. cc) run-joining

step-net_disconnected_example :
    (after : ProgCtx) × (step int_floats (in_game none, bob) (net_event net_disconnected)
      ≡ returned (main_menu, after))
step-net_disconnected_example = step-net_disconnected int_floats (in_game none) bob

deserialize_room-room_text_example :
    deserialize_room (room_text 3 (codes "den") 2 8)
    ≡ returned
        (record { id = pos 3; name = codes "den"; current_players = pos 2; max_players = pos 8 })
deserialize_room-room_text_example =
    deserialize_room-room_text 3 (codes "den") 2 8 (omega arith) (omega arith) (omega arith)
      (omega arith)
