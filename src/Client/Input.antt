-- ===== src/Client/Input.antt =====
-- The methods `HandleInput` of the states in StateMachine.go.
use kiv_ups.Prelude.{Bool, true, false, Option, none, some, if◌then◌else◌, Bytes, codes, same}
use kiv_ups.Prelude.Int.{ℤ, pos, min_ℤ}
use kiv_ups.GoLib.Decimal.{format_padded}
use kiv_ups.GoLib.Panic.{Outcome, returned, ◌>>=◌}
use kiv_ups.GoLib.Strconv.{parse_int}
use kiv_ups.Serde.Fields.{read_var_int}
use kiv_ups.Network.{net_connect, net_disconnect}
use kiv_ups.Client.Data.{
  ProgCtx, screen_connecting, UserInputEvent, evt_accept_reconnect, evt_decline_reconnect,
  evt_refresh_rooms, evt_cancel_connect, evt_back_to_main, evt_game_action, evt_connect,
  evt_room_join,
}
use kiv_ups.Client.Effects.{send_command, send_net_msg, signal, set_screen, player}
use kiv_ups.Client.Logic.{
  GameAction, bet_action, call_action, check_action, fold_action, ready_action, LogicState,
  main_menu, sending_info, requesting_rooms, lobby, joining_room, connecting, in_game, Reply,
}
use kiv_ups.Client.Validate.{validate_game_action}

abbrev keep : LogicState → ProgCtx → Reply
keep s ctx = (ctx, s, none)

abbrev move : LogicState → LogicState → ProgCtx → Reply
move next s ctx = (ctx, s, some next)

-- `intAmount, _ := ReadVarInt(…)`
abbrev amount_or_zero : Option ℤ → ℤ
amount_or_zero none = pos 0
amount_or_zero (some z) = z

-- The switch on the action that was sent; an action that is none of these is not noted.
unfoldable pub note_action : Option GameAction → Bytes → Bytes → ProgCtx → Outcome Reply
note_action last action amount ctx =
    if same action (codes "BETT")
    then (do
      int_amount ← read_var_int amount
      returned (keep (in_game (some (bet_action (amount_or_zero int_amount)))) ctx))
    else if same action (codes "CALL")
    then returned (
        keep
          (in_game (
            some (
              call_action
                (min_ℤ (player ctx.state.nickname ctx).chip_count ctx.state.table.high_bet))))
          ctx)
    else if same action (codes "RDY1")
    then returned (keep (in_game (some ready_action)) ctx)
    else if same action (codes "CHCK")
    then returned (keep (in_game (some check_action)) ctx)
    else if same action (codes "FOLD")
    then returned (keep (in_game (some fold_action)) ctx)
    else if same action (codes "GMLV")
    then returned (move lobby (in_game last) ctx)
    else returned (keep (in_game last) ctx)

-- The case `EvtGameAction`, after its validation.
unfoldable pub game_action : Option GameAction → Bytes → Bytes → ProgCtx × Bool → Outcome Reply
unfolding note_action
game_action last action amount (ctx, false) = returned (keep (in_game last) ctx)
game_action last action amount (ctx, true) =
    note_action last action amount (send_net_msg (record { code = action; payload = amount }) ctx)

unfoldable pub menu_input : UserInputEvent → ProgCtx → Reply
menu_input (evt_connect host port) ctx = keep main_menu (send_command (net_connect host port) ctx)
menu_input input ctx = keep main_menu ctx

unfoldable pub connecting_input : Bool → UserInputEvent → ProgCtx → Reply
connecting_input r evt_accept_reconnect ctx =
    move joining_room (connecting r) (send_net_msg (signal (codes "RCON")) ctx)
connecting_input r evt_decline_reconnect ctx =
    move sending_info (connecting r) (set_screen screen_connecting ctx)
connecting_input r evt_cancel_connect ctx =
    move main_menu (connecting r) (send_command net_disconnect ctx)
connecting_input r input ctx = keep (connecting r) ctx

unfoldable pub lobby_input : UserInputEvent → ProgCtx → Reply
lobby_input (evt_room_join room_id) ctx = move joining_room lobby (
    send_net_msg (record { code = codes "JOIN"; payload = format_padded 4 (parse_int room_id).0 })
      ctx)
lobby_input evt_back_to_main ctx = move main_menu lobby (send_command net_disconnect ctx)
lobby_input evt_refresh_rooms ctx = move requesting_rooms lobby ctx
lobby_input input ctx = keep lobby ctx

unfoldable pub game_input : Option GameAction → UserInputEvent → ProgCtx → Outcome Reply
unfolding game_action
game_input last (evt_game_action action amount) ctx =
    game_action last action amount (validate_game_action action amount ctx)
game_input last evt_back_to_main ctx =
    returned (move lobby (in_game last) (send_net_msg (signal (codes "GMLV")) ctx))
game_input last input ctx = returned (keep (in_game last) ctx)

-- The call of the current state's method; three states ignore their inputs.
unfoldable pub handle_input : LogicState → UserInputEvent → ProgCtx → Outcome Reply
unfolding menu_input connecting_input lobby_input game_input
handle_input main_menu input ctx = returned (menu_input input ctx)
handle_input (connecting r) input ctx = returned (connecting_input r input ctx)
handle_input lobby input ctx = returned (lobby_input input ctx)
handle_input (in_game last) input ctx = game_input last input ctx
handle_input s input ctx = returned (keep s ctx)
