-- ===== src/Client/Ui.antt =====
-- Main.go: `handleUIEvent`, which makes inputs of the game thread from the events of the drawn
-- screens. It is called between frames; the mutex is left out. A send to the full channel of inputs
-- waits for the game thread, which is `none`.
pub mod Actions
pub mod Joining
pub mod Betting
pub mod Sends
use kiv_ups.Prelude.{
  ℕ, Bool, ◌||◌, ◌&&◌, true, false, Option, none, some, List, [], ◌∷◌, ◌++◌, if◌then◌else◌, ltb,
  length, Bytes, codes, same, ◌==◌,
}
use kiv_ups.Prelude.Int.{ℤ, pos, ltb_ℤ}
use kiv_ups.GoLib.{FloatOps}
use kiv_ups.GoLib.Decimal.{format_int}
use kiv_ups.GoLib.Strconv.{parse_int, NumError}
use kiv_ups.GoLib.Trim.{trim_space}
use kiv_ups.Serde.Fields.{write_var_int}
use kiv_ups.Client.Map.{Map, lookup}
use kiv_ups.Client.Data.{
  PlayerData, ProgCtx, UserInputEvent, evt_accept_reconnect, evt_decline_reconnect,
  evt_refresh_rooms, evt_cancel_connect, evt_quit, evt_back_to_main, evt_game_action, evt_connect,
  evt_room_join,
}
use kiv_ups.Client.Effects.{add_popup, no_player, on_state, set_player}

-- The capacity of `UserInputChan`.
abbrev pub input_chan_size : ℕ
input_chan_size = 10

-- `ctx.UserInputChan <- input`
abbrev pub send_input : UserInputEvent → ProgCtx → Option ProgCtx
send_input input ctx =
    if ltb (length ctx.user_input_chan) input_chan_size
    then some (record ctx { user_input_chan = ctx.user_input_chan ++ input ∷ [] })
    else none

-- The cases of the switch on the source of the event.
pub data Source : Type 0 where
  connect_btn close_btn confirm_btn cancel_btn reconnect_accept reconnect_decline : Source
  back_btn refresh_btn game_bet game_ready game_check game_leave game_fold game_call : Source
  game_show_ok other_source : Source

abbrev source_table : Map Source
source_table =
    (codes "MainMenu_ConnectBtn", connect_btn)
    ∷ (codes "MainMenu_CloseBtn", close_btn)
    ∷ (codes "Server_ConfirmBtn", confirm_btn)
    ∷ (codes "Connecting_CancelBtn", cancel_btn)
    ∷ (codes "Reconnect_Accept", reconnect_accept)
    ∷ (codes "Reconnect_Decline", reconnect_decline)
    ∷ (codes "RoomSelect_BackBtn", back_btn)
    ∷ (codes "RoomSelect_RefreshBtn", refresh_btn)
    ∷ (codes "Game_Bet", game_bet)
    ∷ (codes "Game_Ready", game_ready)
    ∷ (codes "Game_Check", game_check)
    ∷ (codes "Game_Leave", game_leave)
    ∷ (codes "Game_Fold", game_fold)
    ∷ (codes "Game_Call", game_call)
    ∷ (codes "Game_ShowOK", game_show_ok)
    ∷ []

unfoldable pub source_of : Bytes → Source
unfolding lookup
source_of id = elim (lookup id source_table) [ none ↦ other_source | some s ↦ s ]

-- `strings.CutPrefix(s, prefix)`
unfoldable pub cut_prefix : Bytes → Bytes → Option Bytes
cut_prefix s [] = some s
cut_prefix [] (p ∷ prefix) = none
cut_prefix (c ∷ s) (p ∷ prefix) = let rest = cut_prefix s prefix in if c == p then rest else none

-- The case "MainMenu_ConnectBtn", from the written amount on.
unfoldable pub connect_with : ℤ → Option Bytes → ProgCtx → Option ProgCtx
connect_with amount none ctx =
    some (add_popup (codes "Invalid value, please enter a different one") 3 ctx)
connect_with amount (some written) ctx =
    send_input (evt_connect ctx.state.server_ip ctx.state.server_port)
      (set_player ctx.state.nickname (record no_player { chip_count = amount }) ctx)

unfoldable pub parsed_chips : FloatOps → ℤ × Option NumError → ProgCtx → Option ProgCtx
unfolding connect_with
parsed_chips F (amount, some err) ctx =
    some (add_popup (codes "Please enter a numeric chip value") 3 ctx)
parsed_chips F (amount, none) ctx = connect_with amount (write_var_int F amount) ctx

unfoldable pub click_connect : FloatOps → ProgCtx → Option ProgCtx
unfolding parsed_chips
click_connect F ctx =
    if length ctx.state.nickname == 0 || ltb 9999 (length ctx.state.nickname)
    then some (add_popup (codes "Please enter a nick within the length limits") 3 ctx)
    else if length ctx.state.chips_str == 0 || ltb 100 (length ctx.state.chips_str)
    then some (add_popup (codes "Please enter chip value within the length limits") 3 ctx)
    else parsed_chips F (parse_int (trim_space ctx.state.chips_str)) ctx

-- The case "Game_Bet", from the written amount on.
unfoldable pub send_bet : Option Bytes → ProgCtx → Option ProgCtx
send_bet none ctx = some (add_popup (codes "Bet amount is invalid") 2 ctx)
send_bet (some net_str) ctx =
    send_input (evt_game_action (codes "BETT") net_str)
      (on_state (λ s. record s { bet_amount = [] }) ctx)

unfoldable pub bet_of_player : FloatOps → ℤ → Option PlayerData → ProgCtx → Option ProgCtx
unfolding send_bet
bet_of_player F amount none ctx = some (add_popup (codes "Error: Player data not found") 3 ctx)
bet_of_player F amount (some my_data) ctx =
    if ltb_ℤ my_data.chip_count amount
    then some (
        add_popup (codes "You only have " ++ (format_int my_data.chip_count ++ codes " chips")) 3
          ctx)
    else send_bet (write_var_int F amount) ctx

unfoldable pub parsed_bet : FloatOps → ℤ × Option NumError → ProgCtx → Option ProgCtx
unfolding bet_of_player
parsed_bet F (amount, some err) ctx =
    some (add_popup (codes "Invalid amount (use numbers only)") 2 ctx)
parsed_bet F (amount, none) ctx =
    if ltb_ℤ (pos 0) amount
    then bet_of_player F amount (lookup ctx.state.nickname ctx.state.table.players) ctx
    else some (add_popup (codes "Invalid amount (use numbers only)") 2 ctx)

unfoldable pub click_bet : FloatOps → ProgCtx → Option ProgCtx
unfolding parsed_bet
click_bet F ctx =
    let bet_str = trim_space ctx.state.bet_amount in
    if length bet_str == 0
    then some (add_popup (codes "Enter bet amount") 2 ctx)
    else parsed_bet F (parse_int bet_str) ctx

-- The default case: a button of the room selection.
unfoldable pub click_room : Option Bytes → ProgCtx → Option ProgCtx
click_room none ctx = some ctx
click_room (some after) ctx = send_input (evt_room_join after) ctx

unfoldable pub handle_source : FloatOps → Source → Bytes → ProgCtx → Option ProgCtx
unfolding click_connect click_bet click_room cut_prefix
handle_source F connect_btn id ctx = click_connect F ctx
handle_source F close_btn id ctx = send_input evt_quit ctx
handle_source F confirm_btn id ctx =
    send_input (evt_connect ctx.state.server_ip ctx.state.server_port) ctx
handle_source F cancel_btn id ctx = send_input evt_cancel_connect ctx
handle_source F reconnect_accept id ctx = send_input evt_accept_reconnect ctx
handle_source F reconnect_decline id ctx = send_input evt_decline_reconnect ctx
handle_source F back_btn id ctx = send_input evt_back_to_main ctx
handle_source F refresh_btn id ctx = send_input evt_refresh_rooms ctx
handle_source F game_bet id ctx = click_bet F ctx
handle_source F game_ready id ctx = send_input (evt_game_action (codes "RDY1") []) ctx
handle_source F game_check id ctx = send_input (evt_game_action (codes "CHCK") []) ctx
handle_source F game_leave id ctx = send_input (evt_game_action (codes "GMLV") []) ctx
handle_source F game_fold id ctx = send_input (evt_game_action (codes "FOLD") []) ctx
handle_source F game_call id ctx = send_input (evt_game_action (codes "CALL") []) ctx
handle_source F game_show_ok id ctx = send_input (evt_game_action (codes "SDOK") []) ctx
handle_source F other_source id ctx = click_room (cut_prefix id (codes "join_")) ctx

unfoldable pub handle_ui_event : FloatOps → Bytes → ProgCtx → Option ProgCtx
unfolding handle_source source_of
handle_ui_event F source_id ctx = handle_source F (source_of source_id) source_id ctx
