-- ===== src/Client/Enter.antt =====
-- The methods `Enter` and `Exit` of the states in StateMachine.go.
use kiv_ups.Prelude.{[], Option, none, some, Bytes, codes}
use kiv_ups.Prelude.Int.{pos}
use kiv_ups.GoLib.{FloatOps}
use kiv_ups.Serde.Fields.{write_string, write_var_int}
use kiv_ups.Network.{net_disconnect}
use kiv_ups.Client.Data.{
  ProgCtx, screen_main_menu, screen_waiting_for_rooms, screen_room_select, screen_in_game,
}
use kiv_ups.Client.Effects.{
  send_command, send_net_msg, signal, add_popup, on_state, on_table, set_screen, mark_dirty, player,
  set_player,
}
use kiv_ups.Client.Logic.{
  LogicState, main_menu, sending_info, requesting_rooms, lobby, joining_room, connecting, in_game,
}

abbrev catastrophe : ProgCtx → ProgCtx
catastrophe ctx =
    add_popup (codes "Failed parsing, catastrophe has happened") 5 (send_command net_disconnect ctx)

-- `StateConnecting.Enter` sends the nick also after a failure, and it is then empty.
abbrev send_nick : Option Bytes → ProgCtx → ProgCtx
send_nick none ctx = send_net_msg (signal (codes "CONN")) (catastrophe ctx)
send_nick (some nick_payload) ctx =
    send_net_msg (record { code = codes "CONN"; payload = nick_payload }) ctx

-- `StateSendingInfo.Enter` returns after a failure.
abbrev send_chips : Option Bytes → ProgCtx → ProgCtx
send_chips none ctx = catastrophe ctx
send_chips (some chip_str) ctx =
    send_net_msg (record { code = codes "PINF"; payload = chip_str }) ctx

unfoldable pub enter_menu : ProgCtx → ProgCtx
enter_menu ctx = set_screen screen_main_menu ctx

unfoldable pub enter_connecting : ProgCtx → ProgCtx
enter_connecting ctx = send_nick (write_string ctx.state.nickname) ctx

unfoldable pub enter_sending : FloatOps → ProgCtx → ProgCtx
enter_sending F ctx = send_chips (write_var_int F (player ctx.state.nickname ctx).chip_count) ctx

unfoldable pub enter_requesting : ProgCtx → ProgCtx
enter_requesting ctx =
    on_state (λ s. record s { screen = screen_waiting_for_rooms; rooms = [] })
      (send_net_msg (signal (codes "RMRQ")) ctx)

unfoldable pub enter_lobby : ProgCtx → ProgCtx
enter_lobby ctx = mark_dirty (set_screen screen_room_select ctx)

unfoldable pub enter_game : ProgCtx → ProgCtx
enter_game ctx = mark_dirty (set_screen screen_in_game ctx)

-- The call of the new state's method.
unfoldable pub enter : FloatOps → LogicState → ProgCtx → ProgCtx
unfolding enter_menu enter_connecting enter_sending enter_requesting enter_lobby enter_game
enter F main_menu ctx = enter_menu ctx
enter F (connecting reconnecting) ctx = enter_connecting ctx
enter F sending_info ctx = enter_sending F ctx
enter F requesting_rooms ctx = enter_requesting ctx
enter F lobby ctx = enter_lobby ctx
enter F joining_room ctx = ctx
enter F (in_game last_action) ctx = enter_game ctx

-- Only `StateInGame.Exit` does anything: the table is cleared but for the client's own player.
unfoldable pub exit : LogicState → ProgCtx → ProgCtx
exit (in_game last_action) ctx =
    let my_data = player ctx.state.nickname ctx in
    set_player ctx.state.nickname my_data (
      on_table (λ t. record t { players = []; community_cards = []; high_bet = pos 0; pot = pos 0 })
        ctx)
exit _ ctx = ctx
