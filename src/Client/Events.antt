-- ===== src/Client/Events.antt =====
-- The methods `HandleNetwork` of the states in StateMachine.go: the switch on the event, and on the
-- code of a message.
use kiv_ups.Prelude.{Bool, true, false, ◌++◌, Option, none, some, codes}
use kiv_ups.GoLib.{FloatOps}
use kiv_ups.GoLib.Panic.{Outcome, returned, ◌>>=◌}
use kiv_ups.Serde.NetMsg.{NetMsg}
use kiv_ups.Network.{
  NetEvent, net_connecting, net_connected, net_reconnected, net_disconnected, net_reconnecting,
  net_message, net_disconnect,
}
use kiv_ups.Client.Data.{ProgCtx, screen_connecting, screen_reconnecting}
use kiv_ups.Client.Effects.{
  send_command, send_net_msg, signal, add_popup, on_state, set_screen, mark_dirty,
}
use kiv_ups.Client.Game
use kiv_ups.Client.Logic.{
  GameAction, LogicState, main_menu, sending_info, requesting_rooms, lobby, joining_room,
  connecting, in_game, Reply, stay, goto, Code, pnok, full, fail, rcon, piok, room, done, rmst,
  jnfl, pjin, prdy, gmst, cdtp, gmrd, crvr, ptrn, tout, acok, acfl, nyet, pact, sdwn, glos, gwin,
  gmdn, code_of,
}
use kiv_ups.Client.Payloads.{handle_player_joined, handle_player_action, handle_showdown}
use kiv_ups.Client.RoomState.{Loaded, deserialize_room_state, handle_room_data}

-- `StateConnecting`, on a message.
unfoldable pub connecting_message : Bool → Code → ProgCtx → Outcome Reply
connecting_message r pnok ctx = goto sending_info (connecting r) ctx
connecting_message r full ctx =
    goto main_menu (connecting r)
      (send_command net_disconnect (add_popup (codes "Server full") 3 ctx))
connecting_message r fail ctx = goto main_menu (connecting r) (send_command net_disconnect ctx)
connecting_message false rcon ctx = stay (connecting false) (set_screen screen_reconnecting ctx)
connecting_message true rcon ctx =
    goto joining_room (connecting true)
      (on_state (λ s. record s { reconnected = true }) (send_net_msg (signal (codes "RCON")) ctx))
connecting_message r c ctx = stay (connecting r) ctx

unfoldable pub sending_message : Code → ProgCtx → Outcome Reply
sending_message piok ctx = goto requesting_rooms sending_info ctx
sending_message fail ctx = goto main_menu sending_info (send_command net_disconnect ctx)
sending_message c ctx = stay sending_info ctx

-- The answer to a room.
abbrev pub answer_room : ProgCtx × Bool → Outcome Reply
answer_room (ctx, true) = stay requesting_rooms (send_net_msg (signal (codes "RMOK")) ctx)
answer_room (ctx, false) = stay requesting_rooms (send_net_msg (signal (codes "RMFL")) ctx)

unfoldable pub requesting_message : Code → NetMsg → ProgCtx → Outcome Reply
requesting_message room msg ctx = do got ← handle_room_data msg ctx; answer_room got
requesting_message done msg ctx =
    goto lobby requesting_rooms (send_net_msg (signal (codes "DNOK")) ctx)
requesting_message c msg ctx = stay requesting_rooms ctx

-- The case "RMST" of `StateJoiningRoom`.
abbrev pub join_loaded : Loaded → Outcome Reply
join_loaded (ctx, some err) = goto lobby joining_room (
    add_popup (codes "Failed to join room: invalid state") 3
      (send_net_msg (signal (codes "STFL")) ctx))
join_loaded (ctx, none) =
    goto (in_game none) joining_room (send_net_msg (signal (codes "STOK")) ctx)

unfoldable pub joining_message : FloatOps → Code → NetMsg → ProgCtx → Outcome Reply
joining_message F rmst msg ctx = do
  loaded ← deserialize_room_state F msg.payload ctx
  join_loaded loaded
joining_message F jnfl msg ctx =
    goto lobby joining_room (add_popup (codes "Failed to join room") 3 ctx)
joining_message F c msg ctx = stay joining_room ctx

-- The message cases of `StateInGame`.
unfoldable pub game_message : FloatOps → Option GameAction → Code → NetMsg → ProgCtx → Outcome Reply
game_message F last pjin msg ctx = do
  joined ← handle_player_joined F msg.payload ctx
  stay (in_game last) (add_popup (codes "A player has joined") 2 joined)
game_message F last prdy msg ctx = do
  ready ← Game.player_ready msg.payload ctx
  stay (in_game last) ready
game_message F last gmst msg ctx = stay (in_game last) (Game.game_started ctx)
game_message F last cdtp msg ctx = Game.cards_dealt F msg.payload (in_game last) ctx
game_message F last gmrd msg ctx = stay (in_game last) (Game.game_round ctx)
game_message F last crvr msg ctx = stay (in_game last) (Game.river_card msg.payload ctx)
game_message F last ptrn msg ctx = do
  turned ← Game.player_turn msg.payload ctx
  stay (in_game last) turned
game_message F last tout msg ctx = do
  timed ← Game.timed_out msg.payload ctx
  stay (in_game last) timed
game_message F last acok msg ctx = stay (in_game last) (Game.action_ok last ctx)
game_message F last acfl msg ctx =
    stay (in_game last) (add_popup (codes "Action failed: " ++ msg.payload) 3 ctx)
game_message F last nyet msg ctx =
    stay (in_game last) (add_popup (codes "It's not your turn!") 2 ctx)
game_message F last pact msg ctx = do
  acted ← handle_player_action F msg.payload ctx
  stay (in_game last) acted
game_message F last sdwn msg ctx = do
  shown ← handle_showdown F msg.payload ctx
  stay (in_game last) shown
game_message F last glos msg ctx =
    stay (in_game last) (add_popup (codes "Everyone lost. Casino Won.") 3 ctx)
game_message F last gwin msg ctx = do won ← Game.game_won F msg.payload ctx; stay (in_game last) won
game_message F last gmdn msg ctx = stay (in_game last) (Game.game_done ctx)
game_message F last c msg ctx = stay (in_game last) ctx

-- `StateInGame` marks the UI on its way out, whatever the event.
abbrev pub dirty_reply : Reply → Outcome Reply
dirty_reply (ctx, self, next) = returned (mark_dirty ctx, self, next)

unfoldable pub game_event : FloatOps → Option GameAction → NetEvent → ProgCtx → Outcome Reply
game_event F last (net_message msg) ctx = game_message F last (code_of msg.code) msg ctx
game_event F last (net_reconnecting attempt most) ctx =
    stay (in_game last) (add_popup (codes "Server stopped responding, attempting reconnect.") 3 ctx)
game_event F last net_reconnected ctx = goto (connecting true) (in_game last) ctx
game_event F last net_disconnected ctx =
    goto main_menu (in_game last) (add_popup (codes "Server stopped responding.") 3 ctx)
game_event F last event ctx = stay (in_game last) ctx

unfoldable pub menu_network : NetEvent → ProgCtx → Outcome Reply
menu_network net_connecting ctx =
    goto (connecting false) main_menu (set_screen screen_connecting ctx)
menu_network event ctx = stay main_menu ctx

unfoldable pub connecting_network : Bool → NetEvent → ProgCtx → Outcome Reply
connecting_network r (net_message msg) ctx = connecting_message r (code_of msg.code) ctx
connecting_network r net_connected ctx = goto (connecting false) (connecting r) ctx
connecting_network r net_reconnected ctx = goto (connecting true) (connecting r) ctx
connecting_network r net_disconnected ctx =
    goto main_menu (connecting r) (add_popup (codes "Connection couldn't be established") 2 ctx)
connecting_network r event ctx = stay (connecting r) ctx

unfoldable pub sending_network : NetEvent → ProgCtx → Outcome Reply
sending_network (net_message msg) ctx = sending_message (code_of msg.code) ctx
sending_network net_reconnected ctx = goto (connecting false) sending_info ctx
sending_network net_disconnected ctx =
    goto main_menu sending_info (add_popup (codes "Connection lost") 3 ctx)
sending_network event ctx = stay sending_info ctx

unfoldable pub requesting_network : NetEvent → ProgCtx → Outcome Reply
requesting_network (net_message msg) ctx = requesting_message (code_of msg.code) msg ctx
requesting_network net_reconnected ctx = goto (connecting false) requesting_rooms ctx
requesting_network net_disconnected ctx =
    goto main_menu requesting_rooms (add_popup (codes "Server stopped responding") 5 ctx)
requesting_network event ctx = stay requesting_rooms ctx

unfoldable pub lobby_network : NetEvent → ProgCtx → Outcome Reply
lobby_network net_reconnected ctx = goto (connecting false) lobby ctx
lobby_network net_disconnected ctx =
    goto main_menu lobby (add_popup (codes "Server connection failed") 5 ctx)
lobby_network event ctx = stay lobby ctx

unfoldable pub joining_network : FloatOps → NetEvent → ProgCtx → Outcome Reply
joining_network F (net_message msg) ctx = joining_message F (code_of msg.code) msg ctx
joining_network F net_reconnected ctx =
    goto (connecting true) joining_room (add_popup (codes "Failed to join room") 3 ctx)
joining_network F (net_reconnecting attempt most) ctx =
    stay joining_room (add_popup (codes "Server stopped responding, attempting reconnect") 3 ctx)
joining_network F net_disconnected ctx =
    goto main_menu joining_room (add_popup (codes "Server connection failed") 3 ctx)
joining_network F event ctx = stay joining_room ctx

unfoldable pub game_network : FloatOps → Option GameAction → NetEvent → ProgCtx → Outcome Reply
game_network F last event ctx = do reply ← game_event F last event ctx; dirty_reply reply

-- The call of the current state's method.
unfoldable pub handle_network : FloatOps → LogicState → NetEvent → ProgCtx → Outcome Reply
unfolding menu_network connecting_network sending_network requesting_network lobby_network
    joining_network game_network
handle_network F main_menu event ctx = menu_network event ctx
handle_network F (connecting r) event ctx = connecting_network r event ctx
handle_network F sending_info event ctx = sending_network event ctx
handle_network F requesting_rooms event ctx = requesting_network event ctx
handle_network F lobby event ctx = lobby_network event ctx
handle_network F joining_room event ctx = joining_network F event ctx
handle_network F (in_game last) event ctx = game_network F last event ctx
