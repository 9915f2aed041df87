-- ===== src/Client/Safety/Handlers.antt =====
-- The handlers that parse a payload, and `HandleNetwork` of every state.
use kiv_ups.Client.Events.{
  menu_network, connecting_network, sending_network, requesting_network, lobby_network,
  joining_network, game_network,
}
use kiv_ups.Prelude.{◌≡◌, refl, Bool, true, false, [], ◌∷◌, Option, none, some, Bytes}
use kiv_ups.GoLib.{FloatOps}
use kiv_ups.GoLib.Panic.{Returns, Returns->>=}
use kiv_ups.Serde.Message.Safety.{IsReadable}
use kiv_ups.Serde.NetMsg.{NetMsg}
use kiv_ups.Serde.Message.{small_int, var_int, string}
use kiv_ups.Network.{
  NetEvent, net_connecting, net_connected, net_reconnected, net_disconnected, net_reconnecting,
  net_message,
}
use kiv_ups.Client.Map.{lookup}
use kiv_ups.Client.Data.{ProgCtx}
use kiv_ups.Client.Events.{
  connecting_message, sending_message, answer_room, requesting_message, join_loaded,
  joining_message, game_message, game_event, handle_network,
}
use kiv_ups.Client.Game.{cards_dealt, game_won, player_ready, player_turn, timed_out}
use kiv_ups.Serde.Fields.Total.{read_string-returned}
use kiv_ups.Client.Logic.{
  GameAction, LogicState, main_menu, sending_info, requesting_rooms, lobby, joining_room,
  connecting, in_game, Code, room, done, rmst, jnfl, pjin, prdy, ptrn, tout, cdtp, pact, sdwn, gwin,
  pnok, full, fail, rcon, piok, code_of,
}
use kiv_ups.Client.Payloads.{
  player_types, action_types, player_of, handle_player_joined, handle_player_action,
}
use kiv_ups.Client.RoomState.{Loaded, handle_room_data, deserialize_room_state}
use kiv_ups.Client.Safety.Parsing.{
  Returns-parse, Returns-int, Returns-str, Returns-option, player_of-Returns,
}
use kiv_ups.Client.Safety.Rooms.{deserialize_room_state-Returns, handle_room_data-Returns}

connecting_message-Returns :
    (r : Bool) (c : Code) (ctx : ProgCtx) → Returns (connecting_message r c ctx)
unfolding connecting_message
connecting_message-Returns r pnok ctx = tt
connecting_message-Returns r full ctx = tt
connecting_message-Returns r fail ctx = tt
connecting_message-Returns false rcon ctx = tt
connecting_message-Returns true rcon ctx = tt
connecting_message-Returns r _ ctx = tt

sending_message-Returns : (c : Code) (ctx : ProgCtx) → Returns (sending_message c ctx)
unfolding sending_message
sending_message-Returns piok ctx = tt
sending_message-Returns fail ctx = tt
sending_message-Returns _ ctx = tt

answer_room-Returns : (p : ProgCtx × Bool) → Returns (answer_room p)
answer_room-Returns (ctx, true) = tt
answer_room-Returns (ctx, false) = tt

requesting_message-Returns :
    (c : Code) (msg : NetMsg) (ctx : ProgCtx) → Returns (requesting_message c msg ctx)
unfolding requesting_message
requesting_message-Returns room msg ctx =
    Returns->>= (handle_room_data msg ctx) _ (handle_room_data-Returns msg ctx)
      λ got _. answer_room-Returns got
requesting_message-Returns done msg ctx = tt
requesting_message-Returns _ msg ctx = tt

join_loaded-Returns : (loaded : Loaded) → Returns (join_loaded loaded)
join_loaded-Returns (after, none) = tt
join_loaded-Returns (after, some err) = tt

abbrev pub is_showdown : Code → Bool
is_showdown sdwn = true
is_showdown _ = false

-- The event is a showdown message for the game.
abbrev pub reveals : LogicState → NetEvent → Bool
reveals (in_game last) (net_message msg) = is_showdown (code_of msg.code)
reveals s event = false

abbrev pub payload_of : NetEvent → Bytes
payload_of (net_message msg) = msg.payload
payload_of event = []

module _ (F : FloatOps) where
  handle_player_joined-Returns :
      (payload : Bytes) (ctx : ProgCtx)
      → IsReadable F payload
      → Returns (handle_player_joined F payload ctx)
  unfolding handle_player_joined
  handle_player_joined-Returns payload ctx short =
      Returns-parse F payload player_types _ short (λ res offset err. tt)
        λ res offset within h. Returns->>= (player_of res) _ (player_of-Returns res h) λ p _. tt

  handle_player_action-Returns :
      (payload : Bytes) (ctx : ProgCtx)
      → IsReadable F payload
      → Returns (handle_player_action F payload ctx)
  unfolding handle_player_action
  handle_player_action-Returns payload ctx short =
      Returns-parse F payload action_types _ short (λ res offset err. tt)
        λ res offset within h. Returns-str action_types res 0 h _ refl λ nick.
          Returns-int action_types res 1 h small_int _ refl tt λ action.
            Returns-int action_types res 2 h var_int _ refl tt
              λ amount. Returns-option (lookup nick ctx.state.table.players) _ _ tt λ p. tt

  cards_dealt-Returns :
      (payload : Bytes) (s : LogicState) (ctx : ProgCtx)
      → IsReadable F payload
      → Returns (cards_dealt F payload s ctx)
  unfolding cards_dealt
  cards_dealt-Returns payload s ctx short =
      Returns-parse F payload (small_int ∷ small_int ∷ []) _ short (λ res offset err. tt)
        λ res offset within h.
          Returns-int (small_int ∷ small_int ∷ []) res 0 h small_int _ refl tt
            λ c1. Returns-int (small_int ∷ small_int ∷ []) res 1 h small_int _ refl tt λ c2. tt

  game_won-Returns :
      (payload : Bytes) (ctx : ProgCtx) → IsReadable F payload → Returns (game_won F payload ctx)
  unfolding game_won
  game_won-Returns payload ctx short =
      Returns-parse F payload (string ∷ var_int ∷ []) _ short (λ res offset err. tt)
        λ res offset within h.
          Returns-str (string ∷ var_int ∷ []) res 0 h _ refl
            λ winner. Returns-int (string ∷ var_int ∷ []) res 1 h var_int _ refl tt λ amount. tt

  joining_message-Returns :
      (c : Code) (msg : NetMsg) (ctx : ProgCtx)
      → IsReadable F msg.payload
      → Returns (joining_message F c msg ctx)
  unfolding joining_message
  joining_message-Returns rmst msg ctx short =
      Returns->>= (deserialize_room_state F msg.payload ctx) _
        (deserialize_room_state-Returns F msg.payload ctx short)
        λ loaded _. join_loaded-Returns loaded
  joining_message-Returns jnfl msg ctx short = tt
  joining_message-Returns _ msg ctx short = tt

  player_ready-Returns : (payload : Bytes) (ctx : ProgCtx) → Returns (player_ready payload ctx)
  unfolding player_ready
  player_ready-Returns payload ctx = rw (read_string-returned payload) tt

  player_turn-Returns : (payload : Bytes) (ctx : ProgCtx) → Returns (player_turn payload ctx)
  unfolding player_turn
  player_turn-Returns payload ctx = rw (read_string-returned payload) tt

  timed_out-Returns : (payload : Bytes) (ctx : ProgCtx) → Returns (timed_out payload ctx)
  unfolding timed_out
  timed_out-Returns payload ctx = rw (read_string-returned payload) tt

  -- A message in the game, but for the showdown.
  game_message-Returns :
      (last : Option GameAction) (c : Code) (msg : NetMsg) (ctx : ProgCtx)
      → IsReadable F msg.payload
      → is_showdown c ≡ false
      → Returns (game_message F last c msg ctx)
  unfolding game_message
  game_message-Returns last pjin msg ctx short h =
      Returns->>= (handle_player_joined F msg.payload ctx) _
        (handle_player_joined-Returns msg.payload ctx short) λ joined _. tt
  game_message-Returns last prdy msg ctx short h =
      Returns->>= (player_ready msg.payload ctx) _ (player_ready-Returns msg.payload ctx)
        λ after _. tt
  game_message-Returns last ptrn msg ctx short h =
      Returns->>= (player_turn msg.payload ctx) _ (player_turn-Returns msg.payload ctx)
        λ after _. tt
  game_message-Returns last tout msg ctx short h =
      Returns->>= (timed_out msg.payload ctx) _ (timed_out-Returns msg.payload ctx) λ after _. tt
  game_message-Returns last cdtp msg ctx short h =
      cards_dealt-Returns msg.payload (in_game last) ctx short
  game_message-Returns last pact msg ctx short h =
      Returns->>= (handle_player_action F msg.payload ctx) _
        (handle_player_action-Returns msg.payload ctx short) λ acted _. tt
  game_message-Returns last sdwn msg ctx short h = cc
  game_message-Returns last gwin msg ctx short h =
      Returns->>= (game_won F msg.payload ctx) _ (game_won-Returns msg.payload ctx short)
        λ won _. tt
  game_message-Returns last _ msg ctx short h = tt

  game_event-Returns :
      (last : Option GameAction) (event : NetEvent) (ctx : ProgCtx)
      → IsReadable F (payload_of event)
      → reveals (in_game last) event ≡ false
      → Returns (game_event F last event ctx)
  unfolding game_event
  game_event-Returns last (net_message msg) ctx short h =
      game_message-Returns last (code_of msg.code) msg ctx short h
  game_event-Returns last (net_reconnecting attempt most) ctx short h = tt
  game_event-Returns last net_reconnected ctx short h = tt
  game_event-Returns last net_disconnected ctx short h = tt
  game_event-Returns last net_connecting ctx short h = tt
  game_event-Returns last net_connected ctx short h = tt

  -- No state's `HandleNetwork` panics on an event, unless it is a showdown message that reaches the
  -- game state, when the payload is shorter than 2⁶³ bytes and the floor of the logarithm is exact at
  -- every number but 0 that can be read at some offset of it.
  pub handle_network-Returns :
      (s : LogicState) (event : NetEvent) (ctx : ProgCtx)
      → IsReadable F (payload_of event)
      → reveals s event ≡ false
      → Returns (handle_network F s event ctx)
  unfolding handle_network menu_network connecting_network sending_network requesting_network
      lobby_network joining_network game_network
  handle_network-Returns main_menu net_connecting ctx short h = tt
  handle_network-Returns main_menu _ ctx short h = tt
  handle_network-Returns (connecting r) (net_message msg) ctx short h =
      connecting_message-Returns r (code_of msg.code) ctx
  handle_network-Returns (connecting r) _ ctx short h = tt
  handle_network-Returns sending_info (net_message msg) ctx short h =
      sending_message-Returns (code_of msg.code) ctx
  handle_network-Returns sending_info _ ctx short h = tt
  handle_network-Returns requesting_rooms (net_message msg) ctx short h =
      requesting_message-Returns (code_of msg.code) msg ctx
  handle_network-Returns requesting_rooms _ ctx short h = tt
  handle_network-Returns lobby net_reconnected ctx short h = tt
  handle_network-Returns lobby net_disconnected ctx short h = tt
  handle_network-Returns lobby _ ctx short h = tt
  handle_network-Returns joining_room (net_message msg) ctx short h =
      joining_message-Returns (code_of msg.code) msg ctx short
  handle_network-Returns joining_room _ ctx short h = tt
  handle_network-Returns (in_game last) event ctx short h =
      Returns->>= (game_event F last event ctx) _ (game_event-Returns last event ctx short h)
        λ reply _. tt
