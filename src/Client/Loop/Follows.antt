-- ===== src/Client/Loop/Follows.antt =====
-- Every handler of a state keeps it or asks for a state that an edge of the graph leads to.
use kiv_ups.Client.Input.{menu_input, connecting_input, lobby_input, game_input}
use kiv_ups.Client.Events.{
  menu_network, connecting_network, sending_network, requesting_network, lobby_network,
  joining_network, game_network,
}
use kiv_ups.Prelude.{
  refl, Bool, true, false, [], ◌∷◌, Option, none, some, Bytes, same, codes, if◌then◌else◌,
}
use kiv_ups.GoLib.{FloatOps}
use kiv_ups.GoLib.Panic.{Outcome, returned, panic, ◌>>=◌}
use kiv_ups.Serde.NetMsg.{NetMsg}
use kiv_ups.Serde.Message.{small_int, parse_message}
use kiv_ups.Network.{
  NetEvent, net_connecting, net_connected, net_reconnected, net_disconnected, net_reconnecting,
  net_message,
}
use kiv_ups.Client.Data.{
  ProgCtx, UserInputEvent, evt_accept_reconnect, evt_decline_reconnect, evt_refresh_rooms,
  evt_cancel_connect, evt_back_to_main, evt_game_action, evt_connect, evt_room_join,
}
use kiv_ups.Client.Events.{
  connecting_message, sending_message, answer_room, requesting_message, join_loaded,
  joining_message, game_message, game_event, dirty_reply, handle_network,
}
use kiv_ups.Client.Game.{player_ready, player_turn, timed_out, cards_dealt, game_won}
use kiv_ups.Client.Input.{note_action, game_action, handle_input}
use kiv_ups.Client.Validate.{validate_game_action}
use kiv_ups.Client.Logic.{
  GameAction, LogicState, main_menu, sending_info, requesting_rooms, lobby, joining_room,
  connecting, in_game, Reply, Code, room, done, rmst, jnfl, pjin, cdtp, pact, sdwn, gwin, pnok,
  full, fail, rcon, piok, code_of, prdy, ptrn, tout,
}
use kiv_ups.Client.Payloads.{handle_player_joined, handle_player_action, handle_showdown}
use kiv_ups.Client.RoomState.{Loaded, handle_room_data, deserialize_room_state}
use kiv_ups.Client.Values.{int_at}
use kiv_ups.Serde.Fields.{read_var_int}
use kiv_ups.Client.Loop.Route.{
  connect, connected, welcomed, rejoined, refused, informed, unwanted, reconnect_sending, listed,
  lost_requesting, reconnect_requesting, join, refresh, leave_lobby, reconnect_lobby, joined,
  rejected, lost_joining, reconnect_joining, leave_game, lost_game, reconnect_game, Follows,
  Follows->>=,
}

Follows-connecting :
    (r : Bool) (c : Code) (ctx : ProgCtx) → Follows (connecting r) (connecting_message r c ctx)
unfolding connecting_message
Follows-connecting r pnok ctx = (refl, welcomed)
Follows-connecting r full ctx = (refl, refused)
Follows-connecting r fail ctx = (refl, refused)
Follows-connecting false rcon ctx = (refl, tt)
Follows-connecting true rcon ctx = (refl, rejoined)
Follows-connecting r _ ctx = (refl, tt)

Follows-sending : (c : Code) (ctx : ProgCtx) → Follows sending_info (sending_message c ctx)
unfolding sending_message
Follows-sending piok ctx = (refl, informed)
Follows-sending fail ctx = (refl, unwanted)
Follows-sending _ ctx = (refl, tt)

Follows-answer : (p : ProgCtx × Bool) → Follows requesting_rooms (answer_room p)
Follows-answer (ctx, true) = (refl, tt)
Follows-answer (ctx, false) = (refl, tt)

Follows-requesting :
    (c : Code) (msg : NetMsg) (ctx : ProgCtx)
    → Follows requesting_rooms (requesting_message c msg ctx)
unfolding requesting_message
Follows-requesting room msg ctx =
    Follows->>= requesting_rooms (handle_room_data msg ctx) _ λ got. Follows-answer got
Follows-requesting done msg ctx = (refl, listed)
Follows-requesting _ msg ctx = (refl, tt)

Follows-loaded : (loaded : Loaded) → Follows joining_room (join_loaded loaded)
Follows-loaded (ctx, none) = (refl, joined)
Follows-loaded (ctx, some err) = (refl, rejected)

-- The two ways that "CDTP" goes on after the parse.
Follows-option {ℓ} :
    {A : Type ℓ} (s : LogicState) (o : Option A) (x : Outcome Reply) (f : A → Outcome Reply)
    → Follows s x
    → ((a : A) → Follows s (f a))
    → Follows s (elim o [ none ↦ x | some a ↦ f a ])
Follows-option s none x f h k = h
Follows-option s (some a) x f h k = k a

module _ (F : FloatOps) where
  Follows-joining :
      (c : Code) (msg : NetMsg) (ctx : ProgCtx) → Follows joining_room (joining_message F c msg ctx)
  unfolding joining_message
  Follows-joining rmst msg ctx =
      Follows->>= joining_room (deserialize_room_state F msg.payload ctx) _
        λ loaded. Follows-loaded loaded
  Follows-joining jnfl msg ctx = (refl, rejected)
  Follows-joining _ msg ctx = (refl, tt)

  Follows-dealt :
      (last : Option GameAction) (payload : Bytes) (ctx : ProgCtx)
      → Follows (in_game last) (cards_dealt F payload (in_game last) ctx)
  unfolding cards_dealt
  Follows-dealt last payload ctx =
      Follows->>= (in_game last) (parse_message F payload (small_int ∷ small_int ∷ [])) _
        λ (results, _, err).
          Follows-option (in_game last) err _ _
            (Follows->>= (in_game last) (int_at results 0) _
              λ c1. Follows->>= (in_game last) (int_at results 1) _ λ c2. (refl, tt))
            λ e. (refl, lost_game)

  Follows-game :
      (last : Option GameAction) (c : Code) (msg : NetMsg) (ctx : ProgCtx)
      → Follows (in_game last) (game_message F last c msg ctx)
  unfolding game_message
  Follows-game last pjin msg ctx =
      Follows->>= (in_game last) (handle_player_joined F msg.payload ctx) _ λ after. (refl, tt)
  Follows-game last prdy msg ctx =
      Follows->>= (in_game last) (player_ready msg.payload ctx) _ λ after. (refl, tt)
  Follows-game last ptrn msg ctx =
      Follows->>= (in_game last) (player_turn msg.payload ctx) _ λ after. (refl, tt)
  Follows-game last tout msg ctx =
      Follows->>= (in_game last) (timed_out msg.payload ctx) _ λ after. (refl, tt)
  Follows-game last cdtp msg ctx = Follows-dealt last msg.payload ctx
  Follows-game last pact msg ctx =
      Follows->>= (in_game last) (handle_player_action F msg.payload ctx) _ λ after. (refl, tt)
  Follows-game last sdwn msg ctx =
      Follows->>= (in_game last) (handle_showdown F msg.payload ctx) _ λ after. (refl, tt)
  Follows-game last gwin msg ctx =
      Follows->>= (in_game last) (game_won F msg.payload ctx) _ λ after. (refl, tt)
  Follows-game last _ msg ctx = (refl, tt)

  Follows-event :
      (last : Option GameAction) (event : NetEvent) (ctx : ProgCtx)
      → Follows (in_game last) (game_event F last event ctx)
  unfolding game_event
  Follows-event last (net_message msg) ctx = Follows-game last (code_of msg.code) msg ctx
  Follows-event last net_reconnected ctx = (refl, reconnect_game)
  Follows-event last net_disconnected ctx = (refl, lost_game)
  Follows-event last (net_reconnecting attempt most) ctx = (refl, tt)
  Follows-event last net_connecting ctx = (refl, tt)
  Follows-event last net_connected ctx = (refl, tt)

  pub Follows-network :
      (s : LogicState) (event : NetEvent) (ctx : ProgCtx) → Follows s (handle_network F s event ctx)
  unfolding handle_network menu_network connecting_network sending_network requesting_network
      lobby_network joining_network game_network
  Follows-network main_menu net_connecting ctx = (refl, connect)
  Follows-network main_menu _ ctx = (refl, tt)
  Follows-network (connecting r) (net_message msg) ctx = Follows-connecting r (code_of msg.code) ctx
  Follows-network (connecting r) net_connected ctx = (refl, connected)
  Follows-network (connecting r) net_reconnected ctx = (refl, connected)
  Follows-network (connecting r) net_disconnected ctx = (refl, refused)
  Follows-network (connecting r) _ ctx = (refl, tt)
  Follows-network sending_info (net_message msg) ctx = Follows-sending (code_of msg.code) ctx
  Follows-network sending_info net_reconnected ctx = (refl, reconnect_sending)
  Follows-network sending_info net_disconnected ctx = (refl, unwanted)
  Follows-network sending_info _ ctx = (refl, tt)
  Follows-network requesting_rooms (net_message msg) ctx =
      Follows-requesting (code_of msg.code) msg ctx
  Follows-network requesting_rooms net_reconnected ctx = (refl, reconnect_requesting)
  Follows-network requesting_rooms net_disconnected ctx = (refl, lost_requesting)
  Follows-network requesting_rooms _ ctx = (refl, tt)
  Follows-network lobby net_reconnected ctx = (refl, reconnect_lobby)
  Follows-network lobby net_disconnected ctx = (refl, leave_lobby)
  Follows-network lobby _ ctx = (refl, tt)
  Follows-network joining_room (net_message msg) ctx = Follows-joining (code_of msg.code) msg ctx
  Follows-network joining_room net_reconnected ctx = (refl, reconnect_joining)
  Follows-network joining_room (net_reconnecting attempt most) ctx = (refl, tt)
  Follows-network joining_room net_disconnected ctx = (refl, lost_joining)
  Follows-network joining_room _ ctx = (refl, tt)
  Follows-network (in_game last) event ctx =
      go (game_event F last event ctx) (Follows-event last event ctx)
    where
      go :
          (m : Outcome Reply)
          → Follows (in_game last) m
          → Follows (in_game last) (m >>= dirty_reply)
      go (returned (ctx, self, next)) h = h
      go panic h = tt

-- One outcome under a test.
Follows-if :
    (s : LogicState) (b : Bool) (x y : Outcome Reply)
    → Follows s x
    → Follows s y
    → Follows s (if b then x else y)
Follows-if s true x y h k = h
Follows-if s false x y h k = k

module _ (last : Option GameAction) where
  Follows-note :
      (action amount : Bytes) (ctx : ProgCtx)
      → Follows (in_game last) (note_action last action amount ctx)
  unfolding note_action
  Follows-note action amount ctx =
      let either = Follows-if (in_game last) in
      either (same action (codes "BETT")) _ _
        (Follows->>= (in_game last) (read_var_int amount) _ λ z. (refl, tt))
        (either (same action (codes "CALL")) _ _ (refl, tt)
          (either (same action (codes "RDY1")) _ _ (refl, tt)
            (either (same action (codes "CHCK")) _ _ (refl, tt)
              (either (same action (codes "FOLD")) _ _ (refl, tt)
                (either (same action (codes "GMLV")) _ _ (refl, leave_game) (refl, tt))))))

  Follows-action :
      (action amount : Bytes) (p : ProgCtx × Bool)
      → Follows (in_game last) (game_action last action amount p)
  unfolding game_action
  Follows-action action amount (ctx, false) = (refl, tt)
  Follows-action action amount (ctx, true) = Follows-note action amount _

pub Follows-input :
    (s : LogicState) (event : UserInputEvent) (ctx : ProgCtx) → Follows s (handle_input s event ctx)
unfolding handle_input menu_input connecting_input lobby_input game_input
Follows-input main_menu (evt_connect host port) ctx = (refl, tt)
Follows-input main_menu _ ctx = (refl, tt)
Follows-input (connecting r) evt_accept_reconnect ctx = (refl, rejoined)
Follows-input (connecting r) evt_decline_reconnect ctx = (refl, welcomed)
Follows-input (connecting r) evt_cancel_connect ctx = (refl, refused)
Follows-input (connecting r) _ ctx = (refl, tt)
Follows-input sending_info _ ctx = (refl, tt)
Follows-input requesting_rooms _ ctx = (refl, tt)
Follows-input lobby (evt_room_join room_id) ctx = (refl, join)
Follows-input lobby evt_back_to_main ctx = (refl, leave_lobby)
Follows-input lobby evt_refresh_rooms ctx = (refl, refresh)
Follows-input lobby _ ctx = (refl, tt)
Follows-input joining_room _ ctx = (refl, tt)
Follows-input (in_game last) (evt_game_action action amount) ctx =
    Follows-action last action amount (validate_game_action action amount ctx)
Follows-input (in_game last) evt_back_to_main ctx = (refl, leave_game)
Follows-input (in_game last) _ ctx = (refl, tt)
