-- ===== src/Client/Frame.antt =====
-- Main.go: the context at the start, and one round of the loop of `main`, which draws the screen of
-- the current state and hands the events of the round to `handleUIEvent`. The trees that are kept
-- between rounds are fields of `Window`; their dirty flags stand in `ProgCtx.ui`. The answers of the
-- drawing library in this round, the size of the window, the clock, and the orders in which Go visits
-- the maps are arguments.
pub mod Total
use kiv_ups.Prelude.{
  ℕ, Bool, false, true, Option, none, some, List, [], ◌∷◌, ◌++◌, if◌then◌else◌, Bytes, codes, ◌>>=◌,
}
use kiv_ups.Prelude.Int.{ℤ, pos}
use kiv_ups.GoLib.{FloatOps}
use kiv_ups.GoLib.Decimal.{format_int}
use kiv_ups.Window.Geometry.{Float32, Rectangle}
use kiv_ups.Window.Component.{MaybeComponent, absent, present}
use kiv_ups.Window.Layout.{calculate}
use kiv_ups.Window.Rebuild.{rebuild}
use kiv_ups.Window.Draw.{UiEvent, Input, Strings, Drawing, draw}
use kiv_ups.Client.Data.{
  UiScreen, screen_main_menu, screen_connecting, screen_reconnecting, screen_waiting_for_rooms,
  screen_room_select, screen_in_game, GameState, PokerTable, UiStore, set_dirty, Popup, ProgCtx,
}
use kiv_ups.Client.Screens.{
  TextRef, nickname_ref, chips_str_ref, server_ip_ref, server_port_ref, bet_amount_ref, Screen,
}
use kiv_ups.Client.Screens.Menu.{build_main_menu, build_connecting_screen, build_reconnecting_menu}
use kiv_ups.Client.Screens.Rooms.{build_room_select_ui}
use kiv_ups.Client.Screens.Game.{build_game_screen}
use kiv_ups.Client.Popups.{update_popups}
use kiv_ups.Client.Ui.{handle_ui_event}

-- The pointers that the text boxes hold.
unfoldable pub load_text : TextRef → GameState → Bytes
load_text nickname_ref s = s.nickname
load_text chips_str_ref s = s.chips_str
load_text server_ip_ref s = s.server_ip
load_text server_port_ref s = s.server_port
load_text bet_amount_ref s = s.bet_amount

unfoldable pub save_text : TextRef → Bytes → GameState → GameState
save_text nickname_ref t s = record s { nickname = t }
save_text chips_str_ref t s = record s { chips_str = t }
save_text server_ip_ref t s = record s { server_ip = t }
save_text server_port_ref t s = record s { server_port = t }
save_text bet_amount_ref t s = record s { bet_amount = t }

abbrev pub texts : Strings TextRef GameState
unfolding load_text save_text
texts = record { load = load_text; save = save_text }

-- `initProgCtx`, with the two random numbers as arguments.
unfoldable pub init_prog_ctx : ℕ → ℕ → ProgCtx
init_prog_ctx nick_number chips = record {
  state = record {
    screen = screen_main_menu;
    rooms = [];
    is_connecting = false;
    reconnected = false;
    server_ip = codes "127.0.0.1";
    server_port = codes "8080";
    nickname = codes "Client" ++ format_int (pos nick_number);
    chips_str = format_int (pos chips);
    table = record {
      players = [];
      community_cards = [];
      pot = pos 0;
      high_bet = pos 0;
      round_phase = [];
    };
    bet_amount = [];
    showdown = false;
  };
  should_close = false;
  command_chan = [];
  msg_out_chan = [];
  ui = record {
    main_menu = true;
    connecting = true;
    reconnecting = true;
    room_select = false;
    game = true;
  };
  popup = [];
  user_input_chan = [];
}

module _ (F : Float32) where
  open F use {Float}

  -- The components of `UIStore`.
  pub record Window : Type 0 where
    pub main_menu : Screen F
    pub connecting : Screen F
    pub reconnecting : Screen F
    pub room_select : MaybeComponent Float TextRef
    pub game : Screen F

  -- `buildUI`
  unfoldable pub build_ui : List Bytes → GameState → Window
  unfolding build_main_menu build_connecting_screen build_reconnecting_menu build_game_screen
  build_ui visited state = record {
    main_menu = build_main_menu F;
    connecting = build_connecting_screen F;
    reconnecting = build_reconnecting_menu F;
    room_select = absent;
    game = build_game_screen F visited state;
  }

  module _ (ops : FloatOps) (input : Input Float) (bounds : Rectangle Float) where
    -- An element of `elementsToDraw` is laid out if it is dirty, and drawn.
    unfoldable pub draw_element :
        Bool → Screen F → GameState × List UiEvent → Drawing GameState (Screen F)
    unfolding calculate draw
    draw_element dirty c k = draw input texts (if dirty then calculate F c bounds else c) k

    unfoldable pub handle_events : List UiEvent → ProgCtx → Option ProgCtx
    unfolding handle_ui_event
    handle_events [] ctx = some ctx
    handle_events (e ∷ events) ctx = do
      handled ← handle_ui_event ops e.source_id ctx
      handle_events events handled

    -- What follows the drawing: the popups that have expired go, and the events are handled.
    unfoldable pub finish : (Popup → ℕ) → ProgCtx → GameState × List UiEvent → Option ProgCtx
    unfolding update_popups handle_events
    finish elapsed ctx (state, events) =
        handle_events events (record ctx { state = state; popup = update_popups elapsed ctx.popup })

    -- The switch on the current screen with the drawing of its elements.
    unfoldable pub draw_screen :
        UiScreen → List Bytes → List ℤ → Window → ProgCtx → Drawing GameState Window
    unfolding draw_element rebuild build_game_screen build_room_select_ui
    draw_screen screen_main_menu names ids w ctx = do
      (menu, k) ← draw_element ctx.ui.main_menu w.main_menu (ctx.state, [])
      some (record w { main_menu = menu }, k)
    draw_screen screen_connecting names ids w ctx = do
      (menu, k) ← draw_element ctx.ui.main_menu w.main_menu (ctx.state, [])
      (connecting, l) ← draw_element ctx.ui.connecting w.connecting k
      some (record w { main_menu = menu; connecting = connecting }, l)
    draw_screen screen_waiting_for_rooms names ids w ctx = do
      (menu, k) ← draw_element ctx.ui.main_menu w.main_menu (ctx.state, [])
      (connecting, l) ← draw_element ctx.ui.connecting w.connecting k
      some (record w { main_menu = menu; connecting = connecting }, l)
    draw_screen screen_reconnecting names ids w ctx = do
      (menu, k) ← draw_element ctx.ui.reconnecting w.reconnecting (ctx.state, [])
      some (record w { reconnecting = menu }, k)
    draw_screen screen_room_select names ids w ctx = do
      (rooms, k) ←
          draw_element true (rebuild (build_room_select_ui F ids ctx.state) w.room_select)
            (ctx.state, [])
      some (record w { room_select = present rooms }, k)
    draw_screen screen_in_game names ids w ctx = do
      (game, k) ←
          draw_element true (rebuild (build_game_screen F names ctx.state) (present w.game))
            (ctx.state, [])
      some (record w { game = game }, k)

    -- One round of the loop, for a window that may have been resized.
    unfoldable pub frame :
        Bool → (Popup → ℕ) → List Bytes → List ℤ → Window → ProgCtx → Option (Window × ProgCtx)
    unfolding set_dirty draw_screen finish
    frame resized elapsed names ids w ctx = do
      let shown = if resized then record ctx { ui = set_dirty ctx.ui } else ctx
      (drawn, k) ← draw_screen shown.state.screen names ids w shown
      after ← finish elapsed shown k
      some (drawn, after)
