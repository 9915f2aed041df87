-- ===== src/Client/Frame/Total.antt =====
-- When a round of the drawing loop that shows the game comes to its end.
use kiv_ups.Prelude.{
  ℕ, ◌≤◌, ◌≡◌, refl, Bool, true, false, Option, none, some, List, [], ◌∷◌, ◌+◌, ◌>>=◌, length,
  arith, Bytes,
}
use kiv_ups.Prelude.Int.{ℤ}
use kiv_ups.GoLib.{FloatOps}
use kiv_ups.Window.Geometry.{Float32, Rectangle}
use kiv_ups.Window.Component.{present}
use kiv_ups.Window.Layout.{calculate}
use kiv_ups.Window.Rebuild.{rebuild}
use kiv_ups.Window.Controls.{controls-calculate, controls-rebuild}
use kiv_ups.Window.Draw.{UiEvent, Input}
use kiv_ups.Window.Draw.Events.{controls, length-Picked}
use kiv_ups.Window.Draw.Total.{draw-Drawn}
use kiv_ups.Client.Map.{lookup}
use kiv_ups.Client.Data.{UiScreen, screen_in_game, GameState, Popup, ProgCtx, set_dirty}
use kiv_ups.Client.Effects.{or_zero}
use kiv_ups.Client.Screens.{Screen}
use kiv_ups.Client.Screens.Game.{build_game_screen}
use kiv_ups.Client.Screens.Controls.{controls-build_game_screen, action_buttons_few}
use kiv_ups.Client.Frame.{Window, texts, draw_element, draw_screen, handle_events, finish, frame}
use kiv_ups.Client.Popups.{update_popups}
use kiv_ups.Client.Ui.{input_chan_size, handle_ui_event}
use kiv_ups.Client.Ui.Sends.{SendsOne, ended, handle_ui_event-SendsOne}

-- The events of a round are handled to the end while the channel of inputs has room for them.
handle_events_total :
    (F : Float32) (ops : FloatOps) (input : Input F.Float) (bounds : Rectangle F.Float)
    (events : List UiEvent) (ctx : ProgCtx)
    → length ctx.user_input_chan + length events ≤ input_chan_size
    → (after : ProgCtx) × (handle_events F ops input bounds events ctx ≡ some after)
unfolding handle_events
handle_events_total F ops input bounds [] ctx room = (ctx, refl)
handle_events_total F ops input bounds (e ∷ events) ctx room =
    go (handle_ui_event ops e.source_id ctx)
      (handle_ui_event-SendsOne ops ctx (omega (arith, room)) e.source_id)
      (λ handled small. handle_events_total F ops input bounds events handled small)
  where
    go :
        (o : Option ProgCtx)
        → SendsOne ctx o
        → ((handled : ProgCtx)
            → length handled.user_input_chan + length events ≤ input_chan_size
            → (after : ProgCtx) × (handle_events F ops input bounds events handled ≡ some after))
        → (after : ProgCtx) × ((o >>= λ handled. handle_events F ops input bounds events handled)
            ≡ some after)
    go none h rest = elim h [ ]
    go (some handled) (ended _ h) rest = rest handled (omega (arith, h, room))

module _ (F : Float32) (ops : FloatOps) (input : Input F.Float) (bounds : Rectangle F.Float)
    (names : List Bytes) (ids : List ℤ) (w : Window F) where
  -- The tree that is drawn while the game is shown.
  abbrev game_tree : GameState → Screen F
  game_tree state = calculate F (rebuild (build_game_screen F names state) (present w.game)) bounds

  controls-game_tree : (state : GameState) → length (controls (game_tree state)) ≤ 7
  controls-game_tree state =
      let g = build_game_screen F names state in
      rw
        (
          controls-calculate F (rebuild g (present w.game)) bounds,
          controls-rebuild g (present w.game),
          controls-build_game_screen F names state,
        )
        (action_buttons_few F (or_zero (lookup state.nickname state.table.players)) state)

  draw_screen-total :
      (screen : UiScreen) (ctx : ProgCtx)
      → screen ≡ screen_in_game
      → (r : Window F × (GameState × List UiEvent)) × (draw_screen F ops input bounds screen names
            ids w ctx
          ≡ some r)
        × (length r.1.1 ≤ 7)
  unfolding draw_screen draw_element
  draw_screen-total screen ctx h =
      let d =
        draw-Drawn input texts (game_tree ctx.state) ctx.state []
          (omega (arith, controls-game_tree ctx.state)) in
      (
        (record w { game = d.left }, (d.store, d.sent)),
        rw (h, d.drawn) refl,
        omega (arith, length-Picked d.picked, controls-game_tree ctx.state),
      )

  -- What follows the drawing.
  finish_total :
      (elapsed : Popup → ℕ) (ctx : ProgCtx) (k : GameState × List UiEvent)
      → length ctx.user_input_chan + 7 ≤ input_chan_size
      → length k.1 ≤ 7
      → (after : ProgCtx) × (finish F ops input bounds elapsed ctx k ≡ some after)
  unfolding finish
  finish_total elapsed ctx (state, events) room few =
      handle_events_total F ops input bounds events
        (record ctx { state = state; popup = update_popups elapsed ctx.popup })
        (omega (arith, room, few))

  -- While the game is shown and the channel of inputs has room for seven more, a round of the drawing
  -- loop comes to its end: whatever is clicked and typed in it, and whatever trees were kept before,
  -- no send blocks, neither on the channel of its events nor on that of the inputs.
  pub frame_returns :
      (resized : Bool) (elapsed : Popup → ℕ) (ctx : ProgCtx)
      → ctx.state.screen ≡ screen_in_game
      → length ctx.user_input_chan + 7 ≤ input_chan_size
      → (r : Window F × ProgCtx) × (frame F ops input bounds resized elapsed names ids w ctx
          ≡ some r)
  unfolding frame set_dirty
  frame_returns true elapsed ctx h room =
      let shown = record ctx { ui = set_dirty ctx.ui } in
      let (r, e, few) = draw_screen-total ctx.state.screen shown h in
      let (after, f) = finish_total elapsed shown r.1 room few in ((r.0, after), rw (e, f) refl)
  frame_returns false elapsed ctx h room =
      let (r, e, few) = draw_screen-total ctx.state.screen ctx h in
      let (after, f) = finish_total elapsed ctx r.1 room few in ((r.0, after), rw (e, f) refl)
