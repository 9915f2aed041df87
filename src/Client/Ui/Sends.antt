-- ===== src/Client/Ui/Sends.antt =====
-- How many inputs `handleUIEvent` sends.
use kiv_ups.Prelude.{
  ◌+◌, ◌≤◌, ◌<◌, ◌≡◌, refl, Bool, true, false, Option, none, some, ◌∷◌, [], arith, Bytes, length,
  length-append, if◌then◌else◌, if_true, ltb, codes, subst, sym, ◌==◌, ◌||◌, ◌++◌,
}
use kiv_ups.Prelude.Int.{ℤ, pos, ltb_ℤ}
use kiv_ups.GoLib.{FloatOps}
use kiv_ups.GoLib.Strconv.{NumError, parse_int}
use kiv_ups.GoLib.Trim.{trim_space}
use kiv_ups.Serde.Fields.{write_var_int}
use kiv_ups.Client.Map.{lookup}
use kiv_ups.Client.Data.{
  PlayerData, ProgCtx, UserInputEvent, evt_connect, evt_game_action, evt_room_join,
}
use kiv_ups.Client.Effects.{add_popup, no_player, on_state, set_player}
use kiv_ups.Client.Ui.{
  input_chan_size, send_input, Source, connect_btn, game_bet, other_source, source_of, cut_prefix,
  connect_with, parsed_chips, click_connect, send_bet, bet_of_player, parsed_bet, click_bet,
  click_room, handle_source, handle_ui_event,
}

-- It came to its end with at most one input more on the channel.
pub data SendsOne (ctx : ProgCtx) : Option ProgCtx → Type 0 where
  ended :
      (after : ProgCtx)
      → length after.user_input_chan ≤ length ctx.user_input_chan + 1
      → SendsOne ctx (some after)

send_input-SendsOne :
    (input : UserInputEvent) (ctx : ProgCtx)
    → length ctx.user_input_chan < input_chan_size
    → SendsOne ctx (send_input input ctx)
send_input-SendsOne input ctx h =
    let test : ltb (length ctx.user_input_chan) input_chan_size ≡ true = ground (arith, h) in
    subst (SendsOne ctx) (sym (if_true _ _ _ test)) (
      ended (record ctx { user_input_chan = ctx.user_input_chan ++ input ∷ [] })
        (omega (arith, length-append ctx.user_input_chan (input ∷ []))))

SendsOne-if :
    (ctx : ProgCtx) (b : Bool) (x y : Option ProgCtx)
    → SendsOne ctx x
    → SendsOne ctx y
    → SendsOne ctx (if b then x else y)
SendsOne-if ctx true x y h k = h
SendsOne-if ctx false x y h k = k

-- Nothing is sent.
silent :
    (ctx after : ProgCtx)
    → length after.user_input_chan ≡ length ctx.user_input_chan
    → SendsOne ctx (some after)
silent ctx after e = ended after (omega (arith, e))

-- From a context with the same channel of inputs.
same_chan :
    (ctx other : ProgCtx) (o : Option ProgCtx)
    → length other.user_input_chan ≡ length ctx.user_input_chan
    → SendsOne other o
    → SendsOne ctx o
same_chan ctx other none e h = elim h [ ]
same_chan ctx other (some after) e (ended _ h) = ended after (omega (arith, e, h))

module _ (F : FloatOps) (ctx : ProgCtx) (free : length ctx.user_input_chan < input_chan_size) where
  connect_with-SendsOne :
      (amount : ℤ) (written : Option Bytes) → SendsOne ctx (connect_with amount written ctx)
  unfolding connect_with
  connect_with-SendsOne amount none = silent ctx _ refl
  connect_with-SendsOne amount (some written) = same_chan ctx _ _ refl (
      send_input-SendsOne (evt_connect ctx.state.server_ip ctx.state.server_port)
        (set_player ctx.state.nickname (record no_player { chip_count = amount }) ctx) free)

  parsed_chips-SendsOne : (p : ℤ × Option NumError) → SendsOne ctx (parsed_chips F p ctx)
  unfolding parsed_chips
  parsed_chips-SendsOne (amount, some err) = silent ctx _ refl
  parsed_chips-SendsOne (amount, none) = connect_with-SendsOne amount (write_var_int F amount)

  click_connect-SendsOne : SendsOne ctx (click_connect F ctx)
  unfolding click_connect
  click_connect-SendsOne =
      SendsOne-if ctx (length ctx.state.nickname == 0 || ltb 9999 (length ctx.state.nickname)) _ _
        (silent ctx (add_popup (codes "Please enter a nick within the length limits") 3 ctx) refl)
        (SendsOne-if ctx (length ctx.state.chips_str == 0 || ltb 100 (length ctx.state.chips_str)) _
          _
          (silent ctx (add_popup (codes "Please enter chip value within the length limits") 3 ctx)
            refl)
          (parsed_chips-SendsOne (parse_int (trim_space ctx.state.chips_str))))

  send_bet-SendsOne : (written : Option Bytes) → SendsOne ctx (send_bet written ctx)
  unfolding send_bet
  send_bet-SendsOne none = silent ctx _ refl
  send_bet-SendsOne (some net_str) = same_chan ctx _ _ refl (
      send_input-SendsOne (evt_game_action (codes "BETT") net_str)
        (on_state (λ s. record s { bet_amount = [] }) ctx) free)

  bet_of_player-SendsOne :
      (amount : ℤ) (found : Option PlayerData) → SendsOne ctx (bet_of_player F amount found ctx)
  unfolding bet_of_player
  bet_of_player-SendsOne amount none = silent ctx _ refl
  bet_of_player-SendsOne amount (some my_data) =
      SendsOne-if ctx (ltb_ℤ my_data.chip_count amount) _ _ (silent ctx _ refl)
        (send_bet-SendsOne (write_var_int F amount))

  parsed_bet-SendsOne : (p : ℤ × Option NumError) → SendsOne ctx (parsed_bet F p ctx)
  unfolding parsed_bet
  parsed_bet-SendsOne (amount, some err) = silent ctx _ refl
  parsed_bet-SendsOne (amount, none) =
      SendsOne-if ctx (ltb_ℤ (pos 0) amount) _ _
        (bet_of_player-SendsOne amount (lookup ctx.state.nickname ctx.state.table.players))
        (silent ctx _ refl)

  click_bet-SendsOne : SendsOne ctx (click_bet F ctx)
  unfolding click_bet
  click_bet-SendsOne =
      SendsOne-if ctx (length (trim_space ctx.state.bet_amount) == 0) _ _ (silent ctx _ refl)
        (parsed_bet-SendsOne (parse_int (trim_space ctx.state.bet_amount)))

  click_room-SendsOne : (after : Option Bytes) → SendsOne ctx (click_room after ctx)
  unfolding click_room
  click_room-SendsOne none = silent ctx _ refl
  click_room-SendsOne (some after) = send_input-SendsOne (evt_room_join after) ctx free

  handle_source-SendsOne :
      (source : Source) (id : Bytes) → SendsOne ctx (handle_source F source id ctx)
  unfolding handle_source
  handle_source-SendsOne connect_btn id = click_connect-SendsOne
  handle_source-SendsOne game_bet id = click_bet-SendsOne
  handle_source-SendsOne other_source id = click_room-SendsOne (cut_prefix id (codes "join_"))
  handle_source-SendsOne _ id = send_input-SendsOne _ ctx free

  -- While the channel has room, an event of the screen is handled to the end.
  pub handle_ui_event-SendsOne : (id : Bytes) → SendsOne ctx (handle_ui_event F id ctx)
  unfolding handle_ui_event
  handle_ui_event-SendsOne id = handle_source-SendsOne (source_of id) id
