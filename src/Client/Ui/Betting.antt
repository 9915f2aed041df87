-- ===== src/Client/Ui/Betting.antt =====
-- The way of a bet from the text box to the validation of the game state.
use kiv_ups.Prelude.{
  ℕ, ◌<◌, ◌^◌, ◌≡◌, refl, ap, ◌∙◌, true, false, not, none, some, [], ◌∷◌, arith, Bytes, codes,
  length, ◌==◌, if_true, if_false, same,
}
use kiv_ups.Prelude.Int.{ℤ, pos, ltb_ℤ}
use kiv_ups.GoLib.{FloatOps, IsExactAt}
use kiv_ups.GoLib.Strconv.{parse_int}
use kiv_ups.GoLib.Trim.{trim_space}
use kiv_ups.Serde.Fields.RoundTrip.{var_int_text, read_var_int-write_var_int}
use kiv_ups.Client.Map.{lookup}
use kiv_ups.Client.Data.{PlayerData, ProgCtx, evt_game_action}
use kiv_ups.Client.Effects.{on_state}
use kiv_ups.Client.Validate.{validate_game_action}
use kiv_ups.Client.Validate.Bets.{spelt, spelt-gt, ltb_pos, validate_game_action-spelt}
use kiv_ups.Client.Ui.{
  send_input, source_of, handle_source, click_bet, parsed_bet, bet_of_player, send_bet,
  handle_ui_event,
}

not_empty : (s : Bytes) {z : ℤ} → parse_int s ≡ (z, none) → (length s == 0) ≡ false
not_empty [] e = unfold parse_int in cc
not_empty (c ∷ s) e = ground arith

module _ (F : FloatOps) (ctx : ProgCtx) (my_data : PlayerData) (b : ℕ)
    (found : lookup ctx.state.nickname ctx.state.table.players ≡ some my_data) (positive : 0 < b)
    (typed : parse_int (trim_space ctx.state.bet_amount) ≡ (pos b, none))
    (covered : ltb_ℤ my_data.chip_count (pos b) ≡ false) (exact : IsExactAt F (pos b)) where
  -- The context with an empty text box.
  abbrev pub emptied : ProgCtx
  emptied = on_state (λ s. record s { bet_amount = [] }) ctx

  bet_of_player-sends :
      b < 2 ^ 63
      → bet_of_player F (pos b) (some my_data) ctx
        ≡ send_input (evt_game_action (codes "BETT") (var_int_text (pos b))) emptied
  unfolding bet_of_player
  bet_of_player-sends h =
      if_false _ _ _ covered
      ∙ ap (λ o. send_bet o ctx)
          (read_var_int-write_var_int F (pos b) [] (omega (arith, h)) exact).0
      ∙ unfold send_bet in refl

  parsed_bet-sends :
      b < 2 ^ 63
      → parsed_bet F (pos b, none) ctx
        ≡ send_input (evt_game_action (codes "BETT") (var_int_text (pos b))) emptied
  unfolding parsed_bet
  parsed_bet-sends h =
      if_true _ _ _ (ltb_pos 0 b positive)
      ∙ ap (λ o. bet_of_player F (pos b) o ctx) found
      ∙ bet_of_player-sends h

  handle_ui_event-sends :
      b < 2 ^ 63
      → handle_ui_event F (codes "Game_Bet") ctx
        ≡ send_input (evt_game_action (codes "BETT") (var_int_text (pos b))) emptied
  unfolding handle_ui_event source_of handle_source same click_bet
  handle_ui_event-sends h =
      if_false _ _ _ (not_empty (trim_space ctx.state.bet_amount) typed)
      ∙ ap (λ r. parsed_bet F r ctx) typed
      ∙ parsed_bet-sends h

  -- A positive bet that is typed into the text box, with the own chips covering it and the floor of
  -- the logarithm exact at it, is sent to the game thread as WriteVarInt encodes it, and the text box
  -- is emptied. On the own turn, and while the number that the encoding spells is an int64, the game
  -- state then sends it exactly if the chips cover that number, and not the bet.
  pub bet_sent_and_judged :
      my_data.is_my_turn ≡ true
      → spelt b < 2 ^ 63
      → (handle_ui_event F (codes "Game_Bet") ctx
          ≡ send_input (evt_game_action (codes "BETT") (var_int_text (pos b))) emptied)
        × ((validate_game_action (codes "BETT") (var_int_text (pos b)) emptied).1
            ≡ not (ltb_ℤ my_data.chip_count (pos (spelt b))))
  bet_sent_and_judged turn fits = (
    handle_ui_event-sends (omega (arith, spelt-gt b, fits)),
    validate_game_action-spelt emptied my_data b found turn positive fits,
  )
