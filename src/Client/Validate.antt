-- ===== src/Client/Validate.antt =====
-- `validateGameAction` of StateMachine.go: whether an action may be sent, and the popup that says why
-- not.
pub mod Bets
use kiv_ups.Prelude.{
  ℕ, Bool, true, false, not, ◌&&◌, ◌||◌, Option, none, some, [], ◌∷◌, ◌++◌, if◌then◌else◌, Bytes,
  codes, same,
}
use kiv_ups.Prelude.Int.{ℤ, pos, is_zero, ltb_ℤ}
use kiv_ups.GoLib.Decimal.{format_int}
use kiv_ups.GoLib.Strconv.{parse_int, NumError}
use kiv_ups.Client.Map.{lookup}
use kiv_ups.Client.Data.{PlayerData, ProgCtx}
use kiv_ups.Client.Effects.{add_popup}

-- The case "BETT", on what `strconv.Atoi` returned.
unfoldable pub validate_bet : ℤ × Option NumError → PlayerData → ProgCtx → ProgCtx × Bool
validate_bet (bet_amt, some err) my_data ctx = (add_popup (codes "Invalid bet amount") 2 ctx, false)
validate_bet (bet_amt, none) my_data ctx =
    if not (ltb_ℤ (pos 0) bet_amt)
    then (add_popup (codes "Invalid bet amount") 2 ctx, false)
    else if ltb_ℤ my_data.chip_count bet_amt
    then (
      add_popup (codes "You only have " ++ (format_int my_data.chip_count ++ codes " chips")) 3 ctx,
      false,
    )
    else (ctx, true)

-- The switch, for a player whose turn it is.
unfoldable pub validate_turn : Bytes → Bytes → PlayerData → ProgCtx → ProgCtx × Bool
unfolding validate_bet
validate_turn action amount my_data ctx =
    if same action (codes "BETT")
    then validate_bet (parse_int amount) my_data ctx
    else if same action (codes "CALL")
    then (if is_zero ctx.state.table.high_bet
        then (add_popup (codes "There's nothing to call") 2 ctx, false)
        else (ctx, true))
    else if same action (codes "FOLD") || same action (codes "CHCK")
    then (ctx, true)
    else (add_popup (codes "Unknown action") 2 ctx, false)

unfoldable pub validate_player : Option PlayerData → Bytes → Bytes → ProgCtx → ProgCtx × Bool
unfolding validate_turn
validate_player none action amount ctx =
    (add_popup (codes "Error: Player data not found") 3 ctx, false)
validate_player (some my_data) action amount ctx =
    if not my_data.is_my_turn
    then (add_popup (codes "It's not your turn!") 2 ctx, false)
    else validate_turn action amount my_data ctx

unfoldable pub validate_game_action : Bytes → Bytes → ProgCtx → ProgCtx × Bool
unfolding validate_player
validate_game_action action amount ctx =
    if same action (codes "RDY1") || same action (codes "GMLV")
    then (ctx, true)
    else if same action (codes "SDOK")
    then (ctx, ctx.state.showdown)
    else validate_player (lookup ctx.state.nickname ctx.state.table.players) action amount ctx
