-- ===== src/Client/Game.antt =====
-- The message cases of `StateInGame.HandleNetwork` in StateMachine.go, one function each.
pub mod Chips
use kiv_ups.Prelude.{
  ℕ, Bool, true, false, List, [], ◌∷◌, ◌++◌, Option, none, some, if◌then◌else◌, Bytes, codes, same,
}
use kiv_ups.Prelude.Int.{ℤ, pos, add_int, sub_int}
use kiv_ups.GoLib.{FloatOps}
use kiv_ups.GoLib.Decimal.{format_int}
use kiv_ups.GoLib.Panic.{Outcome, returned, ◌>>=◌}
use kiv_ups.GoLib.Strconv.{parse_int}
use kiv_ups.Serde.Fields.{read_string}
use kiv_ups.Serde.Message.{ParseType, small_int, var_int, string, parse_message}
use kiv_ups.Network.{net_disconnect}
use kiv_ups.Client.Map.{map_values}
use kiv_ups.Client.Data.{PlayerData, Card, ProgCtx}
use kiv_ups.Client.Effects.{
  send_command, send_net_msg, signal, add_popup, on_state, on_table, player, set_player,
  update_player,
}
use kiv_ups.Client.Cards.{open_card, hidden_card}
use kiv_ups.Client.Payloads.{hidden_cards}
use kiv_ups.Client.Values.{int_at, str_at}
use kiv_ups.Client.Logic.{
  GameAction, bet_action, call_action, check_action, fold_action, ready_action, LogicState,
  main_menu, in_game, Reply, stay, goto,
}

-- `nick, _ := ReadString(…)`
abbrev nick_or_empty : Option Bytes → Bytes
nick_or_empty none = []
nick_or_empty (some nick) = nick

abbrev pub read_nick : Bytes → Outcome Bytes
read_nick payload = do nick ← read_string payload; returned (nick_or_empty nick)

unfoldable pub player_ready : Bytes → ProgCtx → Outcome ProgCtx
player_ready payload ctx = do
  nick ← read_nick payload
  returned (update_player nick (λ p. record p { is_ready = true }) ctx)

unfoldable pub game_started : ProgCtx → ProgCtx
game_started ctx =
    let phased = on_table (λ t. record t { round_phase = codes "PreFlop" }) ctx in
    let emptied = update_player ctx.state.nickname (λ p. record p { cards = [] }) phased in
    add_popup (codes "Game started!") 2
      (on_table (λ t. record t { community_cards = []; pot = pos 0; high_bet = pos 0 }) emptied)

unfoldable pub cards_dealt : FloatOps → Bytes → LogicState → ProgCtx → Outcome Reply
cards_dealt F payload s ctx = do
  (results, _, err) ← parse_message F payload (small_int ∷ small_int ∷ [])
  elim err [
    | some _ ↦ goto main_menu s (
        send_command net_disconnect (add_popup (codes "Error during parsing, disconnecting") 3 ctx))
    | none ↦ do
      c1 ← int_at results 0
      c2 ← int_at results 1
      stay s (
          send_net_msg (signal (codes "CDOK")) (
            update_player ctx.state.nickname
              (λ p. record p { cards = open_card c1 ∷ open_card c2 ∷ [] }) ctx))
  ]

-- One player at the end of a betting round.
abbrev pub collect_bet : Bytes → PlayerData → PlayerData
collect_bet name p = record p {
  total_bet = add_int p.total_bet p.round_bet;
  round_bet = pos 0;
  action_taken = codes "NONE";
  action_amount = pos 0;
}

unfoldable pub game_round : ProgCtx → ProgCtx
game_round ctx =
    on_table (λ t. record t { high_bet = pos 0; players = map_values collect_bet t.players }) ctx

unfoldable pub river_card : Bytes → ProgCtx → ProgCtx
river_card payload ctx =
    let card = open_card (parse_int payload).0 in
    add_popup (codes "Community card: " ++ card.symbol) 2
      (on_table (λ t. record t { community_cards = t.community_cards ++ card ∷ [] }) ctx)

-- `%t`
abbrev format_bool : Bool → Bytes
format_bool true = codes "true"
format_bool false = codes "false"

-- "PTRN" with the name that was read.
unfoldable pub turn_of : Bytes → ProgCtx → ProgCtx
turn_of name ctx =
    let turned =
      on_table
        (λ t. record t {
          players = map_values (λ k p. record p { is_my_turn = same k name }) t.players;
        })
        ctx in
    let mine = player name turned in
    if same name turned.state.nickname
    then add_popup
        (codes "Your turn! [ "
          ++ (format_bool mine.is_my_turn
              ++ (codes " | " ++ (format_bool mine.is_folded ++ codes " ]"))))
        5 turned
    else turned

unfoldable pub player_turn : Bytes → ProgCtx → Outcome ProgCtx
unfolding turn_of
player_turn payload ctx = do name ← read_nick payload; returned (turn_of name ctx)

unfoldable pub timed_out : Bytes → ProgCtx → Outcome ProgCtx
timed_out payload ctx = do
  name ← read_nick payload
  returned (
      update_player name (λ p. record p { is_my_turn = false; is_folded = true })
        (if same name ctx.state.nickname
          then add_popup (codes "You timed out") 2 ctx
          else add_popup (name ++ codes " Timed Out") 2 ctx))

-- The switch on `s.last_action` under "ACOK".
unfoldable pub accept_action : Option GameAction → ProgCtx → ProgCtx
accept_action (some (bet_action amount)) ctx =
    update_player ctx.state.nickname (λ p. record p { chip_count = sub_int p.chip_count amount })
      (on_table (λ t. record t { high_bet = amount; pot = add_int t.pot amount }) ctx)
accept_action (some (call_action amount)) ctx =
    update_player ctx.state.nickname (λ p. record p { chip_count = sub_int p.chip_count amount })
      (on_table (λ t. record t { pot = add_int t.pot amount }) ctx)
accept_action (some ready_action) ctx =
    update_player ctx.state.nickname (λ p. record p { is_ready = true }) ctx
accept_action (some fold_action) ctx =
    update_player ctx.state.nickname (λ p. record p { is_folded = true }) ctx
accept_action (some check_action) ctx = ctx
accept_action none ctx = ctx

unfoldable pub action_ok : Option GameAction → ProgCtx → ProgCtx
unfolding accept_action
action_ok last ctx = add_popup (codes "Action accepted") 1 (accept_action last ctx)

unfoldable pub game_won : FloatOps → Bytes → ProgCtx → Outcome ProgCtx
game_won F payload ctx = do
  (res, _, err) ← parse_message F payload (string ∷ var_int ∷ [])
  elim err [
    | some _ ↦ returned ctx
    | none ↦ do
      winner ← str_at res 0
      amount ← int_at res 1
      returned (
          add_popup
            (codes "Player: "
              ++ (winner ++ (codes " won " ++ (format_int amount ++ codes " chips"))))
            5
            (update_player winner (λ p. record p { chip_count = add_int p.chip_count amount }) ctx))
  ]

-- One player when the game is done; the own cards are cleared, the others' hidden again.
abbrev pub new_round : Bytes → Bytes → PlayerData → PlayerData
new_round nickname name p = record p {
  is_ready = false;
  is_my_turn = false;
  is_folded = false;
  cards = if same name nickname then [] else hidden_cards;
  round_bet = pos 0;
  total_bet = pos 0;
  action_amount = pos 0;
  action_taken = codes "NONE";
}

unfoldable pub game_done : ProgCtx → ProgCtx
game_done ctx = send_net_msg (signal (codes "DNOK")) (
    add_popup (codes "Round ended. Starting new round...") 3 (
      on_state
        (λ s. record s {
          showdown = false;
          table = record {
            players = map_values (new_round s.nickname) s.table.players;
            community_cards = [];
            pot = pos 0;
            high_bet = pos 0;
            round_phase = [];
          };
        })
        ctx))
