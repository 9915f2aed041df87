-- ===== src/Client/Payloads.antt =====
-- `handlePlayerJoined`, `handlePlayerAction` and `handleShowdown` of StateMachine.go. A parse error
-- is only logged, so the context is then unchanged.
use kiv_ups.Prelude.{
  ℕ, zero, suc, true, List, [], ◌∷◌, ◌++◌, Option, none, some, if◌then◌else◌, Bytes, codes, same,
}
use kiv_ups.Prelude.Int.{ℤ, pos, add_int, sub_int}
use kiv_ups.GoLib.{FloatOps}
use kiv_ups.GoLib.Decimal.{format_int}
use kiv_ups.GoLib.Panic.{Outcome, returned, slice_from, ◌>>=◌}
use kiv_ups.Serde.Fields.{read_small_int}
use kiv_ups.Serde.Message.{ParseType, small_int, var_int, string, Any, parse_message}
use kiv_ups.Client.Map.{lookup, delete}
use kiv_ups.Client.Data.{PlayerData, Card, ProgCtx}
use kiv_ups.Client.Effects.{add_popup, on_table, on_state, set_player}
use kiv_ups.Client.Cards.{action_int_to_string, hidden_card, open_card}
use kiv_ups.Client.Values.{int_at, str_at, set_at, is_one}

-- The fields of a player, in `PJIN` and in `RMST`.
abbrev pub player_types : List ParseType
player_types =
    string ∷ var_int ∷ small_int ∷ small_int ∷ small_int ∷ small_int ∷ var_int ∷ var_int ∷ var_int
    ∷ []

abbrev pub hidden_cards : List Card
hidden_cards = hidden_card ∷ hidden_card ∷ []

-- The player that the parsed fields describe, with two hidden cards.
unfoldable pub player_of : List Any → Outcome (Bytes × PlayerData)
player_of res = do
  nick ← str_at res 0
  chips ← int_at res 1
  is_folded ← int_at res 2
  is_ready ← int_at res 3
  is_my_turn ← int_at res 4
  action_taken ← int_at res 5
  action_amount ← int_at res 6
  round_bet ← int_at res 7
  total_bet ← int_at res 8
  returned (
    nick,
    record {
      chip_count = chips;
      round_bet = round_bet;
      total_bet = total_bet;
      cards = hidden_cards;
      is_my_turn = is_one is_my_turn;
      is_folded = is_one is_folded;
      is_ready = is_one is_ready;
      action_taken = action_int_to_string action_taken;
      action_amount = action_amount;
    },
  )

unfoldable pub handle_player_joined : FloatOps → Bytes → ProgCtx → Outcome ProgCtx
unfolding player_of
handle_player_joined F payload ctx = do
  (res, _, err) ← parse_message F payload player_types
  elim err [
    | some _ ↦ returned ctx
    | none ↦ do (nick, info) ← player_of res; returned (set_player nick info ctx)
  ]

abbrev pub action_types : List ParseType
action_types = string ∷ small_int ∷ var_int ∷ []

-- The switch on the action, for a player that exists and whose action has been noted.
unfoldable pub apply_action : Bytes → PlayerData → ProgCtx → ProgCtx
apply_action nick p ctx =
    let amount = p.action_amount in
    if same p.action_taken (codes "BETT")
    then (let bet = record p {
      round_bet = add_int p.round_bet amount;
      chip_count = sub_int p.chip_count amount;
    } in
        set_player nick bet (
          add_popup (nick ++ (codes " bet " ++ format_int amount)) 2 (
            on_table (λ t. record t { high_bet = bet.round_bet; pot = add_int t.pot bet.round_bet })
              ctx)))
    else if same p.action_taken (codes "CALL")
    then set_player nick (record p { round_bet = amount; chip_count = sub_int p.chip_count amount })
        (add_popup (nick ++ (codes " called " ++ format_int amount)) 2
          (on_table (λ t. record t { pot = add_int t.pot amount }) ctx))
    else if same p.action_taken (codes "FOLD")
    then set_player nick (record p { is_folded = true }) (add_popup (nick ++ codes " folded") 2 ctx)
    else if same p.action_taken (codes "CHCK")
    then set_player nick p (add_popup (nick ++ codes " checked") 2 ctx)
    else if same p.action_taken (codes "LEFT")
    then on_table (λ t. record t { players = delete nick t.players })
        (add_popup (nick ++ codes " left") 2 ctx)
    else set_player nick p ctx

unfoldable pub handle_player_action : FloatOps → Bytes → ProgCtx → Outcome ProgCtx
unfolding apply_action
handle_player_action F payload ctx = do
  (res, _, err) ← parse_message F payload action_types
  elim err [
    | some _ ↦ returned ctx
    | none ↦ do
      nick ← str_at res 0
      action_taken ← int_at res 1
      action_amount ← int_at res 2
      elim (lookup nick ctx.state.table.players) [
        | none ↦ returned ctx
        | some p ↦ returned (
            apply_action nick
              (record p {
                action_taken = action_int_to_string action_taken;
                action_amount = action_amount;
              })
              ctx)
      ]
  ]

abbrev pub showdown_types : List ParseType
showdown_types = string ∷ small_int ∷ small_int ∷ []

-- The two writes into a player's cards, which the map shares.
unfoldable pub reveal : Bytes → ℤ → ℤ → ProgCtx → Outcome ProgCtx
reveal nick card_1 card_2 ctx = elim (lookup nick ctx.state.table.players) [
  | none ↦ returned ctx
  | some p ↦ do
    one ← set_at p.cards 0 (open_card card_1)
    both ← set_at one 1 (open_card card_2)
    returned (set_player nick (record p { cards = both }) ctx)
]

-- The loop of `handleShowdown`; after a parse error the same payload is tried again.
unfoldable pub showdown_rounds : FloatOps → ℕ → Bytes → ProgCtx → Outcome ProgCtx
unfolding reveal
showdown_rounds F zero next_payload ctx = returned ctx
showdown_rounds F (suc n) next_payload ctx = do
  (res, consumed, err) ← parse_message F next_payload showdown_types
  elim err [
    | some _ ↦ showdown_rounds F n next_payload ctx
    | none ↦ do
      rest ← slice_from next_payload consumed
      nick ← str_at res 0
      card_1 ← int_at res 1
      card_2 ← int_at res 2
      shown ← reveal nick card_1 card_2 ctx
      showdown_rounds F n rest shown
  ]

-- The count, which is 0 where it cannot be read.
abbrev pub or_none : Option ℕ → ℕ
or_none none = 0
or_none (some n) = n

unfoldable pub handle_showdown : FloatOps → Bytes → ProgCtx → Outcome ProgCtx
unfolding showdown_rounds
handle_showdown F payload ctx = do
  player_count ← read_small_int payload
  next_payload ← slice_from payload (pos 2)
  shown ← showdown_rounds F (or_none player_count) next_payload ctx
  returned (
      add_popup (codes "Showdown! Revealing cards...") 3
        (on_state (λ s. record s { showdown = true }) shown))
