-- ===== src/Client/Effects.antt =====
-- What a handler does to the context: the two channels to the network thread (`SendCommand` and
-- `SendNetMsg` of network.go, which drop what a full channel cannot take), popups, the screen, and
-- the player map.
use kiv_ups.Prelude.{
  ℕ, false, List, [], ◌∷◌, ◌++◌, Option, none, some, ltb, if◌then◌else◌, Bytes, length,
}
use kiv_ups.Prelude.Int.{pos}
use kiv_ups.Serde.NetMsg.{NetMsg}
use kiv_ups.Network.{chan_buf_size, NetCommand}
use kiv_ups.Client.Map.{lookup, insert}
use kiv_ups.Client.Data.{UiScreen, GameState, PokerTable, PlayerData, ProgCtx, set_dirty}

-- A send that gives up when the channel is full.
abbrev pub try_send {ℓ} : {A : Type ℓ} → List A → A → List A
try_send channel a = if ltb (length channel) chan_buf_size then channel ++ a ∷ [] else channel

abbrev pub send_command : NetCommand → ProgCtx → ProgCtx
send_command cmd ctx = record ctx { command_chan = try_send ctx.command_chan cmd }

abbrev pub send_net_msg : NetMsg → ProgCtx → ProgCtx
send_net_msg msg ctx = record ctx { msg_out_chan = try_send ctx.msg_out_chan msg }

-- A message with no payload.
abbrev pub signal : Bytes → NetMsg
signal code = record { code = code; payload = [] }

abbrev pub add_popup : Bytes → ℕ → ProgCtx → ProgCtx
add_popup text seconds ctx = record ctx {
  popup = ctx.popup ++ record { text = text; seconds = seconds } ∷ [];
}

abbrev pub on_state : (GameState → GameState) → ProgCtx → ProgCtx
on_state f ctx = record ctx { state = f ctx.state }

abbrev pub set_screen : UiScreen → ProgCtx → ProgCtx
set_screen screen = on_state λ s. record s { screen = screen }

abbrev pub on_table : (PokerTable → PokerTable) → ProgCtx → ProgCtx
on_table f = on_state λ s. record s { table = f s.table }

abbrev pub mark_dirty : ProgCtx → ProgCtx
mark_dirty ctx = record ctx { ui = set_dirty ctx.ui }

-- The zero `PlayerData`, which a lookup of a missing player gives.
abbrev pub no_player : PlayerData
no_player = record {
  chip_count = pos 0;
  round_bet = pos 0;
  total_bet = pos 0;
  cards = [];
  is_my_turn = false;
  is_folded = false;
  is_ready = false;
  action_taken = [];
  action_amount = pos 0;
}

abbrev pub or_zero : Option PlayerData → PlayerData
or_zero none = no_player
or_zero (some info) = info

-- `data, _ := ctx.State.Table.Players[nick]`
abbrev pub player : Bytes → ProgCtx → PlayerData
player nick ctx = or_zero (lookup nick ctx.state.table.players)

-- `ctx.State.Table.Players[nick] = data`
abbrev pub set_player : Bytes → PlayerData → ProgCtx → ProgCtx
set_player nick info = on_table λ t. record t { players = insert nick info t.players }

-- The two statements around a change of one player's data.
abbrev pub update_player : Bytes → (PlayerData → PlayerData) → ProgCtx → ProgCtx
update_player nick f ctx = set_player nick (f (player nick ctx)) ctx
