-- ===== src/Client/Data.antt =====
-- sp/client/src/Data.go: the state that the game thread keeps. Strings are byte lists, `int` is an
-- integer with Go's wrap-around, and a Go map is an association list (its nil value, which occurs
-- only inside one statement of `StateInGame.Exit`, is the empty one). The drawn components are left
-- out of `UIStore`, the mutex and the thread's channels out of `ProgCtx`.
use kiv_ups.Prelude.{ℕ, Bool, true, List, Bytes}
use kiv_ups.Prelude.Int.{ℤ}
use kiv_ups.Serde.NetMsg.{NetMsg}
use kiv_ups.Network.{NetCommand}
use kiv_ups.Client.Map.{Map, IntMap}

pub data UiScreen : Type 0 where
  screen_main_menu screen_connecting screen_reconnecting : UiScreen
  screen_waiting_for_rooms screen_room_select screen_in_game : UiScreen

pub record Room : Type 0 where
  pub id : ℤ
  pub name : Bytes
  pub current_players : ℤ
  pub max_players : ℤ

pub record Card : Type 0 where
  pub id : ℤ
  pub symbol : Bytes
  pub hidden : Bool

pub record PlayerData : Type 0 where
  pub chip_count : ℤ
  pub round_bet : ℤ
  pub total_bet : ℤ
  pub cards : List Card
  pub is_my_turn : Bool
  pub is_folded : Bool
  pub is_ready : Bool
  pub action_taken : Bytes
  pub action_amount : ℤ

pub record PokerTable : Type 0 where
  pub players : Map PlayerData
  pub community_cards : List Card
  pub pot : ℤ
  pub high_bet : ℤ
  pub round_phase : Bytes

pub record GameState : Type 0 where
  pub screen : UiScreen
  pub rooms : IntMap Room
  pub is_connecting : Bool
  pub reconnected : Bool
  pub server_ip : Bytes
  pub server_port : Bytes
  pub nickname : Bytes
  pub chips_str : Bytes
  pub table : PokerTable
  pub bet_amount : Bytes
  pub showdown : Bool

-- The dirty flag of each `UIElement` of `UIStore`.
pub record UiStore : Type 0 where
  pub main_menu : Bool
  pub connecting : Bool
  pub reconnecting : Bool
  pub room_select : Bool
  pub game : Bool

unfoldable pub set_dirty : UiStore → UiStore
set_dirty store = record store { main_menu = true; connecting = true; game = true }

pub data UserInputEvent : Type 0 where
  evt_accept_reconnect evt_decline_reconnect evt_refresh_rooms evt_cancel_connect : UserInputEvent
  evt_quit evt_back_to_main : UserInputEvent
  evt_game_action : Bytes → Bytes → UserInputEvent
  evt_connect : Bytes → Bytes → UserInputEvent
  evt_room_join : Bytes → UserInputEvent

-- A popup: its text, and for how many seconds it stays.
pub record Popup : Type 0 where
  pub text : Bytes
  pub seconds : ℕ

pub record ProgCtx : Type 0 where
  pub state : GameState
  pub should_close : Bool
  pub command_chan : List NetCommand
  pub msg_out_chan : List NetMsg
  pub ui : UiStore
  pub popup : List Popup
  pub user_input_chan : List UserInputEvent
