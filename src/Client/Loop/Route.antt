-- ===== src/Client/Loop/Route.antt =====
-- The graph of the client's states as the handlers of StateMachine.go draw it, as a relation.
use kiv_ups.Prelude.{◌≡◌, Option, none, some}
use kiv_ups.GoLib.Panic.{Outcome, returned, panic, ◌>>=◌}
use kiv_ups.Client.Logic.{
  LogicState, main_menu, sending_info, requesting_rooms, lobby, joining_room, connecting, in_game,
  Reply,
}

-- A state without what it remembers.
pub data Kind : Type 0 where
  k_menu k_connecting k_sending k_requesting k_lobby k_joining k_game : Kind

abbrev pub kind : LogicState → Kind
kind main_menu = k_menu
kind (connecting r) = k_connecting
kind sending_info = k_sending
kind requesting_rooms = k_requesting
kind lobby = k_lobby
kind joining_room = k_joining
kind (in_game last) = k_game

-- The moves: a connection, the way forward to the game, the way back, and the loss of a connection.
pub data Edge : Kind → Kind → Type 0 where
  connect : Edge k_menu k_connecting
  connected : Edge k_connecting k_connecting
  welcomed : Edge k_connecting k_sending
  rejoined : Edge k_connecting k_joining
  refused : Edge k_connecting k_menu
  informed : Edge k_sending k_requesting
  unwanted : Edge k_sending k_menu
  reconnect_sending : Edge k_sending k_connecting
  listed : Edge k_requesting k_lobby
  lost_requesting : Edge k_requesting k_menu
  reconnect_requesting : Edge k_requesting k_connecting
  join : Edge k_lobby k_joining
  refresh : Edge k_lobby k_requesting
  leave_lobby : Edge k_lobby k_menu
  reconnect_lobby : Edge k_lobby k_connecting
  joined : Edge k_joining k_game
  rejected : Edge k_joining k_lobby
  lost_joining : Edge k_joining k_menu
  reconnect_joining : Edge k_joining k_connecting
  leave_game : Edge k_game k_lobby
  lost_game : Edge k_game k_menu
  reconnect_game : Edge k_game k_connecting

-- A state stays what it is, or takes an edge.
abbrev Goes : Kind → Option LogicState → Type 0
Goes k none = Unit
Goes k (some next) = Edge k (kind next)

abbrev pub Replies : LogicState → Reply → Type 0
Replies s (ctx, self, next) = (kind self ≡ kind s) × Goes (kind s) next

abbrev pub Follows : LogicState → Outcome Reply → Type 0
Follows s (returned reply) = Replies s reply
Follows s panic = Unit

pub Follows->>= {ℓ} :
    {A : Type ℓ} (s : LogicState) (m : Outcome A) (next : A → Outcome Reply)
    → ((a : A) → Follows s (next a))
    → Follows s (m >>= next)
Follows->>= s (returned a) next h = h a
Follows->>= s panic next h = tt
