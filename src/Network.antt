-- ===== src/Network.antt =====
-- sp/client/ups_net/network.go: the state of `NetHandler` and what it exchanges. `eventChan` is the
-- list of the events put on it; the sockets are numbered, and what is written to one is recorded.
-- The mutexes and the tickers carry no data; `reconnectData.timer` is never set by the source.
pub mod Handler
pub mod Buffer
pub mod Liveness
pub mod Connect
pub mod Run
use kiv_ups.Prelude.{ℕ, ◌+◌, Bool, false, List, [], ◌∷◌, ◌++◌, Option, none, Bytes}
use kiv_ups.Serde.NetMsg.{NetMsg}

abbrev pub chan_buf_size : ℕ
chan_buf_size = 100

abbrev pub reconnect_max : ℕ
reconnect_max = 30

pub data NetEvent : Type 0 where
  net_connecting net_connected net_reconnected net_disconnected : NetEvent
  net_reconnecting : ℕ → ℕ → NetEvent
  net_message : NetMsg → NetEvent

pub data NetCommand : Type 0 where
  net_connect : Bytes → Bytes → NetCommand
  net_disconnect net_shutdown : NetCommand

pub data ConnectionState : Type 0 where
  state_disconnected state_connecting state_connected state_reconnecting : ConnectionState

-- A goroutine that a method starts.
pub data Task : Type 0 where
  reader_loop : ℕ → Task
  reconnect_loop : Bytes → Bytes → Task

-- The bytes written so far, each with its socket.
abbrev pub Wire : Type 0
Wire = List (ℕ × Bytes)

pub record NetHandler : Type 0 where
  pub conn : Option ℕ
  pub user_disconnect : Bool
  pub state : ConnectionState
  pub shutdown : Bool
  pub event_chan : List NetEvent
  pub command_chan : List NetCommand
  pub msg_out_chan : List NetMsg
  pub alive_missed : ℕ
  pub alive_received : Bool
  pub host : Bytes
  pub port : Bytes
  pub attempts : ℕ
  pub active : Bool
  pub started : List Task
  pub closed : List ℕ
  pub wire : Wire

-- `Init` on a zero `NetHandler`.
abbrev pub init : NetHandler
init = record {
  conn = none;
  user_disconnect = false;
  state = state_disconnected;
  shutdown = false;
  event_chan = [];
  command_chan = [];
  msg_out_chan = [];
  alive_missed = 0;
  alive_received = false;
  host = [];
  port = [];
  attempts = 0;
  active = false;
  started = [];
  closed = [];
  wire = [];
}
