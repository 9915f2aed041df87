-- ===== src/Network/Run.antt =====
-- The loops of network.go: `Run`, which takes from its channels and the ticker, and `readerLoop`. What
-- `select` takes and what the socket gives are arguments, round by round.
use kiv_ups.Prelude.{
  ℕ, ◌≡◌, refl, ◌∙◌, none, some, if_true, if_false, Bool, true, false, List, [], ◌∷◌, Option,
  if◌then◌else◌, Bytes,
}
use kiv_ups.Serde.NetMsg.{NetMsg}
use kiv_ups.Serde.Parser.{Parser}
use kiv_ups.Network.{NetHandler, NetCommand, net_shutdown, Wire}
use kiv_ups.Network.Handler.{
  close_conn, disconnect_internal, send_message, handle_connection_lost, tick,
}
use kiv_ups.Network.Buffer.{process_buffer}
use kiv_ups.Network.Connect.{handle_command}

-- What `select` takes: a command, with the result of the dial that it may lead to, a message, a tick,
-- or nothing.
pub data Selected : Type 0 where
  command : NetCommand → Option ℕ → Selected
  message : NetMsg → Selected
  ticked idle : Selected

-- A result of `conn.Read`.
pub data Arrival : Type 0 where
  received : Bytes → Arrival
  timed_out failed : Arrival

-- `Run` goes on, or has returned; `cleanup` has closed the channels then.
pub data RunState : Type 0 where
  running stopped : NetHandler → RunState

-- `readerLoop` goes on with its parser, or has returned.
pub data ReaderState : Type 0 where
  reading : Parser → NetHandler → ReaderState
  left : NetHandler → ReaderState

-- `cleanup`, but for the channels.
abbrev pub cleanup : NetHandler → NetHandler
cleanup nh = disconnect_internal nh

module _ (write_ok : Wire → Bytes → Bool) where
  unfoldable pub handle_selected : Selected → NetHandler → NetHandler
  unfolding handle_command send_message tick
  handle_selected (command cmd dialled) nh = handle_command dialled cmd nh
  handle_selected (message msg) nh = (send_message write_ok msg nh).0
  handle_selected ticked nh = tick write_ok nh
  handle_selected idle nh = nh

  unfoldable pub run : List Selected → NetHandler → RunState
  unfolding handle_selected disconnect_internal
  run [] nh = if nh.shutdown then stopped (cleanup nh) else running nh
  run (s ∷ rest) nh =
      let later = run rest (handle_selected s nh) in
      if nh.shutdown then stopped (cleanup nh) else later

  unfoldable pub handle_arrival : Arrival → Parser → NetHandler → ReaderState
  unfolding process_buffer handle_connection_lost
  handle_arrival (received buffer) parser nh =
      let (parser', nh') = process_buffer write_ok buffer parser nh in reading parser' nh'
  handle_arrival timed_out parser nh = reading parser nh
  handle_arrival failed parser nh = left (handle_connection_lost nh)

  -- A round of `readerLoop`.
  unfoldable pub read_round : Arrival → Parser → NetHandler → ReaderState
  unfolding handle_arrival
  read_round arrival parser nh = if nh.shutdown then left nh else handle_arrival arrival parser nh

  cleaned :
      (c : Option ℕ) (nh : NetHandler)
      → nh.conn ≡ c
      → ((close_conn c nh).shutdown ≡ nh.shutdown) × ((close_conn c nh).conn ≡ none)
  unfolding close_conn
  cleaned none nh e = (refl, e)
  cleaned (some c) nh e = (refl, refl)

  stops :
      (rest : List Selected) (nh : NetHandler)
      → nh.shutdown ≡ true
      → run rest nh ≡ stopped (cleanup nh)
  unfolding run
  stops [] nh h = if_true _ _ _ h
  stops (s ∷ rest) nh h = if_true _ _ _ h

  -- When `Run` takes the command to shut down, it returns before it takes anything else, whatever the
  -- channels hold, and leaves no connection behind.
  pub run-net_shutdown :
      (dialled : Option ℕ) (rest : List Selected) (nh : NetHandler)
      → nh.shutdown ≡ false
      → (after : NetHandler) × (run (command net_shutdown dialled ∷ rest) nh ≡ stopped after)
        × (after.shutdown ≡ true)
        × (after.conn ≡ none)
  run-net_shutdown dialled rest nh h =
      let down = record nh { shutdown = true } in
      (
        cleanup down,
        unfold run handle_selected handle_command in if_false _ _ _ h ∙ stops rest down refl,
        unfold disconnect_internal in (cleaned nh.conn down refl).0,
        unfold disconnect_internal in (cleaned nh.conn down refl).1,
      )
