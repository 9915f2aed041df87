-- ===== src/Network/Handler.antt =====
-- Methods of `NetHandler` that run to their end: the loss of a connection, sending, and the liveness
-- check of the ticker. A method returns the new state. Whether a write to a socket succeeds is the
-- parameter `write_ok`, given the wire so far and the bytes.
use kiv_ups.Prelude.{
  ℕ, ◌+◌, Bool, true, false, not, ◌&&◌, [], ◌∷◌, ◌++◌, Option, none, some, leb, if◌then◌else◌,
  Bytes, codes, same,
}
use kiv_ups.Serde.NetMsg.{NetMsg, to_string}
use kiv_ups.Network.{
  NetEvent, net_disconnected, ConnectionState, state_disconnected, state_connected,
  state_reconnecting, reconnect_loop, Wire, NetHandler,
}

abbrev pub is_connected : ConnectionState → Bool
is_connected state_connected = true
is_connected _ = false

abbrev pub is_disconnected : ConnectionState → Bool
is_disconnected state_disconnected = true
is_disconnected _ = false

abbrev pub set_state : ConnectionState → NetHandler → NetHandler
set_state s nh = record nh { state = s }

-- `nh.eventChan <- e`
abbrev pub emit : NetEvent → NetHandler → NetHandler
emit e nh = record nh { event_chan = nh.event_chan ++ e ∷ [] }

unfoldable pub close_conn : Option ℕ → NetHandler → NetHandler
close_conn none nh = nh
close_conn (some c) nh = record nh { closed = nh.closed ++ c ∷ []; conn = none }

unfoldable pub disconnect_internal : NetHandler → NetHandler
unfolding close_conn
disconnect_internal nh = close_conn nh.conn nh

-- The second half of `handleConnectionLost`, when a connection was lost.
unfoldable pub lose : NetHandler → NetHandler
unfolding disconnect_internal
lose nh =
    let down = set_state state_reconnecting (disconnect_internal nh) in
    if not (same down.host []) && not (same down.port [])
    then record down {
      active = true;
      attempts = 0;
      started = down.started ++ reconnect_loop down.host down.port ∷ [];
    }
    else emit net_disconnected (set_state state_disconnected down)

unfoldable pub handle_connection_lost : NetHandler → NetHandler
unfolding lose
handle_connection_lost nh =
    if not (is_connected nh.state)
    then nh
    else if nh.user_disconnect
    then set_state state_disconnected nh
    else lose nh

pub data SendError : Type 0 where
  not_connected no_connection write_failed : SendError

module _ (write_ok : Wire → Bytes → Bool) where
  -- The write itself, on the connection found.
  unfoldable pub write_to : Option ℕ → NetMsg → NetHandler → NetHandler × Option SendError
  unfolding handle_connection_lost
  write_to none msg nh = (nh, some no_connection)
  write_to (some c) msg nh =
      let bytes = to_string msg in
      if write_ok nh.wire bytes
      then (record nh { wire = nh.wire ++ (c, bytes) ∷ [] }, none)
      else (handle_connection_lost nh, some write_failed)

  unfoldable pub send_message : NetMsg → NetHandler → NetHandler × Option SendError
  unfolding write_to
  send_message msg nh =
      if not (is_connected nh.state) then (nh, some not_connected) else write_to nh.conn msg nh

  unfoldable pub send_alive : NetHandler → NetHandler
  unfolding send_message
  send_alive nh = (send_message (record { code = codes "ALV?"; payload = [] }) nh).0

unfoldable pub check_alive : NetHandler → NetHandler
unfolding handle_connection_lost
check_alive nh =
    let counted =
      if not nh.alive_received then record nh { alive_missed = nh.alive_missed + 1 } else nh in
    if leb 2 counted.alive_missed then handle_connection_lost counted else counted

abbrev pub clear_alive : NetHandler → NetHandler
clear_alive nh = record nh { alive_received = false }

-- The ticker's case of `Run`.
unfoldable pub tick : (Wire → Bytes → Bool) → NetHandler → NetHandler
unfolding check_alive send_alive
tick write_ok nh =
    if is_connected nh.state then send_alive write_ok (clear_alive (check_alive nh)) else nh
