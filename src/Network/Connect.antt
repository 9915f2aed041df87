-- ===== src/Network/Connect.antt =====
-- Connecting in sp/client/ups_net/network.go: `handleCommand`, `handleConnect`, `handleDisconnect` and
-- `connectWithRetry`. What `net.Dial` returns is an argument: a socket, or none after an error. A
-- reconnecting loop is given one round after the other: the result of dialling, and what the wait
-- behind it took, the timer (none) or a command; no other thread changes the handler in between.
pub mod GivingUp
use kiv_ups.Prelude.{
  ℕ, ◌+◌, Bool, true, false, not, ◌||◌, List, [], ◌∷◌, ◌++◌, Option, none, some, ltb, if◌then◌else◌,
  Bytes,
}
use kiv_ups.Network.{
  reconnect_max, NetHandler, NetCommand, net_connect, net_disconnect, net_shutdown, net_connecting,
  net_connected, net_reconnected, net_reconnecting, net_disconnected, state_connected,
  state_connecting, state_disconnected, state_reconnecting, reader_loop,
}
use kiv_ups.Network.Handler.{is_disconnected, set_state, emit, disconnect_internal}

-- What follows a successful dial, but for the event and the bookkeeping of a reconnect.
abbrev pub revive : ℕ → NetHandler → NetHandler
revive c nh = record nh {
  alive_missed = 0;
  alive_received = false;
  started = nh.started ++ reader_loop c ∷ [];
}

abbrev pub set_connection : ℕ → NetHandler → NetHandler
set_connection c nh = record nh { conn = some c }

-- No connection comes about.
unfoldable pub give_up : NetHandler → NetHandler
give_up nh = emit net_disconnected (set_state state_disconnected (disconnect_internal nh))

-- The loop of a first connection, which makes one round.
unfoldable pub connect_round : Option ℕ → NetHandler → NetHandler
unfolding give_up
connect_round none nh = give_up nh
connect_round (some c) nh =
    revive c (emit net_connected (set_state state_connected (set_connection c nh)))

unfoldable pub connect_once : Option ℕ → NetHandler → NetHandler
unfolding connect_round
connect_once dialled nh =
    if nh.user_disconnect
    then set_state state_disconnected nh
    else if nh.shutdown
    then nh
    else if is_disconnected nh.state
    then nh
    else connect_round dialled nh

unfoldable pub handle_connect : Option ℕ → Bytes → Bytes → NetHandler → NetHandler
unfolding connect_once
handle_connect dialled host port nh =
    if not (is_disconnected nh.state)
    then nh
    else if nh.user_disconnect
    then set_state state_disconnected nh
    else (let begun = emit net_connecting (set_state state_connecting nh) in
        connect_once dialled
          (record begun { host = host; port = port; attempts = 0; active = false }))

unfoldable pub handle_disconnect : NetHandler → NetHandler
unfolding give_up
handle_disconnect nh = give_up (record nh { active = false })

unfoldable pub handle_command : Option ℕ → NetCommand → NetHandler → NetHandler
unfolding handle_connect handle_disconnect
handle_command dialled (net_connect host port) nh =
    handle_connect dialled host port (record nh { user_disconnect = false })
handle_command dialled net_disconnect nh = handle_disconnect (record nh { user_disconnect = true })
handle_command dialled net_shutdown nh = record nh { shutdown = true }

-- One round: the result of dialling, and what the wait took.
abbrev pub Round : Type 0
Round = Option ℕ × Option NetCommand

-- The wait took a disconnect command.
abbrev pub is_cancelled : Option NetCommand → Bool
is_cancelled (some net_disconnect) = true
is_cancelled _ = false

-- A dial that succeeded.
unfoldable pub reconnected : ℕ → NetHandler → NetHandler
reconnected c nh =
    revive c (record (emit net_reconnected (set_state state_connected (set_connection c nh))) {
      active = false;
      attempts = 0;
    })

-- The loop, as far as the rounds go.
unfoldable pub retry : List Round → NetHandler → NetHandler
unfolding give_up reconnected
retry [] nh = nh
retry ((dialled, waited) ∷ rounds) nh =
    if nh.shutdown || not nh.active
    then nh
    else (let tried = record nh { attempts = nh.attempts + 1 } in
        if ltb reconnect_max tried.attempts
        then give_up tried
        else (let told = emit (net_reconnecting tried.attempts reconnect_max) tried in
            let rest = retry rounds told in
            elim dialled [
              | some c ↦ reconnected c told
              | none ↦
                  if is_cancelled waited
                  then emit net_disconnected (set_state state_disconnected told)
                  else rest
            ]))

unfoldable pub reconnect : List Round → NetHandler → NetHandler
unfolding retry
reconnect rounds nh =
    if nh.user_disconnect
    then set_state state_disconnected (set_state state_reconnecting nh)
    else retry rounds (set_state state_reconnecting nh)
