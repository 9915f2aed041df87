-- ===== src/Network/Liveness.antt =====
-- `aliveMissed` of network.go, the count of missed answers to `ALV?`, under received bytes and ticks.
use kiv_ups.Prelude.{
  ℕ, ◌+◌, ◌≡◌, refl, ◌∙◌, Bool, true, false, not, ◌&&◌, [], ◌∷◌, Option, none, some, leb,
  if◌then◌else◌, Bytes, codes, same,
}
use kiv_ups.Serde.NetMsg.{NetMsg, to_string}
use kiv_ups.Serde.Parser.{Parser, init, parse_byte}
use kiv_ups.Serde.Parser.Scan.{state_case, is_ok, is_done, is_invalid}
use kiv_ups.Network.{NetHandler, Wire}
use kiv_ups.Network.Handler.{
  SendError, is_connected, disconnect_internal, lose, close_conn, handle_connection_lost,
  send_message, write_to, send_alive, check_alive, clear_alive, tick,
}
use kiv_ups.Network.Buffer.{dispatch, process_buffer}
use kiv_ups.Network.Buffer.Feed.{
  feed, feed_ok, feed_done, feed_invalid, deliver, process_buffer-feed,
}

missed-if :
    (b : Bool) (x y : NetHandler) {n : ℕ}
    → x.alive_missed ≡ n
    → y.alive_missed ≡ n
    → (if b then x else y).alive_missed ≡ n
missed-if true x y h k = h
missed-if false x y h k = k

missed-if_pair :
    (b : Bool) (x y : NetHandler × Option SendError) {n : ℕ}
    → x.0.alive_missed ≡ n
    → y.0.alive_missed ≡ n
    → (if b then x else y).0.alive_missed ≡ n
missed-if_pair true x y h k = h
missed-if_pair false x y h k = k

missed-close : (c : Option ℕ) (nh : NetHandler) → (close_conn c nh).alive_missed ≡ nh.alive_missed
unfolding close_conn
missed-close none nh = refl
missed-close (some c) nh = refl

missed-disconnect : (nh : NetHandler) → (disconnect_internal nh).alive_missed ≡ nh.alive_missed
unfolding disconnect_internal close_conn
missed-disconnect nh = missed-close nh.conn nh

missed-lost : (nh : NetHandler) → (handle_connection_lost nh).alive_missed ≡ nh.alive_missed
unfolding handle_connection_lost lose
missed-lost nh = missed-if (not (is_connected nh.state)) _ _ refl (
    missed-if nh.user_disconnect _ _ refl (
      missed-if
        (not (same (disconnect_internal nh).host []) && not (same (disconnect_internal nh).port []))
        _ _ (missed-disconnect nh) (missed-disconnect nh)))

counted :
    (nh : NetHandler) (b : Bool)
    → (if not b then record nh { alive_missed = nh.alive_missed + 1 } else nh).alive_missed
      ≡ (if b then nh.alive_missed else nh.alive_missed + 1)
counted nh true = refl
counted nh false = refl

missed-judged :
    (nh : NetHandler)
    → (if leb 2 nh.alive_missed then handle_connection_lost nh else nh).alive_missed
      ≡ nh.alive_missed
missed-judged nh = missed-if (leb 2 nh.alive_missed) _ _ (missed-lost nh) refl

missed-check :
    (nh : NetHandler)
    → (check_alive nh).alive_missed
      ≡ (if nh.alive_received then nh.alive_missed else nh.alive_missed + 1)
unfolding check_alive
missed-check nh =
    missed-judged
      (if not nh.alive_received then record nh { alive_missed = nh.alive_missed + 1 } else nh)
    ∙ counted nh nh.alive_received

module _ (write_ok : Wire → Bytes → Bool) where
  missed-write :
      (c : Option ℕ) (msg : NetMsg) (nh : NetHandler)
      → (write_to write_ok c msg nh).0.alive_missed ≡ nh.alive_missed
  unfolding write_to
  missed-write none msg nh = refl
  missed-write (some c) msg nh =
      missed-if_pair (write_ok nh.wire (to_string msg)) _ _ refl (missed-lost nh)

  missed-send :
      (msg : NetMsg) (nh : NetHandler)
      → (send_message write_ok msg nh).0.alive_missed ≡ nh.alive_missed
  unfolding send_message
  missed-send msg nh =
      missed-if_pair (not (is_connected nh.state)) _ _ refl (missed-write nh.conn msg nh)

  missed-dispatch :
      (code payload : Bytes) (nh : NetHandler)
      → (dispatch write_ok code payload nh).alive_missed ≡ nh.alive_missed
  unfolding dispatch
  missed-dispatch code payload nh = missed-if (same code (codes "ALV!")) _ _ refl (
      missed-if (same code (codes "PING")) _ _
        (missed-send (record { code = codes "PING"; payload = [] }) nh) refl)

  missed-feed :
      (bytes : Bytes) (p : Parser) (nh : NetHandler)
      → (feed write_ok bytes p nh).1.alive_missed ≡ nh.alive_missed
  missed-feed [] p nh = unfold feed in refl
  missed-feed (c ∷ bytes) p nh = elim (state_case (parse_byte p c).1) [
    | is_ok h ↦ rw (feed_ok write_ok p c bytes nh h) (missed-feed bytes (parse_byte p c).0 nh)
    | is_done h ↦ rw (feed_done write_ok p c bytes nh h) (
        missed-feed bytes init (deliver write_ok (parse_byte p c).0 nh)
        ∙ missed-dispatch (parse_byte p c).0.code _ nh)
    | is_invalid h ↦ rw (feed_invalid write_ok p c bytes nh h) (missed-lost nh)
  ]

  -- No bytes that are received change the count of missed answers: neither an `ALV!` nor any other
  -- message lowers it.
  pub process_buffer-alive_missed :
      (buffer : Bytes) (p : Parser) (nh : NetHandler)
      → (process_buffer write_ok buffer p nh).1.alive_missed ≡ nh.alive_missed
  process_buffer-alive_missed buffer p nh =
      rw (process_buffer-feed write_ok buffer p nh) (missed-feed buffer p nh)

  -- A tick on a live connection adds one to the count exactly if no `ALV!` came since the last tick,
  -- whatever the writes do.
  pub tick-alive_missed :
      (nh : NetHandler)
      → is_connected nh.state ≡ true
      → (tick write_ok nh).alive_missed
        ≡ (if nh.alive_received then nh.alive_missed else nh.alive_missed + 1)
  unfolding tick send_alive
  tick-alive_missed nh h = rw h (
      missed-send (record { code = codes "ALV?"; payload = [] }) (clear_alive (check_alive nh))
      ∙ missed-check nh)
