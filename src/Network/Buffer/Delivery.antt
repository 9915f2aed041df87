-- ===== src/Network/Buffer/Delivery.antt =====
-- What a stream of frames delivers, however the reads cut it into buffers.
use kiv_ups.Prelude.{
  lt→ltb, drop-append, ◌-◌, suc, ◌+◌, ◌<◌, ◌≡◌, refl, sym, ap, ◌∙◌, Bool, true, false, List, [],
  ◌∷◌, ◌++◌, arith, Bytes, length, All, append_assoc, append-nil, codes, same,
}
use mathlib.Core.List.{map}
use kiv_ups.Serde.NetMsg.{NetMsg, to_string}
use kiv_ups.Serde.Parser.{Parser, init, parse_byte}
use kiv_ups.Serde.Parser.Frame.{scan-to_string, finished}
use kiv_ups.Serde.Parser.Scan.{state_case, is_ok, is_done, is_invalid}
use kiv_ups.Network.{NetHandler, Wire, net_message}
use kiv_ups.Network.Buffer.{dispatch, process_buffer}
use kiv_ups.Network.Buffer.Feed.{
  feed, feed_ok, feed_done, feed_invalid, process_buffer-feed, scan-Agrees, deliver,
}

-- A message that the protocol can frame.
abbrev pub IsFramed : NetMsg → Type 0
IsFramed msg = (length msg.code ≡ 4) × (length msg.payload < 10000)

-- The frames of some messages, one after the other.
abbrev pub frames : List NetMsg → Bytes
frames [] = []
frames (msg ∷ msgs) = to_string msg ++ frames msgs

abbrev pub joined : List Bytes → Bytes
joined [] = []
joined (b ∷ bs) = b ++ joined bs

module _ (write_ok : Wire → Bytes → Bool) where
  -- The reads of `readerLoop`: each buffer is processed with the parser that the last one left.
  abbrev pub process_reads : List Bytes → Parser → NetHandler → Parser × NetHandler
  process_reads [] p nh = (p, nh)
  process_reads (b ∷ bs) p nh =
      let (p', nh') = process_buffer write_ok b p nh in process_reads bs p' nh'

  -- The messages dispatched in order.
  abbrev pub dispatch_all : List NetMsg → NetHandler → NetHandler
  dispatch_all [] nh = nh
  dispatch_all (msg ∷ msgs) nh = dispatch_all msgs (dispatch write_ok msg.code msg.payload nh)

  -- Bytes that are all read leave a state from which the next bytes are read.
  feed-append :
      (xs ys : Bytes) (p q : Parser) (nh mh : NetHandler)
      → feed write_ok xs p nh ≡ (q, mh, true)
      → feed write_ok (xs ++ ys) p nh ≡ feed write_ok ys q mh
  feed-append [] ys p q nh mh e = unfold feed in ap (λ s. feed write_ok ys s.0 s.1) e
  feed-append (x ∷ xs) ys p q nh mh e = elim (state_case (parse_byte p x).1) [
    | is_ok h ↦
        feed_ok write_ok p x (xs ++ ys) nh h
        ∙ feed-append xs ys (parse_byte p x).0 q nh mh (sym (feed_ok write_ok p x xs nh h) ∙ e)
    | is_done h ↦
        feed_done write_ok p x (xs ++ ys) nh h
        ∙ feed-append xs ys init q _ mh (sym (feed_done write_ok p x xs nh h) ∙ e)
    | is_invalid h ↦ cc (sym (feed_invalid write_ok p x xs nh h) ∙ e)
  ]

  -- A part of the bytes that are all read is all read.
  feed_part :
      (xs ys : Bytes) (p : Parser) (nh : NetHandler)
      → (feed write_ok (xs ++ ys) p nh).2 ≡ true
      → (feed write_ok xs p nh).2 ≡ true
  feed_part [] ys p nh e = unfold feed in refl
  feed_part (x ∷ xs) ys p nh e = elim (state_case (parse_byte p x).1) [
    | is_ok h ↦
        rw (feed_ok write_ok p x xs nh h)
          (feed_part xs ys (parse_byte p x).0 nh (rw (feed_ok write_ok p x (xs ++ ys) nh h) at e))
    | is_done h ↦
        rw (feed_done write_ok p x xs nh h)
          (feed_part xs ys init _ (rw (feed_done write_ok p x (xs ++ ys) nh h) at e))
    | is_invalid h ↦ cc (rw (feed_invalid write_ok p x (xs ++ ys) nh h) at e)
  ]

  deliver-finished :
      (c p : Bytes) (nh : NetHandler)
      → deliver write_ok (finished (record { code = c; payload = p })) nh ≡ dispatch write_ok c p nh
  deliver-finished c [] nh = refl
  deliver-finished c (x ∷ p) nh = rw (lt→ltb 0 (suc (length p)) (omega arith))

  -- One frame is one dispatch, and leaves a parser that is reset.
  feed-to_string :
      (msg : NetMsg) (rest : Bytes) (nh : NetHandler)
      → IsFramed msg
      → feed write_ok (to_string msg ++ rest) init nh
        ≡ feed write_ok rest init (dispatch write_ok msg.code msg.payload nh)
  feed-to_string msg rest nh (h, k) =
      let agrees =
        rw (scan-to_string msg rest 0 h k) at
          (scan-Agrees write_ok (to_string msg ++ rest) init nh 0) in
      let past = drop-append (to_string msg) rest (0 + length (to_string msg) - 0) (omega arith) in
      agrees.0 ∙ rw (past, deliver-finished msg.code msg.payload nh)

  feed-frames :
      (msgs : List NetMsg) (nh : NetHandler)
      → All IsFramed msgs
      → feed write_ok (frames msgs) init nh ≡ (init, dispatch_all msgs nh, true)
  feed-frames [] nh h = unfold feed in refl
  feed-frames (msg ∷ msgs) nh (h, hs) =
      feed-to_string msg (frames msgs) nh h
      ∙ feed-frames msgs (dispatch write_ok msg.code msg.payload nh) hs

  -- Bytes that are all read may be cut anywhere.
  process_reads-feed :
      (bufs : List Bytes) (p q : Parser) (nh mh : NetHandler)
      → feed write_ok (joined bufs) p nh ≡ (q, mh, true)
      → process_reads bufs p nh ≡ (q, mh)
  process_reads-feed [] p q nh mh e = unfold feed in ap (λ s. (s.0, s.1)) e
  process_reads-feed (b ∷ bs) p q nh mh e =
      let f = feed write_ok b p nh in
      let whole : f.2 ≡ true = feed_part b (joined bs) p nh (ap (λ s. s.2) e) in
      let split = feed-append b (joined bs) p f.0 nh f.1 (ap (λ t. (f.0, f.1, t)) whole) in
      rw (process_buffer-feed write_ok b p nh) (process_reads-feed bs f.0 q f.1 mh (sym split ∙ e))

  -- The frames of any messages, cut into reads in any way, dispatch exactly those messages in order,
  -- and leave the parser reset.
  pub process_reads-frames :
      (msgs : List NetMsg) (bufs : List Bytes) (nh : NetHandler)
      → All IsFramed msgs
      → joined bufs ≡ frames msgs
      → process_reads bufs init nh ≡ (init, dispatch_all msgs nh)
  process_reads-frames msgs bufs nh h e =
      process_reads-feed bufs init init nh (dispatch_all msgs nh) (rw e (feed-frames msgs nh h))

  -- The game thread sees every message but `ALV!` and `PING`, as an event, in order.
  abbrev pub IsOrdinary : NetMsg → Type 0
  IsOrdinary msg = (same msg.code (codes "ALV!") ≡ false) × (same msg.code (codes "PING") ≡ false)

  dispatch-event_chan :
      (msg : NetMsg) (nh : NetHandler)
      → IsOrdinary msg
      → (dispatch write_ok msg.code msg.payload nh).event_chan
        ≡ nh.event_chan ++ net_message msg ∷ []
  unfolding dispatch
  dispatch-event_chan msg nh (a, b) = rw (a, b)

  dispatch_all-event_chan :
      (msgs : List NetMsg) (nh : NetHandler)
      → All IsOrdinary msgs
      → (dispatch_all msgs nh).event_chan ≡ nh.event_chan ++ map net_message msgs
  dispatch_all-event_chan [] nh h = sym (append-nil nh.event_chan)
  dispatch_all-event_chan (msg ∷ msgs) nh (h, hs) =
      dispatch_all-event_chan msgs (dispatch write_ok msg.code msg.payload nh) hs
      ∙ rw (dispatch-event_chan msg nh h, append_assoc)

  -- However the frames of ordinary messages are cut into reads, the events that reach the game
  -- thread are those messages, each once and in the order sent.
  pub process_reads-event_chan :
      (msgs : List NetMsg) (bufs : List Bytes) (nh : NetHandler)
      → All IsFramed msgs
      → All IsOrdinary msgs
      → joined bufs ≡ frames msgs
      → (process_reads bufs init nh).1.event_chan ≡ nh.event_chan ++ map net_message msgs
  process_reads-event_chan msgs bufs nh h k e =
      rw (process_reads-frames msgs bufs nh h e) (dispatch_all-event_chan msgs nh k)
