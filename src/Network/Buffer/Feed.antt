-- ===== src/Network/Buffer/Feed.antt =====
-- A description of `processBuffer` without the buffer: one byte after the other is given to
-- `ParseByte`, each finished message is dispatched and the parser reset, and an invalid byte loses
-- the connection and ends the work.
use kiv_ups.Prelude.{
  ℕ, zero, suc, ◌+◌, ◌-◌, ◌≤◌, ◌<◌, ◌≡◌, refl, ◌∙◌, Bool, true, false, [], ◌∷◌, arith, Bytes,
  length, drop, length-drop, drop-length, if◌then◌else◌, ◌==◌,
}
use kiv_ups.Serde.Parser.{
  Parser, ParserState, ok, done, invalid, init, payload_msg, parse_byte, scan, results,
}
use kiv_ups.Serde.Parser.Scan.{
  state_case, is_ok, is_done, is_invalid, scan_ok, scan_done, scan_invalid,
}
use kiv_ups.Network.{NetHandler, Wire}
use kiv_ups.Network.Handler.{handle_connection_lost}
use kiv_ups.Network.Buffer.Round.{parse_bytes-scan, round_more, round_done, round_error}
use kiv_ups.Network.Buffer.{dispatch, process_from, process_buffer}

sub_zero : (j : ℕ) → j - 0 ≡ j
sub_zero j = omega arith

module _ (write_ok : Wire → Bytes → Bool) where
  -- The dispatch of the message that the parser holds.
  abbrev pub deliver : Parser → NetHandler → NetHandler
  deliver p nh = dispatch write_ok p.code (if p.msg_type == payload_msg then p.payload else []) nh

  -- The flag says whether the bytes were all read.
  unfoldable pub feed : Bytes → Parser → NetHandler → Parser × NetHandler × Bool
  feed [] p nh = (p, nh, true)
  feed (c ∷ bytes) p nh =
      let (p', state) = parse_byte p c in
      elim state [
        | ok ↦ feed bytes p' nh
        | done ↦ feed bytes init (deliver p' nh)
        | invalid ↦ (p', handle_connection_lost nh, false)
      ]

  module _ (p : Parser) (c : ℕ) (bytes : Bytes) (nh : NetHandler) where
    pub feed_ok : (parse_byte p c).1 ≡ ok → feed (c ∷ bytes) p nh ≡ feed bytes (parse_byte p c).0 nh
    unfolding feed
    feed_ok h = rw (h, feed)

    pub feed_done :
        (parse_byte p c).1 ≡ done
        → feed (c ∷ bytes) p nh ≡ feed bytes init (deliver (parse_byte p c).0 nh)
    unfolding feed
    feed_done h = rw (h, feed)

    pub feed_invalid :
        (parse_byte p c).1 ≡ invalid
        → feed (c ∷ bytes) p nh ≡ ((parse_byte p c).0, handle_connection_lost nh, false)
    unfolding feed
    feed_invalid h = rw (h, feed)

  -- How the loop of `ParseBytes`, from `i` bytes read, stands to the description.
  abbrev pub Agrees :
      Bytes → NetHandler → ℕ → Parser × NetHandler × Bool → Parser × ParserState × ℕ → Type 0
  Agrees bytes nh i f (p, ok, j) = (f ≡ (p, nh, true)) × (j ≡ i + length bytes)
  Agrees bytes nh i f (p, done, j) = (f ≡ feed (drop (j - i) bytes) init (deliver p nh)) × (i < j)
  Agrees bytes nh i f (p, invalid, j) = f ≡ (p, handle_connection_lost nh, false)

  Agrees-cons :
      (c : ℕ) (bytes : Bytes) (nh : NetHandler) (i : ℕ) (f : Parser × NetHandler × Bool)
      (s : Parser × ParserState × ℕ)
      → Agrees bytes nh (i + 1) f s
      → Agrees (c ∷ bytes) nh i f s
  Agrees-cons c bytes nh i f (p, ok, j) (e, k) = (e, omega arith)
  Agrees-cons c bytes nh i f (p, done, j) (e, k) =
      let shift : j - i ≡ suc (j - (i + 1)) = omega arith in (rw shift e, omega arith)
  Agrees-cons c bytes nh i f (p, invalid, j) e = e

  pub scan-Agrees :
      (bytes : Bytes) (p : Parser) (nh : NetHandler) (i : ℕ)
      → Agrees bytes nh i (feed bytes p nh) (scan p bytes i)
  scan-Agrees [] p nh i = unfold scan feed in (refl, omega arith)
  scan-Agrees (c ∷ bytes) p nh i = elim (state_case (parse_byte p c).1) [
    | is_ok h ↦
        rw (scan_ok p c bytes i h, feed_ok p c bytes nh h)
          (Agrees-cons c bytes nh i _ _ (scan-Agrees bytes (parse_byte p c).0 nh (i + 1)))
    | is_done h ↦
        let one : i + 1 - i ≡ 1 = omega arith in
        rw (scan_done p c bytes i h, feed_done p c bytes nh h, one) (refl, omega arith)
    | is_invalid h ↦ rw (scan_invalid p c bytes i h, feed_invalid p c bytes nh h) refl
  ]

  -- One round of `processBuffer`, for each way that the loop of `ParseBytes` can end.
  module _ (fuel : ℕ) (c : ℕ) (bytes : Bytes) (p : Parser) (nh : NetHandler) where
    round :
        ((rest : Bytes) (q : Parser) (mh : NetHandler)
          → length rest ≤ fuel
          → process_from write_ok fuel rest q mh ≡ ((feed rest q mh).0, (feed rest q mh).1))
        → length bytes ≤ fuel
        → (s : Parser × ParserState × ℕ) → scan p (c ∷ bytes) 0 ≡ s
        → Agrees (c ∷ bytes) nh 0 (feed (c ∷ bytes) p nh) s
        → process_from write_ok (suc fuel) (c ∷ bytes) p nh
          ≡ ((feed (c ∷ bytes) p nh).0, (feed (c ∷ bytes) p nh).1)
    unfolding results
    round ih short (p', ok, j) e (f, k) =
        let pb = parse_bytes-scan p (c ∷ bytes) e in
        let all : j ≡ length (c ∷ bytes) = omega arith in
        round_more write_ok fuel c bytes p nh (rw pb) (rw pb)
        ∙ rw (pb, f, drop-length (c ∷ bytes) j all)
            (ih [] p' nh (omega arith) ∙ unfold feed in refl)
    round ih short (p', done, j) e (f, k) =
        let pb = parse_bytes-scan p (c ∷ bytes) e in
        round_done write_ok fuel c bytes p nh (rw pb) (rw pb)
        ∙ rw (pb, f, sub_zero j)
            (ih (drop j (c ∷ bytes)) init (deliver p' nh)
              (omega (arith, length-drop j (c ∷ bytes))))
    round ih short (p', invalid, j) e f =
        let pb = parse_bytes-scan p (c ∷ bytes) e in
        round_error write_ok fuel c bytes p nh (rw pb) ∙ rw (pb, f)

  -- The fuel that `process_buffer` gives is enough for every byte.
  process_from-feed :
      (fuel : ℕ) (bytes : Bytes) (p : Parser) (nh : NetHandler)
      → length bytes ≤ fuel
      → process_from write_ok fuel bytes p nh ≡ ((feed bytes p nh).0, (feed bytes p nh).1)
  process_from-feed fuel [] p nh h = unfold process_from feed in refl
  process_from-feed zero (c ∷ bytes) p nh h = absurd (omega arith)
  process_from-feed (suc fuel) (c ∷ bytes) p nh h =
      round fuel c bytes p nh (λ rest q mh. process_from-feed fuel rest q mh) (omega arith)
        (scan p (c ∷ bytes) 0) refl (scan-Agrees (c ∷ bytes) p nh 0)

  -- `processBuffer` handles a buffer byte by byte: the same parser and the same state of the
  -- handler, for every buffer, parser and state.
  pub process_buffer-feed :
      (buffer : Bytes) (p : Parser) (nh : NetHandler)
      → process_buffer write_ok buffer p nh ≡ ((feed buffer p nh).0, (feed buffer p nh).1)
  unfolding process_buffer
  process_buffer-feed buffer p nh = process_from-feed (length buffer) buffer p nh (omega arith)
