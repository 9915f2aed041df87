-- ===== src/Serde/Parser/Frame.antt =====
-- The parser on a whole frame, from its start.
use native.Mathlib.Nat.{add_assoc, add_comm}
use native.Mathlib.Numerals.{add-one}
use kiv_ups.Serde.NetMsg.Text.{
  message, size_text, to_string_short, to_string_long, length-to_string_short,
  length-to_string_long,
}
use kiv_ups.Serde.NetMsg.{NetMsg, to_string}
use kiv_ups.Serde.Fields.RoundTrip.{
  length-format_padded, format_padded-IsDigit, value-format_padded,
}
use kiv_ups.Prelude.{
  lt→ltb, ◌^◌, ltb, if◌then◌else◌, four_bytes, ℕ, suc, ◌+◌, ◌<◌, ◌≡◌, refl, ap, ◌∙◌, true, false,
  [], ◌∷◌, ◌++◌, arith, Bytes, codes, length, length-append, All, IsDigit, append_assoc,
}
use kiv_ups.GoLib.Decimal.{value}
use kiv_ups.Serde.Parser.{
  Parser, size, payload, endline, done, init, payload_msg, no_payload_msg, parse_byte_in, scan,
  parse_bytes, results, ParseResults,
}

-- The parser before the terminator, and before the size, of a frame with code `c`.
abbrev pub at_endline : Bytes → Parser
at_endline c = record init { code = c; phase = endline; code_index = 4 }

abbrev pub at_size : Bytes → Parser
at_size c = record init { code = c; phase = size; msg_type = payload_msg; code_index = 4 }

-- The parser before the payload of `n` bytes.
abbrev pub at_payload : Bytes → ℕ → Parser
at_payload c n = record (at_size c) { phase = payload; size_index = 4; payload_len = n }

module _ (c₁ c₂ c₃ c₄ : ℕ) (rest : Bytes) (i : ℕ) where
  abbrev four : Bytes
  four = c₁ ∷ c₂ ∷ c₃ ∷ c₄ ∷ []

  scan_no_payload :
      scan init (codes "PKRN" ++ (four ++ rest)) i ≡ scan (at_endline four) rest (i + 8)
  unfolding scan parse_byte_in
  scan_no_payload = ground arith

  scan_with_payload :
      scan init (codes "PKRP" ++ (four ++ rest)) i ≡ scan (at_size four) rest (i + 8)
  unfolding scan parse_byte_in
  scan_with_payload = ground arith

  pub scan_size :
      (c : Bytes)
      → All IsDigit four
      → scan (at_size c) (four ++ rest) i ≡ scan (at_payload c (value 0 four)) rest (i + 4)
  unfolding scan parse_byte_in
  scan_size c h = ground arith

-- One byte of the payload that is not the last, and the last.
module _ (x : ℕ) (rest acc c : Bytes) (n i : ℕ) where
  scan_more :
      suc (length acc) < n
      → scan (record (at_payload c n) { payload = acc }) (x ∷ rest) i
        ≡ scan (record (at_payload c n) { payload = acc ++ x ∷ [] }) rest (i + 1)
  unfolding scan parse_byte_in
  scan_more h = ground (arith, length-append acc (x ∷ []))

  pub scan_last :
      suc (length acc) ≡ n
      → scan (record (at_payload c n) { payload = acc }) (x ∷ rest) i
        ≡ scan (record (at_payload c n) { payload = acc ++ x ∷ []; phase = endline }) rest (i + 1)
  unfolding scan parse_byte_in
  scan_last h = ground (arith, length-append acc (x ∷ []))

-- The payload up to its last byte, from any part of it.
scan_payload :
    (s rest acc c : Bytes) (n i : ℕ)
    → 0 < length s
    → length acc + length s ≡ n
    → scan (record (at_payload c n) { payload = acc }) (s ++ rest) i
      ≡ scan (record (at_payload c n) { payload = acc ++ s; phase = endline }) rest (i + length s)
scan_payload [] rest acc c n i h e = absurd (omega arith)
scan_payload (x ∷ []) rest acc c n i h e = scan_last x rest acc c n i (omega arith)
scan_payload (x ∷ y ∷ s) rest acc c n i h e =
    scan_more x ((y ∷ s) ++ rest) acc c n i (omega arith)
    ∙ scan_payload (y ∷ s) rest (acc ++ x ∷ []) c n (i + 1) (omega arith)
        (omega (arith, length-append acc (x ∷ [])))
    ∙ rw
        (
          append_assoc acc (x ∷ []) (y ∷ s),
          add_assoc i 1 (length (y ∷ s)),
          add_comm 1 (length (y ∷ s)),
        )
        (rw add-one)

-- The parser after the terminator of the frame of a message.
abbrev pub finished : NetMsg → Parser
finished msg =
    if ltb 0 (length msg.payload)
    then record (at_payload msg.code (length msg.payload)) {
      payload = msg.payload;
      phase = endline;
    }
    else at_endline msg.code

scan_endline :
    (p : Parser) (rest : Bytes) (i : ℕ)
    → p.phase ≡ endline
    → scan p (b'\n' ∷ rest) i ≡ (p, done, i + 1)
unfolding scan parse_byte_in
scan_endline p rest i h = rw h

-- The shift of the count of bytes read, past two pieces.
scan_short :
    (c rest : Bytes) (i : ℕ)
    → length c ≡ 4
    → scan init (codes "PKRN" ++ (c ++ (b'\n' ∷ rest))) i ≡ (at_endline c, done, i + 9)
scan_short c rest i h =
    let (c₁, c₂, c₃, c₄, e) = four_bytes c h in
    rw e (
      scan_no_payload c₁ c₂ c₃ c₄ (b'\n' ∷ rest) i
      ∙ scan_endline (at_endline (c₁ ∷ c₂ ∷ c₃ ∷ c₄ ∷ [])) rest (i + 8) refl
      ∙ rw (add_assoc i 8 1))

scan_long :
    (c sz p rest : Bytes) (i : ℕ)
    → length c ≡ 4
    → length sz ≡ 4
    → All IsDigit sz
    → value 0 sz ≡ length p
    → 0 < length p
    → scan init (codes "PKRP" ++ (c ++ (sz ++ (p ++ (b'\n' ∷ rest))))) i ≡ (
      record (at_payload c (length p)) { payload = p; phase = endline },
      done,
      i + (13 + length p),
    )
scan_long c sz p rest i h k are_digits v filled =
    let (c₁, c₂, c₃, c₄, e) = four_bytes c h in
    let (d₁, d₂, d₃, d₄, d) = four_bytes sz k in
    let n = length p in
    let sized : All IsDigit (d₁ ∷ d₂ ∷ d₃ ∷ d₄ ∷ []) = rw d at are_digits in
    let counted : value 0 (d₁ ∷ d₂ ∷ d₃ ∷ d₄ ∷ []) ≡ n = rw d at v in
    let tail = p ++ (b'\n' ∷ rest) in
    rw (e, d)
      (scan_with_payload c₁ c₂ c₃ c₄ ((d₁ ∷ d₂ ∷ d₃ ∷ d₄ ∷ []) ++ tail) i
        ∙ scan_size d₁ d₂ d₃ d₄ tail (i + 8) (c₁ ∷ c₂ ∷ c₃ ∷ c₄ ∷ []) sized
        ∙ rw counted (
            scan_payload p (b'\n' ∷ rest) [] (c₁ ∷ c₂ ∷ c₃ ∷ c₄ ∷ []) n (i + 8 + 4) filled
              (omega arith))
        ∙ scan_endline _ rest (i + 8 + 4 + n) refl
        ∙ ap
            (λ j. (
              record (at_payload (c₁ ∷ c₂ ∷ c₃ ∷ c₄ ∷ []) n) { payload = p; phase = endline },
              done,
              j,
            ))
            (omega arith))

-- A frame is read to its end, and to no byte beyond it.
pub scan-to_string :
    (msg : NetMsg) (rest : Bytes) (i : ℕ)
    → length msg.code ≡ 4
    → length msg.payload < 10000
    → scan init (to_string msg ++ rest) i ≡ (finished msg, done, i + length (to_string msg))
scan-to_string msg rest i h k = go msg.code msg.payload h k
  where
    go :
        (c p : Bytes)
        → length c ≡ 4
        → length p < 10000
        → scan init (to_string (message c p) ++ rest) i
          ≡ (finished (message c p), done, i + length (to_string (message c p)))
    go c [] h k = rw (to_string_short c rest, length-to_string_short c, h) (scan_short c rest i h)
    go c (x ∷ p) h k =
        let filled : 0 < length (x ∷ p) = omega arith in
        let fits : length (x ∷ p) < 10 ^ 4 = omega arith in
        let small : length (x ∷ p) < 2 ^ 64 = omega arith in
        rw
          (
            to_string_long c (x ∷ p) rest filled,
            length-to_string_long c (x ∷ p) filled k,
            h,
            lt→ltb 0 (length (x ∷ p)) filled,
          )
          (scan_long c (size_text (x ∷ p)) (x ∷ p) rest i h
            (length-format_padded 3 (length (x ∷ p)) fits small)
            (format_padded-IsDigit 3 (length (x ∷ p)) fits small)
            (value-format_padded 3 (length (x ∷ p)) fits small) filled)

-- What `ParseBytes` says of a message that has been read.
abbrev pub accepted : NetMsg → ParseResults
accepted msg = record {
  error = false;
  parser_done = true;
  code = msg.code;
  bytes_parsed = length (to_string msg);
  msg_type = if ltb 0 (length msg.payload) then payload_msg else no_payload_msg;
  payload = msg.payload;
}

results-finished :
    (c p : Bytes) (n : ℕ)
    → results (finished (message c p)) done (0 + n)
      ≡ record (accepted (message c p)) { bytes_parsed = n }
unfolding results
results-finished c [] n = ground arith
results-finished c (x ∷ p) n = ground arith

-- `ParseBytes` on a frame and what follows it, by a parser that has just been reset: the message is
-- done, with its code and payload, and the bytes read are those of the frame.
pub parse_bytes-to_string :
    (msg : NetMsg) (rest : Bytes)
    → length msg.code ≡ 4
    → length msg.payload < 10000
    → (parse_bytes init (to_string msg ++ rest)).1 ≡ accepted msg
unfolding parse_bytes
parse_bytes-to_string msg rest h k =
    rw (scan-to_string msg rest 0 h k)
      (results-finished msg.code msg.payload (length (to_string msg)))
