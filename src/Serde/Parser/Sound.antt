-- ===== src/Serde/Parser/Sound.antt =====
-- What `ParseBytes` accepts is a frame that `ToString` prints.
use kiv_ups.Prelude.{
  ℕ, ◌+◌, ◌<◌, ◌^◌, ◌≡◌, inl, inr, refl, sym, ap, ◌∙◌, true, [], ◌∷◌, ◌++◌, arith, Bytes, length,
  All, IsDigit, codes,
}
use kiv_ups.GoLib.Decimal.{value}
use kiv_ups.Serde.Fields.RoundTrip.{
  length-format_padded, format_padded-IsDigit, value-format_padded,
}
use kiv_ups.Serde.NetMsg.{NetMsg, to_string}
use kiv_ups.Serde.NetMsg.Text.{message, size_text, to_string_short, to_string_long}
use kiv_ups.Serde.Parser.{
  Parser, ParserState, ok, done, invalid, type, init, scan, results, parse_bytes, payload_msg,
  no_payload_msg,
}
use kiv_ups.Serde.Parser.Frame.{accepted, parse_bytes-to_string}
use kiv_ups.Serde.Parser.Stages.{
  Ends, at_code, first_byte, second_byte, third_byte, type_byte, code_bytes, size_bytes,
  payload_bytes, ended, same_value,
}

-- The bytes start with the frame of a message with a code of four bytes and a payload that the size
-- can count.
abbrev StartsWithFrame : Bytes → Type 0
StartsWithFrame bytes =
    (msg : NetMsg) × (rest : Bytes) × (bytes ≡ to_string msg ++ rest)
    × (length msg.code ≡ 4)
    × (length msg.payload < 10000)

-- The frame from its type on.
abbrev Continues : ℕ → Bytes → Type 0
Continues t bytes = StartsWithFrame (codes "PKR" ++ t ∷ bytes)

without_payload :
    (bytes : Bytes) (i : ℕ) → Ends (at_code no_payload_msg [] 0) bytes i → Continues b'N' bytes
without_payload bytes i h =
    let (c, after, e, four, next) = code_bytes no_payload_msg bytes i (inl refl) h in
    elim next [
      | inl k ↦
          let (rest, r) = ended _ after (i + 4) refl k.1 in
          (message c [], rest, rw (e, r) (sym (to_string_short c rest)), four, omega arith)
      | inr k ↦ absurd (omega (arith, k.0))
    ]

size_known :
    (s x : Bytes)
    → length s ≡ 4
    → All IsDigit s
    → length x ≡ value 0 s
    → (s ≡ size_text x) × (length x < 10000)
size_known s x four are_digits e =
    let small = (same_value s s four four are_digits are_digits refl).1 in
    let fits : length x < 10 ^ 4 = omega (arith, e, small) in
    let t = size_text x in
    (
      (same_value s t four (length-format_padded 3 (length x) fits (omega arith)) are_digits
          (format_padded-IsDigit 3 (length x) fits (omega arith))
          (sym e ∙ sym (value-format_padded 3 (length x) fits (omega arith)))).0,
      fits,
    )

with_payload :
    (bytes : Bytes) (i : ℕ) → Ends (at_code payload_msg [] 0) bytes i → Continues b'P' bytes
with_payload bytes i h =
    let (c, after, e, four, next) = code_bytes payload_msg bytes i (inr refl) h in
    elim next [
      | inl k ↦ absurd (omega (arith, k.0))
      | inr k ↦
          let (s, sized, f, quad, are_digits, filling) = size_bytes c after (i + 4) k.1 in
          let (x, rest, g, filled, total) =
            payload_bytes c (value 0 s) sized [] (i + 4 + 4) filling in
          let (text, small) = size_known s x quad are_digits (omega (arith, total)) in
          (
            message c x,
            rest,
            rw (e, f, g, text) (sym (to_string_long c x rest filled)),
            four,
            small,
          )
    ]

typed :
    (bytes : Bytes) (i : ℕ)
    → Ends (record init { phase = type }) bytes i
    → StartsWithFrame (codes "PKR" ++ bytes)
typed [] i h = unfold scan in cc
typed (t ∷ bytes) i h = elim (type_byte t bytes i h) [
  | inl (e, k) ↦ rw e (without_payload bytes (i + 1) k)
  | inr (e, k) ↦ rw e (with_payload bytes (i + 1) k)
]

framed : (bytes : Bytes) (i : ℕ) → Ends init bytes i → StartsWithFrame bytes
framed [] i h = unfold scan in cc
framed (a ∷ []) i h = let (e, k) = first_byte a [] i h in unfold scan in cc k
framed (a ∷ b ∷ []) i h =
    let (e, k) = first_byte a (b ∷ []) i h in
    let (f, l) = second_byte b [] (i + 1) k in unfold scan in cc l
framed (a ∷ b ∷ c ∷ bytes) i h =
    let (e, k) = first_byte a (b ∷ c ∷ bytes) i h in
    let (f, l) = second_byte b (c ∷ bytes) (i + 1) k in
    let (g, m) = third_byte c bytes (i + 1 + 1) l in rw (e, f, g) (typed bytes (i + 1 + 1 + 1) m)

results_done :
    (p : Parser) (s : ParserState) (i : ℕ) → (results p s i).parser_done ≡ true → s ≡ done
unfolding results
results_done p done i h = refl
results_done p ok i h = cc
results_done p invalid i h = cc

scan_done_of : (bytes : Bytes) → (parse_bytes init bytes).1.parser_done ≡ true → Ends init bytes 0
unfolding parse_bytes
scan_done_of bytes h = let r = scan init bytes 0 in results_done r.0 r.1 r.2 h

-- Whenever `ParseBytes` of a parser that was just reset is done, the bytes start with the frame that
-- `ToString` prints for a message with a code of four bytes and a payload below 10000 bytes, and the
-- results are that message, with the bytes of its frame as the bytes read.
pub parse_bytes_sound :
    (bytes : Bytes)
    → (parse_bytes init bytes).1.parser_done ≡ true
    → (msg : NetMsg) × (rest : Bytes) × (bytes ≡ to_string msg ++ rest)
      × (length msg.code ≡ 4)
      × (length msg.payload < 10000)
      × ((parse_bytes init bytes).1 ≡ accepted msg)
parse_bytes_sound bytes h =
    let (msg, rest, e, four, small) = framed bytes 0 (scan_done_of bytes h) in
    (
      msg,
      rest,
      e,
      four,
      small,
      ap (λ b. (parse_bytes init b).1) e ∙ parse_bytes-to_string msg rest four small,
    )
