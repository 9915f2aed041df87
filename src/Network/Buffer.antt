-- ===== src/Network/Buffer.antt =====
-- `processBuffer`: the bytes of one read are parsed, and each message is dispatched.
pub mod Feed
pub mod Delivery
pub mod Round
use kiv_ups.Prelude.{
  ℕ, zero, suc, Bool, true, false, List, [], ◌∷◌, ◌++◌, if◌then◌else◌, Bytes, codes, same, length,
  drop,
}
use kiv_ups.Serde.NetMsg.{NetMsg}
use kiv_ups.Serde.Parser.{Parser, ParseResults, parse_bytes, reset_parser}
use kiv_ups.Network.{NetHandler, Wire, net_message}
use kiv_ups.Network.Handler.{emit, send_message, handle_connection_lost}

module _ (write_ok : Wire → Bytes → Bool) where
  -- The switch on the code of a parsed message.
  unfoldable pub dispatch : Bytes → Bytes → NetHandler → NetHandler
  dispatch code payload nh =
      if same code (codes "ALV!")
      then record nh { alive_received = true }
      else if same code (codes "PING")
      then (send_message write_ok (record { code = codes "PING"; payload = [] }) nh).0
      else emit (net_message (record { code = code; payload = payload })) nh

  -- The loop over the bytes from `totalParsed` on; each round reads a byte at least, so the length
  -- of the buffer is fuel enough.
  unfoldable pub process_from : ℕ → Bytes → Parser → NetHandler → Parser × NetHandler
  process_from fuel [] parser nh = (parser, nh)
  process_from zero (c ∷ rest) parser nh = (parser, nh)
  process_from (suc fuel) (c ∷ rest) parser nh =
      let (parser', results) = parse_bytes parser (c ∷ rest) in
      elim results.error [
        | true ↦ (parser', handle_connection_lost nh)
        | false ↦ elim results.parser_done [
          | true ↦
              process_from fuel (drop results.bytes_parsed (c ∷ rest)) (reset_parser parser')
                (dispatch results.code results.payload nh)
          | false ↦ process_from fuel (drop results.bytes_parsed (c ∷ rest)) parser' nh
        ]
      ]

  unfoldable pub process_buffer : Bytes → Parser → NetHandler → Parser × NetHandler
  unfolding process_from
  process_buffer buffer parser nh = process_from (length buffer) buffer parser nh
