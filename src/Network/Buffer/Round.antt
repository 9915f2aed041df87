-- ===== src/Network/Buffer/Round.antt =====
-- One round of the loop of `processBuffer`, for each result of `ParseBytes`.
use kiv_ups.Prelude.{ℕ, suc, ◌≡◌, ap, Bool, true, false, ◌∷◌, Bytes, drop}
use kiv_ups.Serde.Parser.{
  Parser, ParseResults, ParserState, parse_bytes, scan, results, reset_parser,
}
use kiv_ups.Network.{NetHandler, Wire}
use kiv_ups.Network.Handler.{handle_connection_lost}
use kiv_ups.Network.Buffer.{dispatch, process_from}

pub parse_bytes-scan :
    (p : Parser) (bytes : Bytes) {q : Parser} {ended : ParserState} {j : ℕ}
    → scan p bytes 0 ≡ (q, ended, j)
    → parse_bytes p bytes ≡ (q, results q ended j)
unfolding parse_bytes
parse_bytes-scan p bytes e = ap (λ s. (s.0, results s.0 s.1 s.2)) e

module _ (write_ok : Wire → Bytes → Bool) (fuel c : ℕ) (bytes : Bytes) (p : Parser)
    (nh : NetHandler) where
  abbrev pub parsed : Parser × ParseResults
  parsed = parse_bytes p (c ∷ bytes)

  pub round_error :
      parsed.1.error ≡ true
      → process_from write_ok (suc fuel) (c ∷ bytes) p nh ≡ (parsed.0, handle_connection_lost nh)
  unfolding process_from
  round_error h = rw (h, process_from)

  pub round_done :
      parsed.1.error ≡ false
      → parsed.1.parser_done ≡ true
      → process_from write_ok (suc fuel) (c ∷ bytes) p nh
        ≡ process_from write_ok fuel
            (drop parsed.1.bytes_parsed (c ∷ bytes))
            (reset_parser parsed.0)
            (dispatch write_ok parsed.1.code parsed.1.payload nh)
  unfolding process_from
  round_done h k = rw (h, k, process_from)

  pub round_more :
      parsed.1.error ≡ false
      → parsed.1.parser_done ≡ false
      → process_from write_ok (suc fuel) (c ∷ bytes) p nh
        ≡ process_from write_ok fuel (drop parsed.1.bytes_parsed (c ∷ bytes)) parsed.0 nh
  unfolding process_from
  round_more h k = rw (h, k, process_from)
