-- ===== src/Serde/Parser/Stuck.antt =====
-- The parser on the payload of a frame whose size is 0000.
use kiv_ups.Prelude.{
  ℕ, ◌+◌, ◌≡◌, refl, ap, ◌∙◌, false, [], ◌∷◌, ◌++◌, arith, Bytes, length, length-append,
  append_assoc, append-nil, ◌==◌,
}
use kiv_ups.Serde.Parser.{ok, parse_byte, parse_byte_in, parse_payload, scan, results, parse_bytes}
use kiv_ups.Serde.Parser.Scan.{scan_ok}
use kiv_ups.Serde.Parser.Frame.{at_payload}

stored_nonempty : (s : Bytes) (x : ℕ) → (length (s ++ x ∷ []) == 0) ≡ false
stored_nonempty s x = ground (arith, length-append s (x ∷ []))

stuck_byte :
    (c stored : Bytes) (x : ℕ)
    → parse_byte (record (at_payload c 0) { payload = stored }) x
      ≡ (record (at_payload c 0) { payload = stored ++ x ∷ [] }, ok)
unfolding parse_byte_in parse_payload
stuck_byte c stored x = rw (stored_nonempty stored x) refl

scan_stuck :
    (c stored bytes : Bytes) (i : ℕ)
    → scan (record (at_payload c 0) { payload = stored }) bytes i
      ≡ (record (at_payload c 0) { payload = stored ++ bytes }, ok, i + length bytes)
unfolding scan
scan_stuck c stored [] i =
    rw append-nil (ap (λ n. (record (at_payload c 0) { payload = stored }, ok, n)) (omega arith))
scan_stuck c stored (x ∷ bytes) i =
    let p = record (at_payload c 0) { payload = stored } in
    let byte = stuck_byte c stored x in
    scan_ok p x bytes i (ap (λ r. r.1) byte)
    ∙ ap (λ r. scan r.0 bytes (i + 1)) byte
    ∙ scan_stuck c (stored ++ x ∷ []) bytes (i + 1)
    ∙ rw (append_assoc stored (x ∷ []) bytes)
        (ap (λ n. (record (at_payload c 0) { payload = stored ++ x ∷ bytes }, ok, n)) (omega arith))

-- Behind a size of 0000, `ParseBytes` takes in any bytes whatever, terminators included: the frame is
-- never done and never an error.
pub parse_bytes_stuck :
    (c bytes : Bytes)
    → parse_bytes (at_payload c 0) bytes
      ≡ (record (at_payload c 0) { payload = bytes }, results (at_payload c 0) ok (length bytes))
unfolding parse_bytes results
parse_bytes_stuck c bytes =
    ap (λ s. (s.0, results s.0 s.1 s.2)) (scan_stuck c [] bytes 0)
    ∙ ap (λ n. (record (at_payload c 0) { payload = bytes }, results (at_payload c 0) ok n))
        (omega arith)
