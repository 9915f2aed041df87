-- ===== src/Serde/Parser/Scan.antt =====
-- One round of the loop of `ParseBytes`, for each of the states that `ParseByte` returns.
use kiv_ups.Prelude.{ℕ, ◌+◌, ◌≡◌, refl, ◌∷◌, Bytes}
use kiv_ups.Serde.Parser.{Parser, ParserState, ok, done, invalid, parse_byte, scan}

pub data StateCase (s : ParserState) : Type 0 where
  is_ok : s ≡ ok → StateCase s
  is_done : s ≡ done → StateCase s
  is_invalid : s ≡ invalid → StateCase s

pub state_case : (s : ParserState) → StateCase s
state_case ok = is_ok refl
state_case done = is_done refl
state_case invalid = is_invalid refl

module _ (p : Parser) (c : ℕ) (bytes : Bytes) (i : ℕ) where
  pub scan_ok :
      (parse_byte p c).1 ≡ ok → scan p (c ∷ bytes) i ≡ scan (parse_byte p c).0 bytes (i + 1)
  unfolding scan
  scan_ok h = rw (h, scan)

  pub scan_done :
      (parse_byte p c).1 ≡ done → scan p (c ∷ bytes) i ≡ ((parse_byte p c).0, done, i + 1)
  unfolding scan
  scan_done h = rw (h, scan)

  pub scan_invalid :
      (parse_byte p c).1 ≡ invalid → scan p (c ∷ bytes) i ≡ ((parse_byte p c).0, invalid, i + 1)
  unfolding scan
  scan_invalid h = rw (h, scan)
