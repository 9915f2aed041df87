-- ===== src/Serde/NetMsg.antt =====
-- `NetMsg` and its frame, `ToString`, of sp/client/ups_net/serde.go; `magicStr` is from network.go.
pub mod Text
use kiv_ups.Prelude.{ℕ, zero, suc, ◌+◌, [], ◌∷◌, ◌++◌, ltb, if◌then◌else◌, Bytes, codes, length}
use kiv_ups.Prelude.Int.{pos}
use kiv_ups.GoLib.Decimal.{format_padded}

pub record NetMsg : Type 0 where
  pub code : Bytes
  pub payload : Bytes

abbrev pub magic_str : Bytes
magic_str = codes "PKR"

-- The builder's writes in order, each onto what is there.
unfoldable pub to_string : NetMsg → Bytes
to_string msg =
    let payload_len = length msg.payload in
    let typed = magic_str ++ (if ltb 0 payload_len then b'P' else b'N') ∷ [] in
    let coded = typed ++ msg.code in
    let filled =
      if ltb 0 payload_len
      then (coded ++ format_padded 4 (pos payload_len)) ++ msg.payload
      else coded in
    filled ++ b'\n' ∷ []
