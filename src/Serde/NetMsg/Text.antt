-- ===== src/Serde/NetMsg/Text.antt =====
-- The bytes of a frame, in order, with what follows it.
use kiv_ups.Prelude.{
  ◌+◌, ◌<◌, ◌≡◌, [], ◌∷◌, ◌++◌, arith, lt→ltb, Bytes, codes, length, length-append, append_assoc,
}
use kiv_ups.Prelude.Int.{pos}
use kiv_ups.GoLib.Decimal.{format_padded}
use kiv_ups.Serde.Fields.RoundTrip.{length-format_padded}
use kiv_ups.Serde.NetMsg.{NetMsg, to_string}

abbrev pub message : Bytes → Bytes → NetMsg
message c p = record { code = c; payload = p }

-- The size field of a payload.
abbrev pub size_text : Bytes → Bytes
size_text p = format_padded 4 (pos (length p))

pub to_string_short :
    (c rest : Bytes) → to_string (message c []) ++ rest ≡ codes "PKRN" ++ (c ++ (b'\n' ∷ rest))
unfolding to_string
to_string_short c rest = simp append_assoc

pub to_string_long :
    (c p rest : Bytes)
    → 0 < length p
    → to_string (message c p) ++ rest
      ≡ codes "PKRP" ++ (c ++ (size_text p ++ (p ++ (b'\n' ∷ rest))))
unfolding to_string
to_string_long c p rest h = rw (lt→ltb 0 (length p) h) (simp append_assoc)

pub length-to_string_short : (c : Bytes) → length (to_string (message c [])) ≡ 5 + length c
unfolding to_string
length-to_string_short c = omega (arith, length-append c (b'\n' ∷ []))

pub length-to_string_long :
    (c p : Bytes)
    → 0 < length p
    → length p < 10000
    → length (to_string (message c p)) ≡ 9 + length c + length p
unfolding to_string
length-to_string_long c p h k = rw (lt→ltb 0 (length p) h) (
    omega (
      arith,
      length-append ((c ++ size_text p) ++ p) (b'\n' ∷ []),
      length-append (c ++ size_text p) p,
      length-append c (size_text p),
      length-format_padded 3 (length p) (omega arith) (omega arith),
    ))
