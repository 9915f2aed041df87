-- ===== src/Serde/Message.antt =====
-- `ParseMessage` of sp/client/ups_net/serde.go: a payload is read as a list of typed fields. The
-- offset is a Go `int`; a slice from beyond the end panics.
pub mod Round
pub mod Safety
pub mod RoundTrip
pub mod Overcount
use kiv_ups.Prelude.{
  ℕ, ◌+◌, ◌≡◌, List, [], ◌∷◌, ◌++◌, Option, none, some, Bytes, codes, length, replicate,
}
use kiv_ups.Prelude
use kiv_ups.Prelude.Int.{ℤ, pos, add_int}
use kiv_ups.GoLib.{FloatOps}
use kiv_ups.GoLib.Panic.{Outcome, returned, slice_from, ◌>>=◌}
use kiv_ups.Serde.Fields.{read_small_int, read_big_int, read_string, read_var_int, count_digits}

-- `ParseTypes`
pub data ParseType : Type 0 where
  small_int big_int var_int string : ParseType

-- A value of the `[]any` that `ParseMessage` returns.
pub data Any : Type 0 where
  nil : Any
  int : ℤ → Any
  str : Bytes → Any

-- The values, the offset reached and the error.
abbrev pub Parsed : Type 0
Parsed = List Any × ℤ × Option Bytes

-- One arm of the switch: the value and what is added to the offset.
unfoldable pub read_field : FloatOps → ParseType → Bytes → Outcome (Option (Any × ℤ))
read_field F small_int slice = do
  small ← read_small_int slice
  returned (Prelude.◌>>=◌ small λ n. some (int (pos n), pos 2))
read_field F big_int slice = do
  big ← read_big_int slice
  returned (Prelude.◌>>=◌ big λ n. some (int (pos n), pos 4))
read_field F var_int slice = do
  number ← read_var_int slice
  returned (Prelude.◌>>=◌ number λ z. some (int z, add_int (pos 2) (count_digits F z)))
read_field F string slice = do
  text ← read_string slice
  returned (Prelude.◌>>=◌ text λ s. some (str s, pos (4 + length s)))

-- The text of each arm's error.
pub failure : ParseType → Bytes
failure big_int = codes "Failed when reading big int"
failure _ = codes "Failed when reading small int"

-- The loop over the field types; `res` holds what is stored so far, and the rest is nil.
unfoldable pub parse_fields : FloatOps → Bytes → List ParseType → ℤ → List Any → Outcome Parsed
parse_fields F bytes [] offset res = returned (res, offset, none)
parse_fields F bytes (t ∷ types) offset res = do
  slice ← slice_from bytes offset
  field ← read_field F t slice
  elim field [
    | none ↦ returned (res ++ replicate (length (t ∷ types)) nil, offset, some (failure t))
    | some (v, width) ↦ parse_fields F bytes types (add_int offset width) (res ++ v ∷ [])
  ]

unfoldable pub parse_message : FloatOps → Bytes → List ParseType → Outcome Parsed
unfolding parse_fields read_field failure
parse_message F payload types = parse_fields F payload types (pos 0) []
