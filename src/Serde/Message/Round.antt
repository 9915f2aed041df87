-- ===== src/Serde/Message/Round.antt =====
-- One round of the loop of `ParseMessage`, with the offset within the payload.
use kiv_ups.Prelude.{
  ℕ, ◌+◌, ◌≤◌, ◌≡◌, ap, List, [], ◌∷◌, ◌++◌, Option, none, some, arith, Bytes, length, drop,
  replicate, ◌>>=◌,
}
use kiv_ups.Prelude.Int.{ℤ, pos, add_int}
use kiv_ups.GoLib.{FloatOps}
use kiv_ups.GoLib.Panic.{returned, slice_from_lem}
use kiv_ups.GoLib.Panic
use kiv_ups.Serde.Fields.{count_digits}
use kiv_ups.Serde.Fields.Total.{
  small_int_at, big_int_at, string_behind, var_int_behind, read_small_int-returned,
  read_big_int-returned, read_string-returned, read_var_int-returned,
}
use kiv_ups.Serde.Message.{
  ParseType, small_int, big_int, var_int, string, Any, nil, int, str, read_field, failure,
  parse_fields,
}

-- An arm of the switch, whose reader never panics.
unfoldable pub field_at : FloatOps → ParseType → Bytes → Option (Any × ℤ)
field_at F small_int slice = do n ← small_int_at slice; some (int (pos n), pos 2)
field_at F big_int slice = do n ← big_int_at slice; some (int (pos n), pos 4)
field_at F var_int slice = do
  z ← var_int_behind slice
  some (int z, add_int (pos 2) (count_digits F z))
field_at F string slice = do s ← string_behind slice; some (str s, pos (4 + length s))

read_field-returned :
    (F : FloatOps) (t : ParseType) (slice : Bytes)
    → read_field F t slice ≡ returned (field_at F t slice)
unfolding read_field field_at
read_field-returned F small_int slice =
    ap (λ m. Panic.◌>>=◌ m λ o. returned (o >>= λ n. some (int (pos n), pos 2)))
      (read_small_int-returned slice)
read_field-returned F big_int slice =
    ap (λ m. Panic.◌>>=◌ m λ o. returned (o >>= λ n. some (int (pos n), pos 4)))
      (read_big_int-returned slice)
read_field-returned F var_int slice =
    ap
      (λ m.
        Panic.◌>>=◌ m λ o. returned (o >>= λ z. some (int z, add_int (pos 2) (count_digits F z))))
      (read_var_int-returned slice)
read_field-returned F string slice =
    ap (λ m. Panic.◌>>=◌ m λ o. returned (o >>= λ s. some (str s, pos (4 + length s))))
      (read_string-returned slice)

module _ (F : FloatOps) (payload : Bytes) (t : ParseType) (types : List ParseType) (offset : ℕ)
    (res : List Any) (within : offset ≤ length payload) where
  pub parse_fields_stop :
      field_at F t (drop offset payload) ≡ none
      → parse_fields F payload (t ∷ types) (pos offset) res
        ≡ returned (res ++ replicate (length (t ∷ types)) nil, pos offset, some (failure t))
  unfolding parse_fields
  parse_fields_stop e =
      ground
        (arith, slice_from_lem payload offset within, read_field-returned F t (drop offset payload))

  pub parse_fields_more :
      (v : Any) (w : ℤ)
      → field_at F t (drop offset payload) ≡ some (v, w)
      → parse_fields F payload (t ∷ types) (pos offset) res
        ≡ parse_fields F payload types (add_int (pos offset) w) (res ++ v ∷ [])
  unfolding parse_fields
  parse_fields_more v w e =
      ground
        (arith, slice_from_lem payload offset within, read_field-returned F t (drop offset payload))
