-- ===== src/Serde/Message/RoundTrip.antt =====
-- A payload written field by field is read back by `ParseMessage`, whatever follows it.
use mathlib.Core.Option.{some-injective}
use kiv_ups.Prelude.{
  ◌+◌, ◌<◌, ◌^◌, ◌≡◌, refl, sym, ◌∙◌, List, [], ◌∷◌, ◌++◌, Option, none, some, arith, Bytes, length,
  length-append, append_assoc, append-nil, ◌>>=◌, drop-append,
}
use kiv_ups.Prelude.Int.{pos}
use kiv_ups.GoLib.{FloatOps, IsExactAt}
use kiv_ups.GoLib.Panic.{returned}
use kiv_ups.GoLib.Decimal.{format_padded}
use kiv_ups.Serde.Fields.{write_small_int, write_big_int, write_var_int, write_string}
use kiv_ups.Serde.Fields.RoundTrip.{
  small_int_at-format_padded, big_int_at-format_padded, read_string-write_string,
  string_behind-string_text, read_var_int-write_var_int, length-format_padded, string_text,
  var_int_text, var_int_behind-var_int_text, length-var_int_text, length-string_text,
}
use kiv_ups.Serde.Message.{
  ParseType, small_int, big_int, var_int, string, Any, int, str, parse_fields, parse_message,
}
use kiv_ups.Serde.Message.Round.{field_at, parse_fields_more}
use kiv_ups.Serde.Message.Safety.{HasType, Typed, var_int_width, add_int_pos}

-- The writer of a field type, on a value of that type.
unfoldable pub write_field : FloatOps → ParseType → Any → Option Bytes
write_field F small_int (int z) = write_small_int z
write_field F big_int (int z) = write_big_int z
write_field F var_int (int z) = write_var_int F z
write_field F string (str s) = write_string s
write_field F _ _ = none

-- The fields one after the other.
unfoldable pub write_fields : FloatOps → List ParseType → List Any → Option Bytes
write_fields F [] [] = some []
write_fields F (t ∷ ts) (v ∷ vs) = do
  field ← write_field F t v
  fields ← write_fields F ts vs
  some (field ++ fields)
write_fields F _ _ = none

regroup :
    (before field fields rest : Bytes)
    → before ++ ((field ++ fields) ++ rest) ≡ (before ++ field) ++ (fields ++ rest)
regroup before field fields rest = simp append_assoc

room :
    (before field fields rest : Bytes)
    → length (before ++ ((field ++ fields) ++ rest)) < 2 ^ 63
    → length before + length field < 2 ^ 63
room before field fields rest h = omega (
  arith,
  length-append before ((field ++ fields) ++ rest),
  length-append (field ++ fields) rest,
  length-append field fields,
)

-- The floor of the logarithm is exact at the variable integers among the fields that are not 0.
abbrev pub AreExact : FloatOps → List ParseType → List Any → Type 0
AreExact F (var_int ∷ ts) (int z ∷ vs) = IsExactAt F z × AreExact F ts vs
AreExact F (t ∷ ts) (v ∷ vs) = AreExact F ts vs
AreExact F _ _ = Unit

AreExact-split :
    (F : FloatOps) (t : ParseType) (ts : List ParseType) (v : Any) (vs : List Any)
    → HasType t v
    → AreExact F (t ∷ ts) (v ∷ vs)
    → AreExact F (t ∷ []) (v ∷ []) × AreExact F ts vs
AreExact-split F small_int ts v vs h e = (tt, e)
AreExact-split F big_int ts v vs h e = (tt, e)
AreExact-split F string ts v vs h e = (tt, e)
AreExact-split F var_int ts (int z) vs h e = ((e.0, tt), e.1)
AreExact-split F var_int ts _ vs h e = absurd h

module _ (F : FloatOps) where
  -- One field is read back with its width.
  abbrev Reads : ParseType → Any → Bytes → Type 0
  Reads t v out =
      (write_field F t v ≡ some out)
      × ((rest : Bytes) → field_at F t (out ++ rest) ≡ some (v, pos (length out)))

  field-Reads :
      (t : ParseType) (v : Any)
      → HasType t v
      → AreExact F (t ∷ []) (v ∷ [])
      → (out : Bytes) × Reads t v out
  unfolding write_field field_at
  field-Reads small_int (int (pos n)) h exact = (
    format_padded 2 (pos n),
    (
      unfold write_small_int in ground arith,
      λ rest. rw (
        small_int_at-format_padded n rest h,
        length-format_padded 1 n (omega arith) (omega arith),
      ),
    ),
  )
  field-Reads big_int (int (pos n)) h exact = (
    format_padded 4 (pos n),
    (
      unfold write_big_int in ground arith,
      λ rest.
          rw (
            big_int_at-format_padded n rest h,
            length-format_padded 3 n (omega arith) (omega arith),
          ),
    ),
  )
  field-Reads var_int (int z) h exact = (
    var_int_text z,
    (
      (read_var_int-write_var_int F z [] h exact.0).0,
      λ rest. rw (
        var_int_behind-var_int_text z rest h,
        length-var_int_text z h,
        var_int_width F z h exact.0,
      ),
    ),
  )
  field-Reads string (str s) h exact = (
    string_text s,
    (
      (read_string-write_string s [] h).0,
      λ rest. rw (string_behind-string_text s rest h, length-string_text s h),
    ),
  )
  field-Reads _ _ h exact = absurd h

  -- The loop from any offset: what stands before it, the fields, and what follows.
  write_fields-parse :
      (ts : List ParseType) (vs : List Any)
      → Typed ts vs
      → AreExact F ts vs
      → (out : Bytes) × (write_fields F ts vs ≡ some out)
        × ((before rest : Bytes) (res : List Any)
            → length (before ++ (out ++ rest)) < 2 ^ 63
            → parse_fields F (before ++ (out ++ rest)) ts (pos (length before)) res
              ≡ returned (res ++ vs, pos (length (before ++ out)), none))
  unfolding write_fields
  write_fields-parse [] [] h exact = (
    [],
    refl,
    λ before rest res short. unfold parse_fields in rw (append-nil res, append-nil before),
  )
  write_fields-parse [] (v ∷ vs) h exact = absurd h
  write_fields-parse (t ∷ ts) [] h exact = absurd h
  write_fields-parse (t ∷ ts) (v ∷ vs) (typed, h) exact =
      let (exact_first, exact_rest) = AreExact-split F t ts v vs typed exact in
      let (field, (written, reads)) = field-Reads t v typed exact_first in
      let (fields, writtens, parses) = write_fields-parse ts vs h exact_rest in
      (
        field ++ fields,
        rw (written, writtens),
        λ before rest res short.
            let more =
              parse_fields_more F (before ++ ((field ++ fields) ++ rest)) t ts (length before) res
                (omega (arith, length-append before ((field ++ fields) ++ rest))) v
                (pos (length field))
                (rw
                  (
                    drop-append before ((field ++ fields) ++ rest) (length before) refl,
                    append_assoc field fields rest,
                  )
                  (reads (fields ++ rest))) in
            let whole = regroup before field fields rest in
            more
            ∙ rw
                (
                  add_int_pos (length before) (length field) (room before field fields rest short),
                  ← length-append before field,
                  whole,
                )
                (parses (before ++ field) rest (res ++ v ∷ []) (rw (← whole) short)
                  ∙ simp append_assoc),
      )

  -- Fields of the right types and ranges can be written, if the floor of the logarithm is exact at the
  -- variable integers among them that are not 0.
  pub write_fields_total :
      (ts : List ParseType) (vs : List Any)
      → Typed ts vs
      → AreExact F ts vs
      → (out : Bytes) × (write_fields F ts vs ≡ some out)
  write_fields_total ts vs h exact =
      let (out, written, _) = write_fields-parse ts vs h exact in (out, written)

  -- What the writers print for fields of the right types, `ParseMessage` reads back as those fields,
  -- up to the end of the last one, whatever follows it, if the floor of the logarithm is exact at the
  -- variable integers among them that are not 0 and all of it is shorter than 2⁶³ bytes.
  pub parse_message-write_fields :
      (ts : List ParseType) (vs : List Any) (out rest : Bytes)
      → Typed ts vs
      → AreExact F ts vs
      → write_fields F ts vs ≡ some out
      → length (out ++ rest) < 2 ^ 63
      → parse_message F (out ++ rest) ts ≡ returned (vs, pos (length out), none)
  unfolding parse_message
  parse_message-write_fields ts vs out rest h exact e short =
      let (out', written, parses) = write_fields-parse ts vs h exact in
      let same_text : out' ≡ out = some-injective _ _ (sym written ∙ e) in
      let short' : length (out' ++ rest) < 2 ^ 63 = rw same_text short in
      rw same_text at (parses [] rest [] short')
