-- ===== src/Serde/Message/Safety.antt =====
-- When `ParseMessage` runs without a panic and within its payload, and the types of what it returns.
use kiv_ups.Prelude.{
  ap, ◌∙◌, Option-cases, inl, inr, >>=-some-elim, ℕ, ◌+◌, ◌≤◌, ◌<◌, ◌^◌, ◌≡◌, List, [], ◌∷◌, ◌++◌,
  none, some, arith, Bytes, length, drop, length-drop, drop-drop, append_assoc, append-nil,
}
use kiv_ups.Prelude.Int.{ℤ, pos, negsuc, IsInt64, add_int}
use kiv_ups.GoLib.{FloatOps, IsExactAt}
use kiv_ups.GoLib.Panic.{Outcome, returned, panic}
use kiv_ups.GoLib.Strconv.{text_count}
use kiv_ups.Serde.Fields.{read_var_int, count_digits}
use kiv_ups.Serde.Fields.Total.{small_int_at, big_int_at}
use kiv_ups.Serde.Fields.Total.{string_behind, var_int_behind, read_var_int-returned}
use kiv_ups.Serde.Fields.Bounds.{
  small_int_at_bounds, big_int_at_bounds, string_behind_bounds, var_int_behind_bounds,
}
use kiv_ups.Serde.Fields.RoundTrip.{count_digits-text_count, text_count_bound}
use kiv_ups.Serde.Message.Round.{field_at, parse_fields_stop, parse_fields_more}
use kiv_ups.Serde.Message.{
  ParseType, small_int, big_int, var_int, string, Any, int, str, Parsed, parse_fields,
  parse_message,
}

-- A value that a field of this type can hold.
abbrev pub HasType : ParseType → Any → Type 0
HasType small_int (int (pos n)) = n < 100
HasType big_int (int (pos n)) = n < 10000
HasType var_int (int z) = IsInt64 z
HasType string (str s) = length s < 10000
HasType _ _ = ⊥

abbrev pub Typed : List ParseType → List Any → Type 0
Typed [] [] = Unit
Typed (t ∷ ts) (v ∷ vs) = HasType t v × Typed ts vs
Typed _ _ = ⊥

Typed-concat :
    (ts : List ParseType) (vs : List Any) (t : ParseType) (v : Any)
    → Typed ts vs
    → HasType t v
    → Typed (ts ++ t ∷ []) (vs ++ v ∷ [])
Typed-concat [] [] t v h k = (k, tt)
Typed-concat [] (x ∷ vs) t v h k = absurd h
Typed-concat (y ∷ ts) [] t v h k = absurd h
Typed-concat (y ∷ ts) (x ∷ vs) t v h k = (h.0, Typed-concat ts vs t v h.1 k)

-- No panic; the offset lies within the payload; without an error the values have their types.
abbrev pub IsSafe : Bytes → List ParseType → Outcome Parsed → Type 0
IsSafe payload types (returned (res, pos offset, none)) =
    (offset ≤ length payload) × Typed types res
IsSafe payload types (returned (res, pos offset, some err)) = offset ≤ length payload
IsSafe payload types (returned (res, negsuc offset, err)) = ⊥
IsSafe payload types panic = ⊥

pub add_int_pos : (a b : ℕ) → a + b < 2 ^ 63 → add_int (pos a) (pos b) ≡ pos (a + b)
unfolding add_int
add_int_pos a b h = ground arith

-- The payload has a length that an int can hold, and the floor of the logarithm is exact at every
-- number but 0 that can be read somewhere in it.
abbrev pub IsReadable : FloatOps → Bytes → Type 0
IsReadable F payload =
    (length payload < 2 ^ 63)
    × ((i : ℕ) (z : ℤ) → read_var_int (drop i payload) ≡ returned (some z) → IsExactAt F z)

-- What follows a part of it is readable too.
pub IsReadable-drop :
    (F : FloatOps) (payload : Bytes) (n : ℕ) → IsReadable F payload → IsReadable F (drop n payload)
IsReadable-drop F payload n (short, exact) = (
  omega (arith, length-drop n payload),
  λ i z e. exact (n + i) z (rw (← drop-drop i n payload) e),
)

-- A variable integer is among the types.
abbrev pub HasVarInt : List ParseType → Type 0
HasVarInt [] = ⊥
HasVarInt (var_int ∷ types) = Unit
HasVarInt (t ∷ types) = HasVarInt types

HasVarInt-tail : (t : ParseType) (types : List ParseType) → HasVarInt types → HasVarInt (t ∷ types)
HasVarInt-tail small_int types h = h
HasVarInt-tail big_int types h = h
HasVarInt-tail var_int types h = tt
HasVarInt-tail string types h = h

-- A width of a field that was read from `slice`.
abbrev Within : ℤ → Bytes → Type 0
Within (pos k) slice = k ≤ length slice
Within (negsuc k) slice = ⊥

module _ (F : FloatOps) where
  pub var_int_width :
      (z : ℤ)
      → IsInt64 z
      → IsExactAt F z
      → add_int (pos 2) (count_digits F z) ≡ pos (2 + text_count z)
  var_int_width z h exact =
      rw (count_digits-text_count F z h exact)
        (unfold add_int in ground (arith, text_count_bound z h))

  -- What one arm of the switch stores and adds to the offset.
  abbrev Field : ParseType → Bytes → Any × ℤ → Type 0
  Field t slice (v, w) = HasType t v × Within w slice

  field_at_sound :
      (t : ParseType) (types : List ParseType) (slice : Bytes) {p : Any × ℤ}
      → (HasVarInt (t ∷ types) → (z : ℤ) → var_int_behind slice ≡ some z → IsExactAt F z)
      → field_at F t slice ≡ some p
      → Field t slice p
  unfolding field_at
  field_at_sound small_int types slice exact h =
      >>=-some-elim (Field small_int slice) (small_int_at slice) _ h
        λ n e. let (long, small) = small_int_at_bounds slice e in (small, long)
  field_at_sound big_int types slice exact h =
      >>=-some-elim (Field big_int slice) (big_int_at slice) _ h
        λ n e. let (long, small) = big_int_at_bounds slice e in (small, long)
  field_at_sound var_int types slice exact h =
      >>=-some-elim (Field var_int slice) (var_int_behind slice) _ h λ z e.
        let (long, range) = var_int_behind_bounds slice e in
        (range, rw (var_int_width z range (exact tt z e)) long)
  field_at_sound string types slice exact h =
      >>=-some-elim (Field string slice) (string_behind slice) _ h
        λ s e. let (long, small) = string_behind_bounds slice e in (small, long)

  module _ (payload : Bytes) (short : length payload < 2 ^ 63) where
    parse_fields-IsSafe :
        (types before : List ParseType) (offset : ℕ) (res : List Any)
        → (HasVarInt types
            → (i : ℕ) (z : ℤ) → var_int_behind (drop i payload) ≡ some z
            → IsExactAt F z)
        → offset ≤ length payload
        → Typed before res
        → IsSafe payload (before ++ types) (parse_fields F payload types (pos offset) res)
    parse_fields-IsSafe [] before offset res exact h k = unfold parse_fields in (h, rw append-nil k)
    parse_fields-IsSafe (t ∷ types) before offset res exact h k =
        elim (Option-cases (field_at F t (drop offset payload))) [
          | inl e ↦ rw (parse_fields_stop F payload t types offset res h e) h
          | inr ((v, negsuc w), e) ↦
              absurd (field_at_sound t types (drop offset payload) (λ has. exact has offset) e).1
          | inr ((v, pos w), e) ↦
              let (typed, within) =
                field_at_sound t types (drop offset payload) (λ has. exact has offset) e in
              let room : offset + w ≤ length payload = omega (arith, length-drop offset payload) in
              rw
                (
                  parse_fields_more F payload t types offset res h v (pos w) e,
                  add_int_pos offset w (omega arith),
                  ← append_assoc before (t ∷ []) types,
                )
                (parse_fields-IsSafe types (before ++ t ∷ []) (offset + w) (res ++ v ∷ [])
                  (λ has. exact (HasVarInt-tail t types has)) room
                  (Typed-concat before res t v k typed))
        ]

  -- Without a variable integer among the types, nothing is asked of the floats.
  pub parse_message-IsSafe_plain :
      (payload : Bytes) (types : List ParseType)
      → length payload < 2 ^ 63
      → ¬ HasVarInt types
      → IsSafe payload types (parse_message F payload types)
  unfolding parse_message
  parse_message-IsSafe_plain payload types short plain =
      parse_fields-IsSafe payload short types [] 0 [] (λ has. absurd (plain has)) (omega arith) tt

  -- `ParseMessage` on a readable payload and any list of types: no panic, no offset beyond the payload,
  -- and on success one value of the right type and range for each type.
  pub parse_message-IsSafe :
      (payload : Bytes) (types : List ParseType)
      → IsReadable F payload
      → IsSafe payload types (parse_message F payload types)
  unfolding parse_message
  parse_message-IsSafe payload types readable =
      parse_fields-IsSafe payload readable.0 types [] 0 []
        (λ has i z e. readable.1 i z (read_var_int-returned (drop i payload) ∙ ap returned e))
        (omega arith) tt
