-- ===== src/Serde/Fields/Total.antt =====
-- The readers behind their checks of the length, which keep every index and slice expression in
-- range.
use kiv_ups.Prelude.{
  ◌+◌, ◌≡◌, refl, ltb, Option, none, some, Bytes, length, take, drop, arith, if◌then◌else◌, ℕ, zero,
  suc, ◌-◌, ◌*◌, ◌≤◌, ◌||◌, [], ◌∷◌,
}
use kiv_ups.Prelude
use kiv_ups.Prelude.Int.{ℤ}
use kiv_ups.GoLib.Panic.{returned, slice_range, slice_range_lem, ◌>>=◌}
use kiv_ups.GoLib.Strconv.{parse_int}
use kiv_ups.Serde.Fields.{
  read_digits, read_small_int, read_big_int, read_string, read_var_int, ok_value,
}

-- The number that the first `n` digits spell behind `number`.
unfoldable pub digits_at : ℕ → ℕ → Bytes → Option ℕ
digits_at zero number slice = some number
digits_at (suc n) number [] = none
digits_at (suc n) number (char ∷ slice) =
    if ltb char b'0' || ltb b'9' char then none else digits_at n (number * 10 + (char - b'0')) slice

unfoldable pub small_int_at : Bytes → Option ℕ
unfolding digits_at
small_int_at slice = if ltb (length slice) 2 then none else digits_at 2 0 slice

unfoldable pub big_int_at : Bytes → Option ℕ
unfolding digits_at
big_int_at slice = if ltb (length slice) 4 then none else digits_at 4 0 slice

-- The index stays in range in a slice of `n` bytes or more.
read_digits-returned :
    (n number : ℕ) (slice : Bytes)
    → n ≤ length slice
    → read_digits n number slice ≡ returned (digits_at n number slice)
unfolding read_digits digits_at
read_digits-returned zero number slice h = refl
read_digits-returned (suc n) number [] h = absurd (omega (arith, h))
read_digits-returned (suc n) number (char ∷ slice) h =
    ground (arith, read_digits-returned n (number * 10 + (char - b'0')) slice (omega (arith, h)))

long_enough :
    (n : ℕ) (slice : Bytes)
    → (if ltb (length slice) n then returned none else read_digits n 0 slice)
      ≡ returned (if ltb (length slice) n then none else digits_at n 0 slice)
long_enough n slice = ground (arith, read_digits-returned n 0 slice)

-- `ReadSmallInt` never panics.
pub read_small_int-returned : (slice : Bytes) → read_small_int slice ≡ returned (small_int_at slice)
unfolding read_small_int small_int_at
read_small_int-returned slice = long_enough 2 slice

-- `ReadBigInt` never panics.
pub read_big_int-returned : (slice : Bytes) → read_big_int slice ≡ returned (big_int_at slice)
unfolding read_big_int big_int_at
read_big_int-returned slice = long_enough 4 slice

-- The bytes that a string's length counts, if they are all there.
unfoldable pub string_behind : Bytes → Option Bytes
string_behind slice =
    Prelude.◌>>=◌ (big_int_at slice)
      λ n. if ltb (length slice) (4 + n) then none else some (take n (drop 4 slice))

-- The number that the bytes behind their count spell.
unfoldable pub var_int_behind : Bytes → Option ℤ
var_int_behind slice =
    Prelude.◌>>=◌ (small_int_at slice)
      λ n. if ltb (length slice) (2 + n) then none else ok_value (parse_int (take n (drop 2 slice)))

-- A slice expression behind the check of the length.
checked :
    {A : Type 0} (slice : Bytes) (low width : ℕ) (f : Bytes → Option A)
    → (if ltb (length slice) (low + width)
        then returned none
        else slice_range slice low (low + width) >>= λ part. returned (f part))
      ≡ returned
          (if ltb (length slice) (low + width) then none else f (take width (drop low slice)))
checked slice low width f = ground (arith, slice_range_lem slice low width)

-- `ReadString` never panics.
pub read_string-returned : (slice : Bytes) → read_string slice ≡ returned (string_behind slice)
unfolding read_string string_behind
read_string-returned slice = rw (read_big_int-returned slice) (go (big_int_at slice))
  where
    go :
        (o : Option ℕ)
        → elim o [
          | none ↦ returned none
          | some n ↦
              if ltb (length slice) (4 + n)
              then returned none
              else slice_range slice 4 (4 + n) >>= λ part. returned (some part)
        ]
          ≡ returned (
              Prelude.◌>>=◌ o
                λ n. if ltb (length slice) (4 + n) then none else some (take n (drop 4 slice)))
    go none = refl
    go (some n) = checked slice 4 n some

-- `ReadVarInt` never panics.
pub read_var_int-returned : (slice : Bytes) → read_var_int slice ≡ returned (var_int_behind slice)
unfolding read_var_int var_int_behind
read_var_int-returned slice = rw (read_small_int-returned slice) (go (small_int_at slice))
  where
    go :
        (o : Option ℕ)
        → elim o [
          | none ↦ returned none
          | some n ↦
              if ltb (length slice) (2 + n)
              then returned none
              else slice_range slice 2 (2 + n) >>= λ part. returned (ok_value (parse_int part))
        ]
          ≡ returned (
              Prelude.◌>>=◌ o λ n.
                if ltb (length slice) (2 + n)
                then none
                else ok_value (parse_int (take n (drop 2 slice))))
    go none = refl
    go (some n) = checked slice 2 n λ part. ok_value (parse_int part)
