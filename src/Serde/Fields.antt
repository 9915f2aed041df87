-- ===== src/Serde/Fields.antt =====
-- The field readers and writers of sp/client/ups_net/serde.go: small, big and variable integers and
-- strings. A Go pair `(value, ok)` is an `Option`, and a slice expression out of range panics; the
-- logging is left out.
pub mod Total
pub mod RoundTrip
pub mod Bounds
pub mod Decides
use kiv_ups.Prelude.{
  ℕ, zero, suc, ◌+◌, ◌-◌, ◌*◌, ◌≡◌, refl, Bool, true, not, ◌||◌, [], ◌∷◌, ◌++◌, Option, none, some,
  arith, ltb, leb, if◌then◌else◌, Bytes, is_digit, length, ◌>>=◌, codes,
}
use kiv_ups.Prelude.Int.{ℤ, pos, negsuc, is_zero, ltb_ℤ, add_int}
use kiv_ups.GoLib.{FloatOps, log10_digits}
use kiv_ups.GoLib.Panic.{Outcome, returned, panic, slice_range}
use kiv_ups.GoLib.Panic
use kiv_ups.GoLib.Decimal.{format_int, format_padded}
use kiv_ups.GoLib.Strconv.{parse_int, NumError}

-- The loop `for i := range n` of both integer readers, whose index panics behind the slice.
pub read_digits : ℕ → ℕ → Bytes → Outcome (Option ℕ)
read_digits zero number slice = returned (some number)
read_digits (suc n) number [] = panic
read_digits (suc n) number (char ∷ slice) =
    if ltb char b'0' || ltb b'9' char
    then returned none
    else read_digits n (number * 10 + (char - b'0')) slice

unfoldable pub read_small_int : Bytes → Outcome (Option ℕ)
unfolding read_digits
read_small_int slice = if ltb (length slice) 2 then returned none else read_digits 2 0 slice

unfoldable pub read_big_int : Bytes → Outcome (Option ℕ)
unfolding read_digits
read_big_int slice = if ltb (length slice) 4 then returned none else read_digits 4 0 slice

unfoldable pub read_string : Bytes → Outcome (Option Bytes)
read_string slice = Panic.◌>>=◌ (read_big_int slice) λ size. elim size [
  | none ↦ returned none
  | some string_length ↦
      if ltb (length slice) (4 + string_length)
      then returned none
      else Panic.◌>>=◌ (slice_range slice 4 (4 + string_length))
          λ string_slice. returned (some string_slice)
]

-- The error of `strconv.ParseInt` drops its value.
abbrev pub ok_value : ℤ × Option NumError → Option ℤ
ok_value (number, none) = some number
ok_value (number, some err) = none

unfoldable pub read_var_int : Bytes → Outcome (Option ℤ)
read_var_int slice = Panic.◌>>=◌ (read_small_int slice) λ size. elim size [
  | none ↦ returned none
  | some len ↦
      if ltb (length slice) (2 + len)
      then returned none
      else Panic.◌>>=◌ (slice_range slice 2 (2 + len))
          λ int_slice. returned (ok_value (parse_int int_slice))
]

unfoldable pub write_small_int : ℤ → Option Bytes
write_small_int num =
    if ltb_ℤ (pos 99) num || ltb_ℤ num (pos 0) then none else some (format_padded 2 num)

unfoldable pub write_big_int : ℤ → Option Bytes
write_big_int num =
    if ltb_ℤ (pos 9999) num || ltb_ℤ num (pos 0) then none else some (format_padded 4 num)

unfoldable pub count_digits : FloatOps → ℤ → ℤ
count_digits F num =
    if is_zero num
    then pos 1
    else let digit_count = log10_digits F num in
      if ltb_ℤ num (pos 1) then add_int digit_count (pos 1) else digit_count

unfoldable pub write_var_int : FloatOps → ℤ → Option Bytes
write_var_int F num = do
  digit_count_str ← write_small_int (count_digits F num)
  some (digit_count_str ++ format_int num)

unfoldable pub write_string : Bytes → Option Bytes
write_string str = do len_str ← write_big_int (pos (length str)); some (len_str ++ str)
