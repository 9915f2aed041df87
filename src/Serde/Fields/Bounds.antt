-- ===== src/Serde/Fields/Bounds.antt =====
-- A reader that succeeds stays within its slice, and its value within its range.
use native.Mathlib.Nat.{pow-suc}
use kiv_ups.GoLib.Decimal.{mul_bound}
use kiv_ups.Prelude.{
  Bool, true, false, ℕ, zero, suc, ◌+◌, ◌-◌, ◌*◌, ◌≤◌, ◌<◌, ◌^◌, ◌≡◌, refl, [], ◌∷◌, Option, none,
  some, arith, ltb, if◌then◌else◌, Bytes, length, take, drop, length-take, length-drop, >>=-eq-some,
}
use kiv_ups.Prelude.Int.{ℤ, IsInt64}
use kiv_ups.GoLib.Strconv.{parse_int, parse_int-length, text_count, NumError}
use kiv_ups.Serde.Fields.{ok_value}
use kiv_ups.Serde.Fields.Total.{digits_at, small_int_at, big_int_at}
use kiv_ups.Serde.Fields.Total.{string_behind, var_int_behind}

-- `n` digits behind `number` give a number below `(number + 1) * 10^n`.
digits_at-lt :
    (n number : ℕ) (slice : Bytes) {r : ℕ}
    → digits_at n number slice ≡ some r
    → r < (number + 1) * 10 ^ n
unfolding digits_at
digits_at-lt zero number slice h = ground arith
digits_at-lt (suc n) number [] h = cc
digits_at-lt (suc n) number (char ∷ slice) {r} h = rw (pow-suc 10 n) (
    ground (
      arith,
      mul_bound r (number * 10 + (char - b'0') + 1) number (10 ^ n),
      digits_at-lt n (number * 10 + (char - b'0')) slice {r = r},
    ))

int_at_bounds :
    (n : ℕ) (slice : Bytes) {r : ℕ}
    → (if ltb (length slice) n then none else digits_at n 0 slice) ≡ some r
    → (n ≤ length slice) × (r < 10 ^ n)
int_at_bounds n slice {r} h = ground (arith, digits_at-lt n 0 slice {r = r})

pub small_int_at_bounds :
    (slice : Bytes) {n : ℕ} → small_int_at slice ≡ some n → (2 ≤ length slice) × (n < 100)
unfolding small_int_at
small_int_at_bounds slice h = int_at_bounds 2 slice h

pub big_int_at_bounds :
    (slice : Bytes) {n : ℕ} → big_int_at slice ≡ some n → (4 ≤ length slice) × (n < 10000)
unfolding big_int_at
big_int_at_bounds slice h = int_at_bounds 4 slice h

-- A string that is read has fewer than 10000 bytes, and lies with its prefix within the slice.
pub string_behind_bounds :
    (slice : Bytes) {str : Bytes}
    → string_behind slice ≡ some str
    → (4 + length str ≤ length slice) × (length str < 10000)
unfolding string_behind
string_behind_bounds slice h =
    let (n, e, k) = >>=-eq-some (big_int_at slice) _ h in
    let (long, small) = big_int_at_bounds slice e in
    ground (arith, length-take n (drop 4 slice), length-drop 4 slice)

pub >>=-guard {ℓ} :
    {A : Type ℓ} (b : Bool) (o : Option A) {a : A}
    → (if b then none else o) ≡ some a
    → (b ≡ false) × (o ≡ some a)
>>=-guard true o h = cc
>>=-guard false o h = (refl, h)

pub ok_value-eq-some : (p : ℤ × Option NumError) {z : ℤ} → ok_value p ≡ some z → p ≡ (z, none)
ok_value-eq-some (y, none) h = ground arith
ok_value-eq-some (y, some e) h = cc

-- An integer that is read is an int64, and its prefix and shortest print fit into the slice.
pub var_int_behind_bounds :
    (slice : Bytes) {z : ℤ}
    → var_int_behind slice ≡ some z
    → (2 + text_count z ≤ length slice) × IsInt64 z
unfolding var_int_behind
var_int_behind_bounds slice {z} h =
    let (n, e, k) = >>=-eq-some (small_int_at slice) _ h in
    let (long, small) = small_int_at_bounds slice e in
    let (fits, exact) = >>=-guard (ltb (length slice) (2 + n)) _ k in
    let (text, range) =
      parse_int-length (take n (drop 2 slice))
        (ok_value-eq-some (parse_int (take n (drop 2 slice))) exact) in
    (ground (arith, length-take n (drop 2 slice), length-drop 2 slice, text, fits), range)
