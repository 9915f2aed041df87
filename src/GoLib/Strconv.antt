-- ===== src/GoLib/Strconv.antt =====
-- `strconv.ParseInt(s, 10, 64)`, which is also `strconv.Atoi` on a 64-bit machine.
use kiv_ups.Prelude.{
  ℕ, zero, suc, ◌+◌, ◌-◌, ◌*◌, ◌/◌, ◌^◌, ◌≤◌, ◌<◌, ◌≡◌, refl, ap, ◌∙◌, Bool, true, false, not, ◌&&◌,
  [], ◌∷◌, Option, none, some, arith, ltb, leb, ◌==◌, if◌then◌else◌, Bytes, is_digit, length, All,
  IsDigit,
}
use kiv_ups.Prelude.Int.{ℤ, pos, negsuc, sub_ℕ, IsInt64}
use kiv_ups.GoLib.Decimal.{
  value, digits, format_int, value-digits, digits-IsDigit, digit_count, digit_count-value-le,
  digit_count_pos,
}

pub data NumError : Type 0 where
  syntax range : NumError

abbrev max_u64 : ℕ
max_u64 = 2 ^ 64 - 1

-- The loop of `ParseUint`: a range error is returned at once, whatever follows.
unfoldable pub parse_uint_from : ℕ → Bytes → ℕ × Option NumError
parse_uint_from n [] = (n, none)
parse_uint_from n (c ∷ s) =
    if not (is_digit c)
    then (0, some syntax)
    else if leb (max_u64 / 10 + 1) n
    then (max_u64, some range)
    else if ltb max_u64 (n * 10 + (c - b'0'))
    then (max_u64, some range)
    else parse_uint_from (n * 10 + (c - b'0')) s

unfoldable pub parse_uint : Bytes → ℕ × Option NumError
unfolding parse_uint_from
parse_uint [] = (0, some syntax)
parse_uint (c ∷ s) = parse_uint_from 0 (c ∷ s)

-- The sign and the range of int64, on what `ParseUint` returned.
unfoldable pub signed : Bool → ℕ × Option NumError → ℤ × Option NumError
signed neg (un, some syntax) = (pos 0, some syntax)
signed neg (un, e) =
    if not neg && leb (2 ^ 63) un
    then (pos (2 ^ 63 - 1), some range)
    else if neg && ltb (2 ^ 63) un
    then (negsuc (2 ^ 63 - 1), some range)
    else (if neg then sub_ℕ 0 un else pos un, none)

unfoldable pub parse_int : Bytes → ℤ × Option NumError
unfolding parse_uint signed
parse_int [] = (pos 0, some syntax)
parse_int (c ∷ s) =
    if c == b'+'
    then signed false (parse_uint s)
    else if c == b'-'
    then signed true (parse_uint s)
    else signed false (parse_uint (c ∷ s))

-- Reading on never makes the number smaller.
value-grows : (n : ℕ) (text : Bytes) → n ≤ value n text
value-grows n [] = omega arith
value-grows n (d ∷ text) = omega (arith, value-grows (n * 10 + (d - b'0')) text)

parse_uint_from_digits :
    (s : Bytes) (n : ℕ)
    → All IsDigit s
    → value n s ≤ max_u64
    → parse_uint_from n s ≡ (value n s, none)
unfolding parse_uint_from
parse_uint_from_digits [] n h fits = refl
parse_uint_from_digits (c ∷ s) n (hc, hs) fits =
    let m = n * 10 + (c - b'0') in
    ground (arith, parse_uint_from_digits s m hs fits, value-grows m s)

parse_uint_from_sound :
    (s : Bytes) (n : ℕ) {r : ℕ} → parse_uint_from n s ≡ (r, none) → All IsDigit s × (r ≡ value n s)
unfolding parse_uint_from
parse_uint_from_sound [] n h = ground arith
parse_uint_from_sound (c ∷ s) n {r} h =
    ground (arith, parse_uint_from_sound s (n * 10 + (c - b'0')) {r = r})

-- What a number prints, `ParseUint` reads back.
parse_uint-digits : (n : ℕ) → n < 2 ^ 64 → parse_uint (digits n) ≡ (n, none)
parse_uint-digits n fits =
    go (digits n) (digits-IsDigit n) (digit_count_pos n) (value-digits n fits)
  where
    go : (s : Bytes) → All IsDigit s → 0 < length s → value 0 s ≡ n → parse_uint s ≡ (n, none)
    go [] _ short _ = absurd (omega arith)
    go (c ∷ s) all_digits _ e =
        unfold parse_uint in rw (← e) (parse_uint_from_digits (c ∷ s) 0 all_digits (omega arith))

-- A first digit is no sign.
parse_int_unsigned :
    (s : Bytes) → All IsDigit s → 0 < length s → parse_int s ≡ signed false (parse_uint s)
parse_int_unsigned [] _ short = absurd (omega arith)
parse_int_unsigned (c ∷ s) (hc, _) _ = unfold parse_int in ground arith

-- Digits are read as the number they spell, leading zeros included, if it is an int64.
pub parse_int-value :
    (s : Bytes)
    → All IsDigit s
    → 0 < length s
    → value 0 s < 2 ^ 63
    → parse_int s ≡ (pos (value 0 s), none)
parse_int-value [] h short fits = absurd (omega arith)
parse_int-value (c ∷ s) h short fits = rw (parse_int_unsigned (c ∷ s) h short) (
    unfold parse_uint in
    rw (parse_uint_from_digits (c ∷ s) 0 h (omega (arith, fits)))
      (unfold signed in ground (arith, fits)))

-- Every int64 is read back from its `%d` print.
pub parse_int-format_int : (z : ℤ) → IsInt64 z → parse_int (format_int z) ≡ (z, none)
unfolding format_int
parse_int-format_int (pos n) h =
    rw
      (
        parse_int_unsigned (digits n) (digits-IsDigit n) (digit_count_pos n),
        parse_uint-digits n (omega arith),
      )
      (unfold signed in ground arith)
parse_int-format_int (negsuc n) h =
    unfold parse_int in rw (parse_uint-digits (suc n) (omega arith)) (unfold signed in ground arith)

-- The bytes that `format_int` takes for `z`: the digits, and the sign.
abbrev pub text_count : ℤ → ℕ
text_count (pos n) = digit_count n
text_count (negsuc n) = suc (digit_count (suc n))

pub length-format_int : (z : ℤ) → length (format_int z) ≡ text_count z
unfolding format_int
length-format_int (pos n) = refl
length-format_int (negsuc n) = refl

-- A range error comes with the greatest value.
parse_uint_from_range :
    (s : Bytes) (n : ℕ) {r : ℕ} → parse_uint_from n s ≡ (r, some range) → r ≡ max_u64
unfolding parse_uint_from
parse_uint_from_range [] n h = cc
parse_uint_from_range (c ∷ s) n {r} h =
    ground (arith, parse_uint_from_range s (n * 10 + (c - b'0')) {r = r})

-- What is read as an unsigned number has at least as many bytes as the number has digits.
parse_uint-length : (s : Bytes) {r : ℕ} → parse_uint s ≡ (r, none) → digit_count r ≤ length s
unfolding parse_uint
parse_uint-length [] e = cc
parse_uint-length (c ∷ s) {r} e =
    let (all_digits, exact) = parse_uint_from_sound (c ∷ s) 0 e in
    rw exact (digit_count-value-le c s all_digits)

-- What `signed` returns without an error: the number with its sign, and in range.
abbrev SignedOf : Bool → ℕ → ℤ → Type 0
SignedOf false un z = (z ≡ pos un) × IsInt64 z
SignedOf true un z = (z ≡ sub_ℕ 0 un) × IsInt64 z

signed_sound :
    (neg : Bool) (un : ℕ) (e : Option NumError) {z : ℤ}
    → signed neg (un, e) ≡ (z, none)
    → (e ≡ some range → un ≡ max_u64)
    → (e ≡ none) × SignedOf neg un z
unfolding signed
signed_sound false un none h k = ground arith
signed_sound true un none h k = ground arith
signed_sound false un (some range) h k = absurd (ground (arith, k refl))
signed_sound true un (some range) h k = absurd (ground (arith, k refl))
signed_sound neg un (some syntax) h k = cc

text_count-sub : (un : ℕ) → text_count (sub_ℕ 0 un) ≤ suc (digit_count un)
text_count-sub zero = omega arith
text_count-sub (suc n) = ground arith

bound :
    (neg : Bool) (un : ℕ) {n : ℕ} (z : ℤ)
    → digit_count un ≤ n
    → SignedOf neg un z
    → (text_count z ≤ (if neg then suc n else n)) × IsInt64 z
bound false un z h (e, i) = (rw e h, i)
bound true un z h (e, i) = (rw e (omega (arith, text_count-sub un)), i)

parse_uint-range : (s : Bytes) {r : ℕ} → parse_uint s ≡ (r, some range) → r ≡ max_u64
unfolding parse_uint
parse_uint-range [] h = cc
parse_uint-range (c ∷ s) h = parse_uint_from_range (c ∷ s) 0 h

signed-length :
    (neg : Bool) (s : Bytes) {z : ℤ}
    → signed neg (parse_uint s) ≡ (z, none)
    → (text_count z ≤ (if neg then suc (length s) else length s)) × IsInt64 z
signed-length neg s {z} h = go (parse_uint s) refl h
  where
    go :
        (u : ℕ × Option NumError)
        → parse_uint s ≡ u
        → signed neg u ≡ (z, none)
        → (text_count z ≤ (if neg then suc (length s) else length s)) × IsInt64 z
    go (un, none) h k =
        bound neg un z (parse_uint-length s h) (signed_sound neg un none k (λ e. cc)).1
    go (un, some e) h k =
        let ends =
          (signed_sound neg un (some e) k (λ r. parse_uint-range s (h ∙ ap (λ x. (un, x)) r))) in
        cc (ends.0)

-- What is read as an int64 has at least as many bytes as its print, and lies in the range.
pub parse_int-length :
    (s : Bytes) {z : ℤ} → parse_int s ≡ (z, none) → (text_count z ≤ length s) × IsInt64 z
unfolding parse_int
parse_int-length [] h = cc
parse_int-length (c ∷ s) {z} h = ground (
  arith,
  signed-length false s {z = z},
  signed-length true s {z = z},
  signed-length false (c ∷ s) {z = z},
)
