-- ===== src/Serde/Fields/RoundTrip.antt =====
-- What the writers print, the readers read back, whatever follows it.
use kiv_ups.Prelude.{
  ℕ, zero, suc, ◌+◌, ◌-◌, ◌*◌, ◌≤◌, ◌<◌, ◌^◌, ◌≡◌, refl, sym, ap, le→ltb_false, ◌∙◌, [], ◌∷◌, ◌++◌,
  none, some, arith, Bytes, length, take, drop, All, IsDigit, length-append, append_assoc,
  take-append, drop-append, replicate,
}
use kiv_ups.Prelude.Int.{ℤ, pos, negsuc, add_int, IsInt64}
use kiv_ups.GoLib.{FloatOps, IsExactAt}
use kiv_ups.GoLib.Decimal.{
  value, digits, format_int, format_padded, value-digits, digits-IsDigit, digit_count-le,
  digit_count,
}
use kiv_ups.GoLib.Strconv.{parse_int, parse_int-format_int, length-format_int, text_count}
use kiv_ups.GoLib.Panic.{returned}
use kiv_ups.Serde.Fields.Total.{
  string_behind, var_int_behind, read_string-returned, read_var_int-returned,
}
use kiv_ups.Serde.Fields.{
  read_string, read_var_int, write_small_int, write_big_int, ok_value, write_string, write_var_int,
  count_digits,
}
use kiv_ups.Serde.Fields.Total.{digits_at, small_int_at, big_int_at}

-- The integer readers read the number that the first digits spell.
pub digits_at-append :
    (s rest : Bytes) (n number : ℕ)
    → All IsDigit s
    → n ≡ length s
    → digits_at n number (s ++ rest) ≡ some (value number s)
unfolding digits_at
digits_at-append [] rest zero number h e = refl
digits_at-append [] rest (suc n) number h e = absurd (omega arith)
digits_at-append (c ∷ s) rest zero number h e = absurd (omega arith)
digits_at-append (c ∷ s) rest (suc n) number (hc, hs) e =
    ground (arith, digits_at-append s rest n (number * 10 + (c - b'0')) hs (omega arith))

value-pad : (k : ℕ) (s : Bytes) → value 0 (replicate k b'0' ++ s) ≡ value 0 s
value-pad zero s = refl
value-pad (suc k) s = value-pad k s

IsDigit-pad : (k : ℕ) (s : Bytes) → All IsDigit s → All IsDigit (replicate k b'0' ++ s)
IsDigit-pad zero s h = h
IsDigit-pad (suc k) s h = (refl, IsDigit-pad k s h)

length-pad : (k : ℕ) (s : Bytes) → length (replicate k b'0' ++ s) ≡ k + length s
length-pad zero s = omega arith
length-pad (suc k) s = omega (arith, length-pad k s)

-- `%02d` and `%04d` of a number that fits: that many digits, which spell the number.
module _ (w n : ℕ) (fits : n < 10 ^ suc w) (small : n < 2 ^ 64) where
  pub length-format_padded : length (format_padded (suc w) (pos n)) ≡ suc w
  unfolding format_padded
  length-format_padded =
      omega (arith, length-pad (suc w - length (digits n)) (digits n), digit_count-le n w fits)

  pub format_padded-IsDigit : All IsDigit (format_padded (suc w) (pos n))
  unfolding format_padded
  format_padded-IsDigit = IsDigit-pad (suc w - length (digits n)) (digits n) (digits-IsDigit n)

  pub value-format_padded : value 0 (format_padded (suc w) (pos n)) ≡ n
  unfolding format_padded
  value-format_padded = value-pad (suc w - length (digits n)) (digits n) ∙ value-digits n small

  digits_at-format_padded :
      (rest : Bytes) → digits_at (suc w) 0 (format_padded (suc w) (pos n) ++ rest) ≡ some n
  digits_at-format_padded rest =
      digits_at-append (format_padded (suc w) (pos n)) rest (suc w) 0 format_padded-IsDigit
        (omega (arith, length-format_padded))
      ∙ ap some value-format_padded

pub small_int_at-format_padded :
    (n : ℕ) (rest : Bytes) → n < 100 → small_int_at (format_padded 2 (pos n) ++ rest) ≡ some n
unfolding small_int_at
small_int_at-format_padded n rest h = ground (
  arith,
  length-format_padded 1 n (omega arith) (omega arith),
  length-append (format_padded 2 (pos n)) rest,
  digits_at-format_padded 1 n (omega arith) (omega arith) rest,
)

pub big_int_at-format_padded :
    (n : ℕ) (rest : Bytes) → n < 10000 → big_int_at (format_padded 4 (pos n) ++ rest) ≡ some n
unfolding big_int_at
big_int_at-format_padded n rest h = ground (
  arith,
  length-format_padded 3 n (omega arith) (omega arith),
  length-append (format_padded 4 (pos n)) rest,
  digits_at-format_padded 3 n (omega arith) (omega arith) rest,
)

-- A length prefix of `w` digits, the bytes that it counts, and what follows.
module _ (w n : ℕ) (body rest : Bytes) (counts : n ≡ length body) (fits : n < 10 ^ suc w)
    (small : n < 2 ^ 64) where
  abbrev prefixed : Bytes
  prefixed = (format_padded (suc w) (pos n) ++ body) ++ rest

  prefixed_body : take n (drop (suc w) prefixed) ≡ body
  prefixed_body =
      rw
        (
          append_assoc,
          drop-append (format_padded (suc w) (pos n)) (body ++ rest) (suc w)
              (omega (arith, length-format_padded w n fits small)),
        )
        (take-append body rest n counts)

  prefixed-length : suc w + n ≤ length prefixed
  prefixed-length = omega (
    arith,
    length-format_padded w n fits small,
    length-append (format_padded (suc w) (pos n)) body,
    length-append (format_padded (suc w) (pos n) ++ body) rest,
  )

pub string_behind-prefixed :
    (n : ℕ) (str rest : Bytes)
    → n ≡ length str
    → n < 10000
    → string_behind ((format_padded 4 (pos n) ++ str) ++ rest) ≡ some str
unfolding string_behind
string_behind-prefixed n str rest e h =
    let big : n < 10 ^ 4 = omega arith in
    let small : n < 2 ^ 64 = omega arith in
    rw
      (
        append_assoc (format_padded 4 (pos n)) str rest,
        big_int_at-format_padded n (str ++ rest) h,
        ← append_assoc (format_padded 4 (pos n)) str rest,
        le→ltb_false _ _ (prefixed-length 3 n str rest e big small),
      )
      (ap some (prefixed_body 3 n str rest e big small))

pub var_int_behind-prefixed :
    (n : ℕ) (body rest : Bytes)
    → n ≡ length body
    → n < 100
    → var_int_behind ((format_padded 2 (pos n) ++ body) ++ rest) ≡ ok_value (parse_int body)
unfolding var_int_behind
var_int_behind-prefixed n body rest e h =
    let big : n < 10 ^ 2 = omega arith in
    let small : n < 2 ^ 64 = omega arith in
    rw
      (
        append_assoc (format_padded 2 (pos n)) body rest,
        small_int_at-format_padded n (body ++ rest) h,
        ← append_assoc (format_padded 2 (pos n)) body rest,
        le→ltb_false _ _ (prefixed-length 1 n body rest e big small),
      )
      (ap (λ s. ok_value (parse_int s)) (prefixed_body 1 n body rest e big small))

-- A string behind its length, and an integer behind the number of its bytes.
abbrev pub string_text : Bytes → Bytes
string_text str = format_padded 4 (pos (length str)) ++ str

abbrev pub var_int_text : ℤ → Bytes
var_int_text z = format_padded 2 (pos (text_count z)) ++ format_int z

pub length-string_text :
    (str : Bytes) → length str < 10000 → length (string_text str) ≡ 4 + length str
length-string_text str h = omega (
  arith,
  length-append (format_padded 4 (pos (length str))) str,
  length-format_padded 3 (length str) (omega arith) (omega arith),
)

pub string_behind-string_text :
    (str rest : Bytes) → length str < 10000 → string_behind (string_text str ++ rest) ≡ some str
string_behind-string_text str rest h = string_behind-prefixed (length str) str rest refl h

-- `WriteString` of at most 9999 bytes succeeds and is read back, whatever follows.
pub read_string-write_string :
    (str rest : Bytes)
    → length str < 10000
    → (write_string str ≡ some (string_text str))
      × (read_string (string_text str ++ rest) ≡ returned (some str))
unfolding write_string write_big_int
read_string-write_string str rest h = (
  ground arith,
  read_string-returned (string_text str ++ rest)
      ∙ ap returned (string_behind-string_text str rest h),
)

-- A longer string is refused.
pub write_string_long : (str : Bytes) → 10000 ≤ length str → write_string str ≡ none
unfolding write_string write_big_int
write_string_long str h = ground arith

digit_count_bound : (n : ℕ) → n < 2 ^ 64 → digit_count n ≤ 20
digit_count_bound n h = digit_count-le n 19 (omega arith)

pub text_count_bound : (z : ℤ) → IsInt64 z → text_count z ≤ 21
text_count_bound (pos n) h = omega (arith, digit_count_bound n)
text_count_bound (negsuc n) h = omega (arith, digit_count_bound (suc n))

-- At 0, and where the logarithm is exact, `countDigits` counts the bytes that `%d` prints.
pub count_digits-text_count :
    (F : FloatOps) (z : ℤ) → IsInt64 z → IsExactAt F z → count_digits F z ≡ pos (text_count z)
unfolding count_digits
count_digits-text_count F (pos zero) h e = unfold digits in refl
count_digits-text_count F (pos (suc n)) h e = ground arith
count_digits-text_count F (negsuc n) h e =
    rw e (unfold add_int in ground (arith, digit_count_bound (suc n)))

pub text_count-lt : (z : ℤ) → IsInt64 z → text_count z < 100
text_count-lt z h = omega (arith, text_count_bound z h)

pub length-var_int_text : (z : ℤ) → IsInt64 z → length (var_int_text z) ≡ 2 + text_count z
length-var_int_text z h = omega (
  arith,
  length-append (format_padded 2 (pos (text_count z))) (format_int z),
  length-format_int z,
  length-format_padded 1 (text_count z) (text_count-lt z h),
  text_count-lt z h,
)

pub var_int_behind-var_int_text :
    (z : ℤ) (rest : Bytes) → IsInt64 z → var_int_behind (var_int_text z ++ rest) ≡ some z
var_int_behind-var_int_text z rest h =
    var_int_behind-prefixed (text_count z) (format_int z) rest (sym (length-format_int z))
      (text_count-lt z h)
    ∙ rw (parse_int-format_int z h)

-- `WriteVarInt` of an int64 succeeds and is read back, whatever follows, if the floor of the
-- logarithm is exact at it.
pub read_var_int-write_var_int :
    (F : FloatOps) (z : ℤ) (rest : Bytes)
    → IsInt64 z
    → IsExactAt F z
    → (write_var_int F z ≡ some (var_int_text z))
      × (read_var_int (var_int_text z ++ rest) ≡ returned (some z))
unfolding write_var_int write_small_int
read_var_int-write_var_int F z rest h e = (
  rw (count_digits-text_count F z h e) (ground (arith, text_count-lt z h)),
  read_var_int-returned (var_int_text z ++ rest)
      ∙ ap returned (var_int_behind-var_int_text z rest h),
)
