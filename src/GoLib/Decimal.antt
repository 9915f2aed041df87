-- ===== src/GoLib/Decimal.antt =====
-- The decimal verbs `%d`, `%02d` and `%04d` of `fmt.Sprintf`.
use kiv_ups.Prelude.{
  ℕ, zero, suc, ◌+◌, ◌-◌, ◌*◌, ◌/◌, ◌%◌, ◌^◌, ◌≤◌, ◌<◌, ◌≡◌, ◌⊎◌, refl, ◌∙◌, true, false, [], ◌∷◌,
  ◌++◌, arith, ltb, Bytes, length, length-append, replicate, inl, inr, All, IsDigit,
}
use kiv_ups.Prelude.Int.{ℤ, pos, negsuc}
use native.Mathlib.Nat.{pow-suc, mul-le-mul_right}

-- The decimal digits of `n`, most significant first, with fuel for one digit each.
unfoldable pub decimal : ℕ → ℕ → Bytes
decimal zero n = []
decimal (suc fuel) n = elim (ltb n 10) [
  | true ↦ (b'0' + n) ∷ []
  | false ↦ decimal fuel (n / 10) ++ (b'0' + n % 10) ∷ []
]

-- A 64-bit number has at most 20 digits.
abbrev pub max_digits : ℕ
max_digits = 20

unfoldable pub digits : ℕ → Bytes
unfolding decimal
digits n = decimal max_digits n

abbrev pub digit_count : ℕ → ℕ
digit_count n = length (digits n)

-- `%d`
unfoldable pub format_int : ℤ → Bytes
unfolding digits
format_int (pos n) = digits n
format_int (negsuc n) = b'-' ∷ digits (suc n)

abbrev pub pad : ℕ → Bytes → Bytes
pad w s = replicate (w - length s) b'0' ++ s

-- `%04d` and `%02d`: zeros up to the width, behind the sign.
unfoldable pub format_padded : ℕ → ℤ → Bytes
unfolding digits
format_padded w (pos n) = pad w (digits n)
format_padded w (negsuc n) = b'-' ∷ pad (w - 1) (digits (suc n))

-- The number that digits spell behind `n`.
abbrev pub value : ℕ → Bytes → ℕ
value n [] = n
value n (c ∷ s) = value (n * 10 + (c - b'0')) s

pub value-append : (s t : Bytes) (n : ℕ) → value n (s ++ t) ≡ value (value n s) t
value-append [] t n = refl
value-append (c ∷ s) t n = value-append s t (n * 10 + (c - b'0'))

pub All-IsDigit-append : (s t : Bytes) → All IsDigit s → All IsDigit t → All IsDigit (s ++ t)
All-IsDigit-append [] t hs ht = ht
All-IsDigit-append (c ∷ s) t (hc, hs) ht = (hc, All-IsDigit-append s t hs ht)

decimal_last : (f n : ℕ) → n < 10 → decimal (suc f) n ≡ (b'0' + n) ∷ []
unfolding decimal
decimal_last f n h = ground arith

decimal_more : (f n : ℕ) → 10 ≤ n → decimal (suc f) n ≡ decimal f (n / 10) ++ (b'0' + n % 10) ∷ []
unfolding decimal
decimal_more f n h = ground arith

short_or_long : (n : ℕ) → (n < 10) ⊎ (10 ≤ n)
short_or_long n = omega arith

-- With enough fuel the digits spell the number.
pub value-decimal : (f n : ℕ) → n < 10 ^ f → value 0 (decimal f n) ≡ n
value-decimal zero n h = unfold decimal in omega arith
value-decimal (suc f) n h = elim (short_or_long n) [
  | inl small ↦ rw (decimal_last f n small) (omega arith)
  | inr large ↦ rw (decimal_more f n large) (
      value-append (decimal f (n / 10)) _ 0
      ∙ rw (value-decimal f (n / 10) (omega (arith, pow-suc 10 f))) (omega arith))
]

decimal-IsDigit : (f n : ℕ) → All IsDigit (decimal f n)
decimal-IsDigit zero n = unfold decimal in tt
decimal-IsDigit (suc f) n = elim (short_or_long n) [
  | inl small ↦ rw (decimal_last f n small) (ground arith)
  | inr large ↦
      rw (decimal_more f n large)
        (All-IsDigit-append (decimal f (n / 10)) _ (decimal-IsDigit f (n / 10)) (ground arith))
]

length-decimal_pos : (f n : ℕ) → 0 < length (decimal (suc f) n)
length-decimal_pos f n = elim (short_or_long n) [
  | inl small ↦ rw (decimal_last f n small) (omega arith)
  | inr large ↦ rw (decimal_more f n large, length-append) (omega arith)
]

-- A number below 10^k has at most k digits.
length-decimal-le : (f n k : ℕ) → n < 10 ^ suc k → length (decimal f n) ≤ suc k
length-decimal-le zero n k h = unfold decimal in omega arith
length-decimal-le (suc f) n zero h = rw (decimal_last f n (omega arith)) (omega arith)
length-decimal-le (suc f) n (suc k) h = elim (short_or_long n) [
  | inl small ↦ rw (decimal_last f n small) (omega arith)
  | inr large ↦
      rw (decimal_more f n large, length-append)
        (omega (arith, length-decimal-le f (n / 10) k (omega (arith, pow-suc 10 (suc k)))))
]

-- One more digit behind a number below `m` of them.
pub mul_bound : (v m n p : ℕ) → v < m * p → m ≤ (n + 1) * 10 → v < (n + 1) * (p * 10)
mul_bound v m n p h k = let scaled : m * p ≤ (n + 1) * 10 * p = mul-le-mul_right p k in omega arith

value-lt : (s : Bytes) (n : ℕ) → All IsDigit s → value n s < (n + 1) * 10 ^ length s
value-lt [] n h = omega arith
value-lt (c ∷ s) n (hc, hs) =
    let m = n * 10 + (c - b'0') in
    rw (pow-suc 10 (length s))
      (mul_bound (value m s) (m + 1) n (10 ^ length s) (value-lt s m hs) (ground arith))

pub value-digits : (n : ℕ) → n < 2 ^ 64 → value 0 (digits n) ≡ n
unfolding digits
value-digits n fits = value-decimal max_digits n (omega arith)

pub digits-IsDigit : (n : ℕ) → All IsDigit (digits n)
unfolding digits
digits-IsDigit n = decimal-IsDigit max_digits n

pub digit_count_pos : (n : ℕ) → 0 < digit_count n
unfolding digits
digit_count_pos n = length-decimal_pos 19 n

pub digit_count-le : (n k : ℕ) → n < 10 ^ suc k → digit_count n ≤ suc k
unfolding digits
digit_count-le n k h = length-decimal-le max_digits n k h

-- Digits spell no number with more digits than they are.
pub digit_count-value-le :
    (c : ℕ) (s : Bytes) → All IsDigit (c ∷ s) → digit_count (value 0 (c ∷ s)) ≤ length (c ∷ s)
unfolding digits
digit_count-value-le c s h =
    length-decimal-le max_digits (value 0 (c ∷ s)) (length s) (omega (arith, value-lt (c ∷ s) 0 h))

shift_step :
    (x n d p v t : ℕ) → x ≡ (n * 10 + d) * p + v → t ≡ (0 * 10 + d) * p + v → x ≡ n * (p * 10) + t
shift_step x n d p v t h k = omega (arith, h, k)

-- What stands before digits is shifted by their number.
pub value_shift : (s : Bytes) (n : ℕ) → value n s ≡ n * 10 ^ length s + value 0 s
value_shift [] n = omega arith
value_shift (c ∷ s) n = rw (pow-suc 10 (length s)) (
    shift_step (value (n * 10 + (c - b'0')) s) n (c - b'0') (10 ^ length s) (value 0 s)
      (value (0 * 10 + (c - b'0')) s) (value_shift s (n * 10 + (c - b'0')))
      (value_shift s (0 * 10 + (c - b'0'))))

pub value-zeros : (k : ℕ) (s : Bytes) → value 0 (replicate k b'0' ++ s) ≡ value 0 s
value-zeros zero s = refl
value-zeros (suc k) s = value-zeros k s

zeros-IsDigit : (k : ℕ) → All IsDigit (replicate k b'0')
zeros-IsDigit zero = tt
zeros-IsDigit (suc k) = (ground arith, zeros-IsDigit k)

pub format_padded-IsDigit : (w n : ℕ) → All IsDigit (format_padded w (pos n))
unfolding format_padded
format_padded-IsDigit w n =
    All-IsDigit-append (replicate (w - digit_count n) b'0') (digits n)
      (zeros-IsDigit (w - digit_count n)) (digits-IsDigit n)

pub value-format_padded : (w n : ℕ) → n < 2 ^ 64 → value 0 (format_padded w (pos n)) ≡ n
unfolding format_padded
value-format_padded w n h = value-zeros (w - digit_count n) (digits n) ∙ value-digits n h
