-- ===== src/GoLib.antt =====
-- The parts of Go's standard library that the client computes with: `strconv.ParseInt` and
-- `strconv.Atoi`, the decimal verbs of `fmt.Sprintf`, and the float operations of `math`, which are
-- a parameter because floats cannot be computed here.
pub mod Decimal
pub mod Strconv
pub mod Panic
pub mod Sort
pub mod Trim
use kiv_ups.Prelude.{ℕ, zero, suc, ◌≡◌}
use kiv_ups.Prelude.Int.{ℤ, pos, negsuc}
use kiv_ups.GoLib.Decimal.{digit_count}

-- The operations on float64 that the source calls, by name.
pub record FloatOps : Type 1 where
  pub Float : Type 0
  pub of_int : ℤ → Float
  pub abs : Float → Float
  pub log10 : Float → Float
  pub floor : Float → Float
  pub add : Float → Float → Float
  pub one : Float
  pub to_int : Float → ℤ

-- `int(math.Floor(math.Log10(math.Abs(float64(num)))) + 1)`
abbrev pub log10_digits : FloatOps → ℤ → ℤ
log10_digits F num = F.to_int (F.add (F.floor (F.log10 (F.abs (F.of_int num)))) F.one)

-- The floats round to the right digit count at `num`: the floor of the logarithm is exact there. The
-- logarithm of 0, which is no number, is not asked for.
abbrev pub IsExactAt : FloatOps → ℤ → Type 0
IsExactAt F (pos zero) = Unit
IsExactAt F (pos (suc n)) = log10_digits F (pos (suc n)) ≡ pos (digit_count (suc n))
IsExactAt F (negsuc n) = log10_digits F (negsuc n) ≡ pos (digit_count (suc n))
