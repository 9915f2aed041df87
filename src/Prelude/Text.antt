-- ===== src/Prelude/Text.antt =====
-- Go strings and byte slices: a list of byte values. Literals are written through `codes`.
use Prim.Native.Nat.{ℕ}
use Prim.Native.Char.{code}
use Prim.Native.String.{String}
use mathlib.Core.Path.{◌≡◌, refl}
use mathlib.Core.Logic.{◌↔◌}
use mathlib.Core.Bool.{Bool, true, false, ◌&&◌}
use mathlib.Core.List.{List, [], ◌∷◌}
use native.Mathlib.Omega.{arith}
use kiv_ups.Prelude.Lists.{length}
use kiv_ups.Prelude.Tests.{◌==◌, leb}

abbrev pub Bytes : Type 0
Bytes = List ℕ

-- The code points of a literal; these are its bytes, since every literal is ASCII.
abbrev pub codes : String → Bytes
codes String.[] = []
codes (String.◌∷◌ c s) = code c ∷ codes s

-- `a == b` on strings.
unfoldable pub same : Bytes → Bytes → Bool
same [] [] = true
same (x ∷ xs) (y ∷ ys) = x == y && same xs ys
same _ _ = false

pub same_iff : (a b : Bytes) → (same a b ≡ true) ↔ (a ≡ b)
unfolding same
same_iff (x ∷ a) (y ∷ b) = ground (arith, same_iff a b)
same_iff _ _ = ground arith

pub same_refl : (a : Bytes) → same a a ≡ true
same_refl a = (same_iff a a).1 refl

-- A text of four bytes.
pub four_bytes :
    (s : Bytes) → length s ≡ 4 → (a : ℕ) × (b : ℕ) × (c : ℕ) × (d : ℕ) × (s ≡ a ∷ b ∷ c ∷ d ∷ [])
four_bytes (a ∷ b ∷ c ∷ d ∷ []) h = (a, b, c, d, refl)
four_bytes [] h = absurd (omega arith)
four_bytes (a ∷ []) h = absurd (omega arith)
four_bytes (a ∷ b ∷ []) h = absurd (omega arith)
four_bytes (a ∷ b ∷ c ∷ []) h = absurd (omega arith)
four_bytes (a ∷ b ∷ c ∷ d ∷ e ∷ s) h = absurd (omega arith)

abbrev pub is_digit : ℕ → Bool
is_digit c = leb b'0' c && leb c b'9'

module _ {ℓ} {A : Type ℓ} (P : A → Type 0) where
  abbrev pub All : List A → Type 0
  All [] = Unit
  All (x ∷ xs) = P x × All xs

abbrev pub IsDigit : ℕ → Type 0
IsDigit c = is_digit c ≡ true
