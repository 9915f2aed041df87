-- ===== src/GoLib/Trim.antt =====
-- `strings.TrimSpace`: the bytes of Unicode's white space are taken off both ends.
use mathlib.Core.List.{reverse}
use kiv_ups.Prelude.{ℕ, Bool, ◌&&◌, ◌||◌, [], ◌∷◌, ◌==◌, leb, if◌then◌else◌, Bytes}

-- The white space of one byte: tab, line feed, vertical tab, form feed, carriage return, space.
unfoldable is_space : ℕ → Bool
is_space c = (leb 9 c && leb c 13) || c == 32

-- U+0085 and U+00A0, of two bytes.
unfoldable is_space2 : ℕ → ℕ → Bool
is_space2 c d = c == 0xC2 && (d == 0x85 || d == 0xA0)

-- U+1680, U+2000 to U+200A, U+2028, U+2029, U+202F, U+205F and U+3000, of three bytes.
unfoldable is_space3 : ℕ → ℕ → ℕ → Bool
is_space3 c d e =
    (c == 0xE1 && d == 0x9A && e == 0x80)
    || (c == 0xE2
        && d == 0x80
        && ((leb 0x80 e && leb e 0x8A) || e == 0xA8 || e == 0xA9 || e == 0xAF))
    || (c == 0xE2 && d == 0x81 && e == 0x9F)
    || (c == 0xE3 && d == 0x80 && e == 0x80)

-- Space is taken off the front, with these tests for the characters of two and three bytes.
module _ (two : ℕ → ℕ → Bool) (three : ℕ → ℕ → ℕ → Bool) where
  unfoldable trim_front : Bytes → Bytes
  trim_front [] = []
  trim_front (c ∷ []) = if is_space c then [] else c ∷ []
  trim_front (c ∷ d ∷ []) =
      let rest = trim_front (d ∷ []) in
      if is_space c then rest else if two c d then [] else c ∷ d ∷ []
  trim_front (c ∷ d ∷ e ∷ s) =
      let one_off = trim_front (d ∷ e ∷ s) in
      let two_off = trim_front (e ∷ s) in
      let three_off = trim_front s in
      if is_space c
      then one_off
      else if two c d
      then two_off
      else if three c d e
      then three_off
      else c ∷ d ∷ e ∷ s

unfoldable pub trim_space : Bytes → Bytes
unfolding trim_front is_space is_space2 is_space3
trim_space s = reverse (
    trim_front (λ d c. is_space2 c d) (λ e d c. is_space3 c d e)
      (reverse (trim_front is_space2 is_space3 s)))
