-- ===== src/Client/Values.antt =====
-- Taking the `[]any` of `ParseMessage` apart: `res[i].(int)` and `res[i].(string)`, which panic on
-- an index out of range and on another type; and writes into a slice.
use kiv_ups.Prelude
use kiv_ups.Prelude.{ℕ, zero, suc, Bool, List, [], ◌∷◌, Option, none, some, Bytes, get_elem?}
use kiv_ups.Prelude.Int.{ℤ, pos, negsuc}
use kiv_ups.GoLib.Panic.{Outcome, returned, panic, ◌>>=◌}
use kiv_ups.Serde.Message.{Any, int, str}

abbrev pub assert_int : Option Any → Outcome ℤ
assert_int (some (int z)) = returned z
assert_int _ = panic

abbrev pub assert_str : Option Any → Outcome Bytes
assert_str (some (str s)) = returned s
assert_str _ = panic

abbrev pub int_at : List Any → ℕ → Outcome ℤ
int_at res i = assert_int (get_elem? res i)

abbrev pub str_at : List Any → ℕ → Outcome Bytes
str_at res i = assert_str (get_elem? res i)

-- `xs[i] = x`
unfoldable pub set_at {ℓ} : {A : Type ℓ} → List A → ℕ → A → Outcome (List A)
set_at [] i a = panic
set_at (x ∷ xs) zero a = returned (a ∷ xs)
set_at (x ∷ xs) (suc i) a = do ys ← set_at xs i a; returned (x ∷ ys)

-- `z == 1`
abbrev pub is_one : ℤ → Bool
is_one (pos n) = Prelude.◌==◌ n 1
is_one (negsuc n) = Prelude.false

-- The rounds of `for range z`.
abbrev pub rounds : ℤ → ℕ
rounds (pos n) = n
rounds (negsuc n) = 0
