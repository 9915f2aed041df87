-- ===== src/GoLib/Panic.antt =====
-- Code that can panic: an index or a slice out of range, or a failed type assertion.
use kiv_ups.Prelude.{
  ℕ, ◌≤◌, ◌<◌, ◌≡◌, refl, leb, if◌then◌else◌, Bytes, length, take, drop, ◌+◌, ◌-◌, arith, List,
  none, some, get_elem?,
}
use kiv_ups.Prelude.Int.{ℤ, pos, negsuc}

pub data Outcome {ℓ} (A : Type ℓ) : Type ℓ where
  returned : A → Outcome A
  panic : Outcome A

infixl 5 ◌>>=◌
abbrev pub ◌>>=◌ {ℓ κ} : {A : Type ℓ} {B : Type κ} → Outcome A → (A → Outcome B) → Outcome B
returned a >>= f = f a
panic >>= f = panic

-- `b[low:]`
unfoldable pub slice_from : Bytes → ℤ → Outcome Bytes
slice_from b (pos low) = if leb low (length b) then returned (drop low b) else panic
slice_from b (negsuc low) = panic

-- `b[low:high]` of a slice whose capacity is its length.
unfoldable pub slice_range : Bytes → ℕ → ℕ → Outcome Bytes
slice_range b low high =
    if leb high (length b)
    then if leb low high then returned (take (high - low) (drop low b)) else panic
    else panic

-- `xs[i]` at an index that is no negative number.
unfoldable pub index {ℓ} : {A : Type ℓ} → List A → ℕ → Outcome A
index xs i = elim (get_elem? xs i) [ none ↦ panic | some x ↦ returned x ]

pub slice_from_lem :
    (b : Bytes) (low : ℕ) → low ≤ length b → slice_from b (pos low) ≡ returned (drop low b)
unfolding slice_from
slice_from_lem b low h = ground arith

pub slice_from_beyond : (b : Bytes) (low : ℕ) → length b < low → slice_from b (pos low) ≡ panic
unfolding slice_from
slice_from_beyond b low h = ground arith

-- The `width` bytes behind the first `low`.
pub slice_range_lem :
    (b : Bytes) (low width : ℕ)
    → low + width ≤ length b
    → slice_range b low (low + width) ≡ returned (take width (drop low b))
unfolding slice_range
slice_range_lem b low width h = let e : low + width - low ≡ width = omega arith in ground (arith, e)

-- The code runs to its end.
abbrev pub Returns {ℓ} : {A : Type ℓ} → Outcome A → Type 0
Returns (returned a) = Unit
Returns panic = ⊥

-- A sequence returns if its first part does, and the rest on what that gives.
pub Returns->>= {ℓ κ} :
    {A : Type ℓ} {B : Type κ} (m : Outcome A) (f : A → Outcome B)
    → Returns m
    → ((a : A) → m ≡ returned a → Returns (f a))
    → Returns (m >>= f)
Returns->>= (returned a) f h k = k a refl
Returns->>= panic f h k = h
