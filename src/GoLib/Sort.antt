-- ===== src/GoLib/Sort.antt =====
-- `sort.Strings` and `sort.Ints`: a sorted list is determined by its elements, so insertion sort gives
-- what they give.
use mathlib.Core.List.{Permᴰ}
use kiv_ups.Prelude.{
  ◌≡◌, refl, ◌∙◌, Bool, true, false, List, [], ◌∷◌, if◌then◌else◌, ltb, leb, ◌==◌, arith, Bytes,
}
use kiv_ups.Prelude.Int.{ℤ, pos, negsuc}

-- A total order, given by its test.
pub record Order {ℓ} (A : Type ℓ) : Type ℓ where
  pub le : A → A → Bool
  pub total : (a b : A) → le a b ≡ false → le b a ≡ true
  pub antisym : (a b : A) → le a b ≡ true → le b a ≡ true → a ≡ b
  pub trans : (a b c : A) → le a b ≡ true → le b c ≡ true → le a c ≡ true

module _ {ℓ} {A : Type ℓ} (o : Order A) where
  open o use {le, total, antisym, trans}

  unfoldable insert_sorted : A → List A → List A
  insert_sorted a [] = a ∷ []
  insert_sorted a (x ∷ xs) = if le a x then a ∷ x ∷ xs else x ∷ insert_sorted a xs

  unfoldable pub sort : List A → List A
  unfolding insert_sorted
  sort [] = []
  sort (x ∷ xs) = insert_sorted x (sort xs)

  insert_sorted_swap :
      (a b : A) (xs : List A)
      → insert_sorted a (insert_sorted b xs) ≡ insert_sorted b (insert_sorted a xs)
  unfolding insert_sorted
  insert_sorted_swap a b [] = ground (arith, total a b, total b a, antisym a b)
  insert_sorted_swap a b (x ∷ xs) = ground (
    arith,
    total a b,
    total b a,
    antisym a b,
    trans a b x,
    trans b a x,
    total a x,
    total b x,
    insert_sorted_swap a b xs,
  )

  -- The order in which the elements come makes no difference.
  pub sort-Permᴰ : {xs ys : List A} → Permᴰ xs ys → sort xs ≡ sort ys
  unfolding sort
  sort-Permᴰ Permᴰ.nil = refl
  sort-Permᴰ (Permᴰ.cons e p) = rw (e, sort-Permᴰ p) refl
  sort-Permᴰ (Permᴰ.swap {l = xs} e k) = rw (e, k) (insert_sorted_swap _ _ (sort xs))
  sort-Permᴰ (Permᴰ.trans p q) = sort-Permᴰ p ∙ sort-Permᴰ q

-- Strings are compared byte by byte.
unfoldable pub leb_bytes : Bytes → Bytes → Bool
leb_bytes [] t = true
leb_bytes (c ∷ s) [] = false
leb_bytes (c ∷ s) (d ∷ t) = if ltb c d then true else if c == d then leb_bytes s t else false

pub leb_bytes_total : (s t : Bytes) → leb_bytes s t ≡ false → leb_bytes t s ≡ true
unfolding leb_bytes
leb_bytes_total [] t h = cc
leb_bytes_total (c ∷ s) [] h = refl
leb_bytes_total (c ∷ s) (d ∷ t) h = ground (arith, leb_bytes_total s t)

pub leb_bytes_antisym : (s t : Bytes) → leb_bytes s t ≡ true → leb_bytes t s ≡ true → s ≡ t
unfolding leb_bytes
leb_bytes_antisym [] [] h k = refl
leb_bytes_antisym [] (d ∷ t) h k = cc
leb_bytes_antisym (c ∷ s) [] h k = cc
leb_bytes_antisym (c ∷ s) (d ∷ t) h k = ground (arith, leb_bytes_antisym s t)

pub leb_bytes_trans :
    (s t u : Bytes) → leb_bytes s t ≡ true → leb_bytes t u ≡ true → leb_bytes s u ≡ true
unfolding leb_bytes
leb_bytes_trans [] t u h k = refl
leb_bytes_trans (c ∷ s) [] u h k = cc
leb_bytes_trans (c ∷ s) (d ∷ t) [] h k = cc
leb_bytes_trans (c ∷ s) (d ∷ t) (e ∷ u) h k = ground (arith, leb_bytes_trans s t u)

abbrev pub string_order : Order Bytes
string_order = record {
  le = leb_bytes;
  total = leb_bytes_total;
  antisym = leb_bytes_antisym;
  trans = leb_bytes_trans;
}

unfoldable pub leb_ℤ : ℤ → ℤ → Bool
leb_ℤ (pos a) (pos b) = leb a b
leb_ℤ (pos a) (negsuc b) = false
leb_ℤ (negsuc a) (pos b) = true
leb_ℤ (negsuc a) (negsuc b) = leb b a

pub leb_ℤ_total : (a b : ℤ) → leb_ℤ a b ≡ false → leb_ℤ b a ≡ true
unfolding leb_ℤ
leb_ℤ_total (pos a) (pos b) h = ground arith
leb_ℤ_total (pos a) (negsuc b) h = refl
leb_ℤ_total (negsuc a) (pos b) h = ground arith
leb_ℤ_total (negsuc a) (negsuc b) h = ground arith

pub leb_ℤ_antisym : (a b : ℤ) → leb_ℤ a b ≡ true → leb_ℤ b a ≡ true → a ≡ b
unfolding leb_ℤ
leb_ℤ_antisym (pos a) (pos b) h k = ground arith
leb_ℤ_antisym (pos a) (negsuc b) h k = cc
leb_ℤ_antisym (negsuc a) (pos b) h k = cc
leb_ℤ_antisym (negsuc a) (negsuc b) h k = ground arith

pub leb_ℤ_trans : (a b c : ℤ) → leb_ℤ a b ≡ true → leb_ℤ b c ≡ true → leb_ℤ a c ≡ true
unfolding leb_ℤ
leb_ℤ_trans (pos a) (pos b) (pos c) h k = ground arith
leb_ℤ_trans (pos a) (pos b) (negsuc c) h k = cc
leb_ℤ_trans (pos a) (negsuc b) c h k = cc
leb_ℤ_trans (negsuc a) (pos b) (pos c) h k = refl
leb_ℤ_trans (negsuc a) (pos b) (negsuc c) h k = cc
leb_ℤ_trans (negsuc a) (negsuc b) (pos c) h k = refl
leb_ℤ_trans (negsuc a) (negsuc b) (negsuc c) h k = ground arith

abbrev pub int_order : Order ℤ
int_order = record { le = leb_ℤ; total = leb_ℤ_total; antisym = leb_ℤ_antisym; trans = leb_ℤ_trans }
