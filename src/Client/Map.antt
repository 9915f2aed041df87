-- ===== src/Client/Map.antt =====
-- Go's maps with string and with `int` keys, as association lists without repeated keys.
use kiv_ups.Prelude.{
  ◌≡◌, refl, Bool, false, List, [], ◌∷◌, Option, none, some, arith, if◌then◌else◌, Bytes, same,
  same_iff, ◌==◌,
}
use kiv_ups.Prelude.Int.{ℤ, pos, negsuc}

abbrev pub Map {ℓ} : Type ℓ → Type ℓ
Map V = List (Bytes × V)

module _ {ℓ} {V : Type ℓ} where
  -- `v, exists := m[k]`
  unfoldable pub lookup : Bytes → Map V → Option V
  lookup k [] = none
  lookup k ((j, v) ∷ m) = if same j k then some v else lookup k m

  -- `m[k] = v`
  unfoldable pub insert : Bytes → V → Map V → Map V
  insert k v [] = (k, v) ∷ []
  insert k v ((j, w) ∷ m) = if same j k then (j, v) ∷ m else (j, w) ∷ insert k v m

  -- `delete(m, k)`
  unfoldable pub delete : Bytes → Map V → Map V
  delete k [] = []
  delete k ((j, w) ∷ m) = let rest = delete k m in if same j k then rest else (j, w) ∷ rest

  -- `for k, v := range m { m[k] = f(k, v) }`
  unfoldable pub map_values : (Bytes → V → V) → Map V → Map V
  map_values f [] = []
  map_values f ((j, w) ∷ m) = (j, f j w) ∷ map_values f m

  pub lookup-insert :
      (k j : Bytes) (v : V) (m : Map V)
      → lookup j (insert k v m) ≡ (if same k j then some v else lookup j m)
  unfolding lookup insert
  lookup-insert k j v [] = refl
  lookup-insert k j v ((key, old) ∷ rest) =
      ground (arith, lookup-insert k j v rest, same_iff key k, same_iff key j, same_iff k j)

  pub lookup-delete :
      (k j : Bytes) (m : Map V) → lookup j (delete k m) ≡ (if same k j then none else lookup j m)
  unfolding lookup delete
  lookup-delete k j [] = ground arith
  lookup-delete k j ((i, w) ∷ m) =
      ground (arith, same_iff k j, same_iff i k, same_iff i j, lookup-delete k j m)

  pub lookup-map_values :
      (f : Bytes → V → V) (j : Bytes) (m : Map V) {v : V}
      → lookup j m ≡ some v
      → lookup j (map_values f m) ≡ some (f j v)
  unfolding lookup map_values
  lookup-map_values f j [] h = cc
  lookup-map_values f j ((i, w) ∷ m) {v} h =
      ground (arith, same_iff i j, lookup-map_values f j m {v = v})

abbrev pub IntMap {ℓ} : Type ℓ → Type ℓ
IntMap V = List (ℤ × V)

unfoldable pub eq_ℤ : ℤ → ℤ → Bool
eq_ℤ (pos n) (pos m) = n == m
eq_ℤ (negsuc n) (negsuc m) = n == m
eq_ℤ _ _ = false

module _ {ℓ} {V : Type ℓ} where
  unfoldable pub lookup_int : ℤ → IntMap V → Option V
  unfolding eq_ℤ
  lookup_int k [] = none
  lookup_int k ((j, v) ∷ m) = if eq_ℤ j k then some v else lookup_int k m

  unfoldable pub insert_int : ℤ → V → IntMap V → IntMap V
  unfolding eq_ℤ
  insert_int k v [] = (k, v) ∷ []
  insert_int k v ((j, w) ∷ m) = if eq_ℤ j k then (j, v) ∷ m else (j, w) ∷ insert_int k v m
