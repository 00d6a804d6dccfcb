-- ===== src/Map.antt =====
-- Go maps with string keys, as association lists that hold a key once. A `range` over a map visits
-- it in an order that Go leaves open: here it is the order of the list, about which nothing is
-- assumed.
pub mod Laws
pub mod Unique
pub mod Entries
use apicorex.Base.{Bool, Option, none, some, List, [], ◌∷◌, if◌then◌else◌}
use apicorex.Text.{Bytes, ◌==◌}

abbrev pub Map {ℓ} : Type ℓ → Type ℓ
Map V = List (Bytes × V)

module _ {ℓ} {V : Type ℓ} where
  -- v, ok := m[k]
  unfoldable pub lookup : Bytes → Map V → Option V
  lookup k [] = none
  lookup k ((j, v) ∷ m) = if j == k then some v else lookup k m

  -- delete(m, k)
  unfoldable pub delete : Bytes → Map V → Map V
  delete k [] = []
  delete k ((j, v) ∷ m) = let rest = delete k m in if j == k then rest else (j, v) ∷ rest

  -- m[k] = v
  unfoldable pub insert : Bytes → V → Map V → Map V
  unfolding delete
  insert k v m = (k, v) ∷ delete k m

  -- m[k], with the zero value of the element type for a missing key
  unfoldable pub get_or : V → Bytes → Map V → V
  get_or zero k m = elim (lookup k m) [ none ↦ zero | some v ↦ v ]
