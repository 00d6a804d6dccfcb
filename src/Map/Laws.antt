-- ===== src/Map/Laws.antt =====
-- Laws of the maps, in the form that rewrites a lookup in an updated map.
use apicorex.Base.{◌≡◌, refl, none, some, [], ◌∷◌, arith, if◌then◌else◌}
use apicorex.Text.{Bytes, ◌==◌}
use apicorex.Text.Laws.{==_iff}
use apicorex.Map.{Map, lookup, delete, insert, get_or}

module _ {ℓ} {V : Type ℓ} where
  pub lookup-delete :
      (k j : Bytes) (m : Map V) → lookup j (delete k m) ≡ (if k == j then none else lookup j m)
  unfolding lookup delete
  lookup-delete k j [] = ground arith
  lookup-delete k j ((i, v) ∷ m) =
      ground (arith, lookup-delete k j m, ==_iff i k, ==_iff i j, ==_iff k j)

  pub lookup-insert :
      (k j : Bytes) (v : V) (m : Map V)
      → lookup j (insert k v m) ≡ (if k == j then some v else lookup j m)
  unfolding lookup insert
  lookup-insert k j v m = ground (arith, lookup-delete k j m)

  pub get_or-insert :
      (z : V) (k j : Bytes) (v : V) (m : Map V)
      → get_or z j (insert k v m) ≡ (if k == j then v else get_or z j m)
  unfolding get_or
  get_or-insert z k j v m = ground (arith, lookup-insert k j v m)

  pub get_or-delete :
      (z : V) (k j : Bytes) (m : Map V)
      → get_or z j (delete k m) ≡ (if k == j then z else get_or z j m)
  unfolding get_or
  get_or-delete z k j m = ground (arith, lookup-delete k j m)

  pub get_or-empty : (z : V) (k : Bytes) → get_or z k [] ≡ z
  unfolding get_or lookup
  get_or-empty z k = refl

pub ruleset map_laws = (lookup-delete, lookup-insert, get_or-insert, get_or-delete)
