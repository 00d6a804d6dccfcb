-- ===== src/Map/Unique.antt =====
-- Maps that hold each key once, as every Go map does.
use apicorex.Base.{◌≡◌, none, some, [], ◌∷◌, arith, In, inl, inr, Bool-cases}
use apicorex.Text.{Bytes, ◌==◌}
use apicorex.Text.Laws.{==_iff, ==_refl}
use apicorex.Map.{Map, lookup, delete, insert}
use apicorex.Map.Laws.{lookup-delete}

module _ {V : Type 0} where
  abbrev pub IsUnique : Map V → Type 0
  IsUnique [] = Unit
  IsUnique ((k, v) ∷ m) = (lookup k m ≡ none) × IsUnique m

  pub delete-IsUnique : (k : Bytes) (m : Map V) → IsUnique m → IsUnique (delete k m)
  unfolding delete
  delete-IsUnique k [] u = tt
  delete-IsUnique k ((j, v) ∷ m) (fresh, u) =
      ground (arith, lookup-delete k j m, ==_iff k j, delete-IsUnique k m u)

  pub insert-IsUnique : (k : Bytes) (v : V) (m : Map V) → IsUnique m → IsUnique (insert k v m)
  unfolding insert
  insert-IsUnique k v m u = (simp (lookup-delete, ==_refl), delete-IsUnique k m u)

  pub lookup-eq_of_In :
      (k : Bytes) (v : V) (m : Map V) → IsUnique m → In (k, v) m → lookup k m ≡ some v
  unfolding lookup
  lookup-eq_of_In k v [] u h = elim h [ ]
  lookup-eq_of_In k v ((j, w) ∷ m) (fresh, u) (inl e) = ground (arith, ==_iff j k)
  lookup-eq_of_In k v ((j, w) ∷ m) (fresh, u) (inr h) =
      ground (arith, ==_iff j k, lookup-eq_of_In k v m u h)

  pub In-of_lookup : (k : Bytes) (v : V) (m : Map V) → lookup k m ≡ some v → In (k, v) m
  unfolding lookup
  In-of_lookup k v [] h = cc
  In-of_lookup k v ((j, w) ∷ m) h = elim (Bool-cases (j == k)) [
    | inl same ↦ inl (ground (arith, ==_iff j k))
    | inr apart ↦ inr (In-of_lookup k v m (ground arith))
  ]
