-- ===== src/Map/Entries.antt =====
-- What holds of every entry of a map.
use apicorex.Base.{◌≡◌, some, [], ◌∷◌, arith, Bool-cases, inl, inr}
use apicorex.Text.{Bytes, ◌==◌}
use apicorex.Text.Laws.{==_iff}
use apicorex.Map.{Map, lookup, delete, insert}

module _ {V : Type 0} (P : Bytes → V → Type 0) where
  abbrev pub AllEntries : Map V → Type 0
  AllEntries [] = Unit
  AllEntries ((k, v) ∷ m) = P k v × AllEntries m

  pub AllEntries-lookup :
      (k : Bytes) (v : V) (m : Map V) → AllEntries m → lookup k m ≡ some v → P k v
  unfolding lookup
  AllEntries-lookup k v [] a h = cc
  AllEntries-lookup k v ((j, w) ∷ m) (p, a) h = elim (Bool-cases (j == k)) [
    | inl same ↦
        let e : j ≡ k = (==_iff j k).0 same in let f : w ≡ v = ground arith in rw (← e) (rw (← f) p)
    | inr apart ↦ AllEntries-lookup k v m a (ground arith)
  ]

  pub AllEntries-delete : (k : Bytes) (m : Map V) → AllEntries m → AllEntries (delete k m)
  unfolding delete
  AllEntries-delete k [] a = tt
  AllEntries-delete k ((j, w) ∷ m) (p, a) = elim (Bool-cases (j == k)) [
    | inl same ↦ rw same (AllEntries-delete k m a)
    | inr apart ↦ rw apart (p, AllEntries-delete k m a)
  ]

  pub AllEntries-insert :
      (k : Bytes) (v : V) (m : Map V) → P k v → AllEntries m → AllEntries (insert k v m)
  unfolding insert
  AllEntries-insert k v m p a = (p, AllEntries-delete k m a)
