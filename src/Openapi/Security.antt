-- ===== src/Openapi/Security.antt =====
-- The union of two lists of security requirements.
use apicorex.Base.{
  ◌≡◌, refl, ap, ◌∙◌, Bool, true, false, ◌||◌, none, some, List, [], ◌∷◌, ◌++◌, arith, Bool-cases,
  Option-cases, inl, inr, if◌then◌else◌,
}
use apicorex.Text.{Bytes, ◌==◌}
use apicorex.Text.Laws.{==_iff, ==_refl}
use apicorex.Openapi.Document.{Json}
use apicorex.Openapi.{Codec, seen, unseen, merge_security_requirements}

-- No key stands in the list twice.
abbrev pub IsDistinct : List Bytes → Type 0
IsDistinct [] = Unit
IsDistinct (k ∷ ks) = (seen k ks ≡ false) × IsDistinct ks

seen-append :
    (key : Bytes) (ks js : List Bytes) → seen key (ks ++ js) ≡ (seen key ks || seen key js)
unfolding seen
seen-append key [] js = refl
seen-append key (k ∷ ks) js = ground (arith, seen-append key ks js)

seen_itself :
    (k : Bytes) (ks : List Bytes) (b : Bool) → (if seen k (k ∷ ks) then false else b) ≡ false
unfolding seen
seen_itself k ks b = ground (arith, ==_refl k)

old_or_same :
    (key k : Bytes) (ks : List Bytes) (b : Bool)
    → seen k ks ≡ true
    → (if seen key ks then false else b) ≡ (if seen key ks then false else (k == key || b))
old_or_same key k ks b old = elim (Bool-cases (k == key)) [
  | inl hit ↦ let same = ap (λ x. seen x ks) ((==_iff k key).0 hit) in ground arith
  | inr miss ↦ rw miss refl
]

module _ (codec : Codec) where
  -- The texts of the requirements, of those that have one.
  unfoldable pub keys : List Json → List Bytes
  keys [] = []
  keys (req ∷ reqs) = elim (codec.marshal req) [ none ↦ keys reqs | some k ↦ k ∷ keys reqs ]

  keys-append : (xs ys : List Json) → keys (xs ++ ys) ≡ keys xs ++ keys ys
  unfolding keys
  keys-append [] ys = refl
  keys-append (x ∷ xs) ys = elim (Option-cases (codec.marshal x)) [
    | inl bad ↦ rw (bad, keys) (keys-append xs ys)
    | inr (k, good) ↦ rw (good, keys) (ap (λ ks. k ∷ ks) (keys-append xs ys))
  ]

  -- Nothing that was seen before is appended, and everything else once.
  seen-unseen :
      (key : Bytes) (reqs : List Json) (ks : List Bytes)
      → seen key (keys (unseen codec reqs ks))
        ≡ (if seen key ks then false else seen key (keys reqs))
  unfolding unseen keys seen
  seen-unseen key [] ks = ground arith
  seen-unseen key (req ∷ reqs) ks = elim (Option-cases (codec.marshal req)) [
    | inl bad ↦ rw (bad, keys, unseen) (seen-unseen key reqs ks)
    | inr (k, good) ↦ elim (Bool-cases (seen k ks)) [
      | inl old ↦
          rw (good, keys, unseen)
            (rw old (seen-unseen key reqs ks ∙ old_or_same key k ks (seen key (keys reqs)) old))
      | inr new ↦
          rw (good, keys, unseen)
            (rw (new, good, keys) (ground (arith, seen-unseen key reqs (k ∷ ks), ==_iff k key)))
    ]
  ]

  unseen-IsDistinct :
      (reqs : List Json) (ks : List Bytes) → IsDistinct (keys (unseen codec reqs ks))
  unfolding unseen keys
  unseen-IsDistinct [] ks = tt
  unseen-IsDistinct (req ∷ reqs) ks = elim (Option-cases (codec.marshal req)) [
    | inl bad ↦ rw (bad, keys, unseen) (unseen-IsDistinct reqs ks)
    | inr (k, good) ↦ elim (Bool-cases (seen k ks)) [
      | inl old ↦ rw (good, keys, unseen) (rw old (unseen-IsDistinct reqs ks))
      | inr new ↦
          rw (good, keys, unseen)
            (rw (new, good, keys)
              (seen-unseen k reqs (k ∷ ks) ∙ seen_itself k ks _, unseen-IsDistinct reqs (k ∷ ks)))
    ]
  ]

  -- The union of two lists of security requirements has a requirement exactly if one of the lists
  -- has it, and has none twice; requirements are compared by the text that the encoder gives them.
  pub merge_security_requirements-keys :
      (base add : List Json)
      → IsDistinct (keys (merge_security_requirements codec base add))
        × ((key : Bytes)
            → seen key (keys (merge_security_requirements codec base add))
              ≡ (seen key (keys base) || seen key (keys add)))
  unfolding merge_security_requirements seen
  merge_security_requirements-keys base add = (
    unseen-IsDistinct (base ++ add) [],
    λ key.
        seen-unseen key (base ++ add) []
        ∙ ap (seen key) (keys-append base add)
        ∙ seen-append key (keys base) (keys add),
  )
