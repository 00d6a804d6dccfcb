-- ===== src/Text/Split.antt =====
-- Laws of strings.Split.
use apicorex.Base.{
  ℕ, suc, ◌+◌, ◌<◌, ◌≡◌, refl, true, false, [], ◌∷◌, ◌++◌, arith, All, length, nat_eq, nat_eq_iff,
  Bool-cases, inl, inr,
}
use apicorex.Text.{Bytes, pieces, split}

-- No byte of the string is the separator.
abbrev pub Lacks : ℕ → Bytes → Type 0
Lacks sep s = All (λ (c : ℕ). nat_eq c sep ≡ false) s

module _ (sep : ℕ) where
  itself : nat_eq sep sep ≡ true
  itself = (nat_eq_iff sep sep).1 refl

  pieces-before :
      (p rest : Bytes) → Lacks sep p → pieces sep (p ++ (sep ∷ rest)) ≡ (p, split sep rest)
  unfolding split pieces
  pieces-before [] rest h = rw itself refl
  pieces-before (c ∷ p) rest (n, h) = rw (pieces-before p rest h) (rw n refl)

  pub split-before :
      (p rest : Bytes) → Lacks sep p → split sep (p ++ (sep ∷ rest)) ≡ p ∷ split sep rest
  unfolding split
  split-before p rest h = rw (pieces-before p rest h) refl

  pieces-plain : (p : Bytes) → Lacks sep p → pieces sep p ≡ (p, [])
  unfolding pieces
  pieces-plain [] h = refl
  pieces-plain (c ∷ p) (n, h) = rw (pieces-plain p h) (rw n refl)

  pub split-plain : (p : Bytes) → Lacks sep p → split sep p ≡ p ∷ []
  unfolding split
  split-plain p h = rw (pieces-plain p h) refl

  length-pieces :
      (s rest : Bytes)
      → length (pieces sep (s ++ (sep ∷ rest))).1
        ≡ length (pieces sep s).1 + suc (length (pieces sep rest).1)
  unfolding pieces
  length-pieces [] rest = rw itself (omega arith)
  length-pieces (c ∷ s) rest = elim (Bool-cases (nat_eq c sep)) [
    | inl hit ↦ rw hit (omega (arith, length-pieces s rest))
    | inr miss ↦ rw miss (length-pieces s rest)
  ]

  pub length-split :
      (s rest : Bytes)
      → length (split sep (s ++ (sep ∷ rest))) ≡ length (split sep s) + length (split sep rest)
  unfolding split
  length-split s rest = omega (arith, length-pieces s rest)

  pub length_pos-split : (s : Bytes) → 0 < length (split sep s)
  unfolding split
  length_pos-split s = omega arith

  pieces-append :
      (s rest : Bytes)
      → pieces sep (s ++ (sep ∷ rest)) ≡ ((pieces sep s).0, (pieces sep s).1 ++ split sep rest)
  unfolding pieces split
  pieces-append [] rest = rw itself refl
  pieces-append (c ∷ s) rest = elim (Bool-cases (nat_eq c sep)) [
    | inl hit ↦ rw hit (rw (pieces-append s rest) refl)
    | inr miss ↦ rw miss (rw (pieces-append s rest) refl)
  ]

  pub split-append :
      (s rest : Bytes) → split sep (s ++ (sep ∷ rest)) ≡ split sep s ++ split sep rest
  unfolding split
  split-append s rest = rw (pieces-append s rest) refl
