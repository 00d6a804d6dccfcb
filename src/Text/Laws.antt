-- ===== src/Text/Laws.antt =====
-- Laws of the functions on strings.
use apicorex.Base.{
  ◌≡◌, ◌↔◌, refl, true, [], ◌∷◌, ◌++◌, arith, length, Bool-cases, inl, inr, ap, ◌≢◌, false, some,
  nat_eq, Option-cases, nat_eq_iff,
}
use apicorex.Text.{Bytes, ◌==◌, has_prefix, drop_prefix, trim_prefix}

eq_sound : (s t : Bytes) → (s == t) ≡ true → s ≡ t
unfolding ◌==◌
eq_sound [] [] h = refl
eq_sound [] (b ∷ t) h = cc
eq_sound (a ∷ s) [] h = cc
eq_sound (a ∷ s) (b ∷ t) h = ground (arith, eq_sound s t)

pub ==_refl : (s : Bytes) → (s == s) ≡ true
unfolding ◌==◌
==_refl [] = refl
==_refl (a ∷ s) = ground (arith, ==_refl s)

pub ==_iff : (s t : Bytes) → ((s == t) ≡ true) ↔ (s ≡ t)
==_iff s t = (eq_sound s t, λ e. rw (← e) (==_refl s))

has_prefix_split : (s p : Bytes) → has_prefix s p ≡ true → (r : Bytes) × (s ≡ p ++ r)
unfolding has_prefix
has_prefix_split s [] h = (s, refl)
has_prefix_split [] (b ∷ p) h = cc
has_prefix_split (a ∷ s) (b ∷ p) h =
    let (r, e) = has_prefix_split s p (ground arith) in (r, ground (arith, nat_eq_iff a b))

pub has_prefix-append : (p r : Bytes) → has_prefix (p ++ r) p ≡ true
unfolding has_prefix
has_prefix-append [] r = refl
has_prefix-append (a ∷ p) r = ground (arith, has_prefix-append p r)

-- A string has a prefix exactly when it is the prefix with something behind it.
pub has_prefix_iff : (s p : Bytes) → (has_prefix s p ≡ true) ↔ ((r : Bytes) × (s ≡ p ++ r))
has_prefix_iff s p = (has_prefix_split s p, λ w. rw w.1 (has_prefix-append p w.0))

-- Strings of different lengths differ.
pub ==-eq_of_length_ne : (s t : Bytes) → length s ≢ length t → (s == t) ≡ false
==-eq_of_length_ne s t h = elim (Bool-cases (s == t)) [
  | inl same ↦ absurd (h (ap length ((==_iff s t).0 same)))
  | inr apart ↦ apart
]

drop_prefix-append : (p s : Bytes) → drop_prefix (p ++ s) p ≡ some s
unfolding drop_prefix
drop_prefix-append [] s = refl
drop_prefix-append (a ∷ p) s = rw ((nat_eq_iff a a).1 refl) (drop_prefix-append p s)

pub trim_prefix-append : (p s : Bytes) → trim_prefix (p ++ s) p ≡ s
unfolding trim_prefix
trim_prefix-append p s = rw (drop_prefix-append p s, trim_prefix) refl

drop_prefix-some : (s p r : Bytes) → drop_prefix s p ≡ some r → s ≡ p ++ r
unfolding drop_prefix
drop_prefix-some s [] r h = cc
drop_prefix-some [] (b ∷ p) r h = cc
drop_prefix-some (a ∷ s) (b ∷ p) r h = elim (Bool-cases (nat_eq a b)) [
  | inl same ↦ let rest = drop_prefix-some s p r (rw same at h) in ground (arith, nat_eq_iff a b)
  | inr apart ↦ cc (rw apart at h)
]

-- A string that is changed by cutting a prefix had the prefix.
pub trim_prefix-changed : (s p : Bytes) → (trim_prefix s p == s) ≡ false → s ≡ p ++ trim_prefix s p
unfolding trim_prefix
trim_prefix-changed s p h = elim (Option-cases (drop_prefix s p)) [
  | inl absent ↦ cc (rw (absent, trim_prefix) at h, ==_refl s)
  | inr (r, found) ↦ rw (found, trim_prefix) (drop_prefix-some s p r found)
]
