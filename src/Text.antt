-- ===== src/Text.antt =====
-- Go strings as lists of bytes, and the functions of the standard package `strings` that the
-- gateway calls. Case mapping and trimming of white space are those of ASCII text.
pub mod Laws
pub mod Split
pub mod Path
use Prim.Native.Char.{code}
use apicorex.Base.{
  ℕ, ◌+◌, ◌-◌, String, Bool, true, false, ◌&&◌, ◌||◌, Option, none, some, List, [], ◌∷◌, ◌++◌, map,
  reverse, leb, nat_eq, if◌then◌else◌,
}

abbrev pub Bytes : Type 0
Bytes = List ℕ

-- A literal of the source. All of them that are modelled are ASCII.
abbrev pub lit : String → Bytes
lit String.[] = []
lit (String.◌∷◌ c s) = code c ∷ lit s

infix 50 ◌==◌
unfoldable pub ◌==◌ : Bytes → Bytes → Bool
[] == [] = true
[] == (_ ∷ _) = false
(_ ∷ _) == [] = false
(a ∷ s) == (b ∷ t) = nat_eq a b && s == t

-- s == ""
abbrev pub is_empty : Bytes → Bool
is_empty [] = true
is_empty (_ ∷ _) = false

-- strings.HasPrefix(s, prefix)
unfoldable pub has_prefix : Bytes → Bytes → Bool
has_prefix s [] = true
has_prefix [] (_ ∷ _) = false
has_prefix (a ∷ s) (b ∷ p) = nat_eq a b && has_prefix s p

-- strings.TrimPrefix(s, prefix)
drop_prefix : Bytes → Bytes → Option Bytes
drop_prefix s [] = some s
drop_prefix [] (_ ∷ _) = none
drop_prefix (a ∷ s) (b ∷ p) = let rest = drop_prefix s p in if nat_eq a b then rest else none

unfoldable pub trim_prefix : Bytes → Bytes → Bytes
unfolding drop_prefix
trim_prefix s p = elim (drop_prefix s p) [ none ↦ s | some r ↦ r ]

-- strings.TrimSuffix(s, suffix): the suffix is cut where exactly it is left over.
unfoldable pub trim_suffix : Bytes → Bytes → Bytes
trim_suffix [] p = []
trim_suffix (a ∷ s) p = if (a ∷ s) == p then [] else a ∷ trim_suffix s p

-- strings.Contains(s, substr)
unfoldable pub contains : Bytes → Bytes → Bool
unfolding has_prefix
contains [] p = has_prefix [] p
contains (a ∷ s) p = has_prefix (a ∷ s) p || contains s p

-- strings.Cut(s, sep) for a separator of one byte
unfoldable pub cut : ℕ → Bytes → Option (Bytes × Bytes)
cut c [] = none
cut c (a ∷ s) =
    let rest = cut c s in
    if nat_eq a c then some ([], s) else elim rest [ none ↦ none | some (l, r) ↦ some (a ∷ l, r) ]

-- strings.Split(s, sep) for a separator of one byte: the first piece, and those after it.
abbrev split_step : ℕ → ℕ → Bytes × List Bytes → Bytes × List Bytes
split_step c a p = if nat_eq a c then ([], p.0 ∷ p.1) else (a ∷ p.0, p.1)

pieces : ℕ → Bytes → Bytes × List Bytes
pieces c [] = ([], [])
pieces c (a ∷ s) = split_step c a (pieces c s)

unfoldable pub split : ℕ → Bytes → List Bytes
unfolding pieces
split c s = (pieces c s).0 ∷ (pieces c s).1

-- strings.Trim(s, cutset), strings.TrimLeft and strings.TrimRight for a predicate on bytes
trim_left : (ℕ → Bool) → Bytes → Bytes
trim_left p [] = []
trim_left p (a ∷ s) = if p a then trim_left p s else a ∷ s

pub trim_right : (ℕ → Bool) → Bytes → Bytes
unfolding trim_left
trim_right p s = reverse (trim_left p (reverse s))

unfoldable pub trim : (ℕ → Bool) → Bytes → Bytes
unfolding trim_right trim_left
trim p s = trim_right p (trim_left p s)

abbrev pub is_slash : ℕ → Bool
is_slash c = nat_eq c b'/'

-- strings.TrimSpace over ASCII
abbrev is_space : ℕ → Bool
is_space c = nat_eq c 32 || (leb 9 c && leb c 13)

unfoldable pub trim_space : Bytes → Bytes
unfolding trim
trim_space s = trim is_space s

unfoldable pub upper : ℕ → ℕ
upper c = if leb b'a' c && leb c b'z' then c - 32 else c

unfoldable pub lower : ℕ → ℕ
lower c = if leb b'A' c && leb c b'Z' then c + 32 else c

-- strings.ToUpper and strings.ToLower over ASCII
unfoldable pub to_upper : Bytes → Bytes
unfolding upper
to_upper s = map upper s

unfoldable pub to_lower : Bytes → Bytes
unfolding lower
to_lower s = map lower s

-- strings.Join(values, sep)
unfoldable pub join : Bytes → List Bytes → Bytes
join sep [] = []
join sep (s ∷ []) = s
join sep (s ∷ t ∷ r) = s ++ (sep ++ join sep (t ∷ r))
