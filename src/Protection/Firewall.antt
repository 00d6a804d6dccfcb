-- ===== src/Protection/Firewall.antt =====
-- internal/protection/firewall.go and the status classes of metrics.go.
use apicorex.Base.{
  ℕ, ◌*◌, Bool, true, false, ◌≡◌, refl, ◌↔◌, List, [], ◌∷◌, ◌++◌, ltb, leb, Any, if◌then◌else◌,
  Bool-cases, inl, inr,
}
use apicorex.Text.{Bytes, lit, has_prefix}
use apicorex.Text.Laws.{has_prefix_iff}

abbrev pub blocked_prefixes : List Bytes
blocked_prefixes = lit "/internal/" ∷ lit "/admin/" ∷ lit "/_core/" ∷ []

abbrev pub max_body_size : ℕ
max_body_size = 10 * 1024 * 1024

unfoldable pub any_prefix : Bytes → List Bytes → Bool
any_prefix path [] = false
any_prefix path (p ∷ ps) = if has_prefix path p then true else any_prefix path ps

-- IsRouteBlocked
unfoldable pub is_route_blocked : Bytes → Bool
unfolding any_prefix has_prefix
is_route_blocked path = any_prefix path blocked_prefixes

-- IsBodyTooLarge
unfoldable pub is_body_too_large : ℕ → Bool
is_body_too_large size = ltb max_body_size size

pub data StatusClass : Type 0 where
  class_5xx class_4xx class_3xx class_2xx other : StatusClass

-- StatusClass of metrics.go
unfoldable pub status_class : ℕ → StatusClass
status_class code =
    if leb 500 code
    then class_5xx
    else if leb 400 code
    then class_4xx
    else if leb 300 code
    then class_3xx
    else if leb 200 code
    then class_2xx
    else other

any_prefix_iff :
    (path : Bytes) (ps : List Bytes)
    → (any_prefix path ps ≡ true) ↔ Any (λ p. (r : Bytes) × (path ≡ p ++ r)) ps
unfolding any_prefix
any_prefix_iff path [] = (λ h. cc, λ h. elim h [ ])
any_prefix_iff path (p ∷ ps) = elim (Bool-cases (has_prefix path p)) [
  | inl hit ↦ (λ h. inl ((has_prefix_iff path p).0 hit), λ w. rw hit refl)
  | inr miss ↦ (
    λ h. inr ((any_prefix_iff path ps).0 (rw miss at h)),
    elim [
      | inl w ↦ cc (miss, (has_prefix_iff path p).1 w)
      | inr w ↦ rw miss ((any_prefix_iff path ps).1 w)
    ],
  )
]

-- A path is blocked exactly when it starts with one of the reserved prefixes.
pub is_route_blocked_iff :
    (path : Bytes)
    → (is_route_blocked path ≡ true) ↔ Any (λ p. (r : Bytes) × (path ≡ p ++ r)) blocked_prefixes
is_route_blocked_iff path = unfold is_route_blocked in any_prefix_iff path blocked_prefixes
