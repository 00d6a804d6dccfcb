-- ===== src/Middleware/Cors/Granted.antt =====
-- Which origins are granted.
use apicorex.Base.{
  ◌≡◌, refl, ap, ◌∙◌, Bool, true, false, not, ◌&&◌, ◌||◌, List, [], ◌∷◌, map, arith, Bool-cases,
  inl, inr, if◌then◌else◌,
}
use apicorex.Text.{Bytes, lit, ◌==◌, is_empty, trim_space}
use apicorex.Text.Laws.{==_iff}
use apicorex.Http.{Headers, Context, respond, next, abort, get_header, first_value}
use apicorex.Middleware.Cors.{
  Cors, add_origin, add_origins, new_cors, is_allowed, grants, cors_headers, cors_step,
}

abbrev pub is_listed : Bytes → List Bytes → Bool
is_listed origin os = is_allowed origin (map trim_space os)

add_origins-allow_all :
    (os : List Bytes) (c : Cors)
    → (add_origins os c).allow_all ≡ (c.allow_all || is_listed (lit "*") os)
unfolding add_origins is_allowed
add_origins-allow_all [] c = ground arith
add_origins-allow_all (o ∷ os) c = ground (arith, add_origins-allow_all os (add_origin o c))

blank-apart : (s t : Bytes) → is_empty s ≡ true → is_empty t ≡ false → (s == t) ≡ false
blank-apart s t blank given = elim (Bool-cases (s == t)) [
  | inl hit ↦ cc (ap is_empty ((==_iff s t).0 hit))
  | inr miss ↦ miss
]

add_origins-allowed :
    (origin : Bytes) (os : List Bytes) (c : Cors)
    → is_empty origin ≡ false
    → is_allowed origin (add_origins os c).allowed
      ≡ (is_allowed origin c.allowed || is_listed origin os)
unfolding add_origins is_allowed
add_origins-allowed origin [] c given = ground arith
add_origins-allowed origin (o ∷ os) c given = elim (Bool-cases (is_empty (trim_space o))) [
  | inl blank ↦
      let apart = blank-apart (trim_space o) origin blank given in
      let kept : (add_origin o c).allowed ≡ c.allowed = rw blank refl in
      ground
        (arith, add_origins-allowed origin os (add_origin o c) given, ap (is_allowed origin) kept)
  | inr named ↦
      let longer : (add_origin o c).allowed ≡ trim_space o ∷ c.allowed = rw named refl in
      ground
        (arith, add_origins-allowed origin os (add_origin o c) given, ap (is_allowed origin) longer)
]

-- Whether a list of origins is empty.
abbrev pub is_open : List Bytes → Bool
is_open [] = true
is_open (o ∷ os) = false

-- The origin is named, and the configuration allows it.
abbrev pub is_granted : List Bytes → Bytes → Bool
is_granted os origin =
    not (is_empty origin) && (is_open os || (is_listed (lit "*") os || is_listed origin os))

new_cors-grants :
    (os : List Bytes) (origin : Bytes) → grants (new_cors os) origin ≡ is_granted os origin
unfolding new_cors is_allowed
new_cors-grants [] origin = ground arith
new_cors-grants (o ∷ os) origin =
    let none_yet : Cors = record { allow_all = false; allowed = [] } in
    elim (Bool-cases (is_empty origin)) [
      | inl unnamed ↦ rw unnamed refl
      | inr named ↦ ground (
        arith,
        add_origins-allow_all (o ∷ os) none_yet,
        add_origins-allowed origin (o ∷ os) none_yet named,
      )
    ]

cors_headers-origin :
    (cors : Cors) (h : Headers)
    → first_value (lit "Access-Control-Allow-Origin") (cors_headers cors h)
      ≡ (if grants cors (get_header (lit "Origin") h) then get_header (lit "Origin") h else [])
unfolding cors_headers first_value ◌==◌
cors_headers-origin cors h = elim (Bool-cases (grants cors (get_header (lit "Origin") h))) [
  | inl granted ↦ rw granted refl
  | inr denied ↦ rw denied refl
]

-- A preflight is always answered with 204, and any other request always goes on. The headers that
-- allow an origin are set exactly for a request that names one, if the configured list is empty or
-- has the star or has the origin, spaces around an entry aside; and then they allow the origin that
-- the request named.
pub cors_step-granted :
    (os : List Bytes) (c : Context)
    → ((cors_step (new_cors os) c).1
        ≡ (if c.request.method == lit "OPTIONS" then abort (respond 204 []) else next c))
      × (first_value (lit "Access-Control-Allow-Origin") (cors_step (new_cors os) c).0 ≡ (
          if is_granted os (get_header (lit "Origin") c.request.headers)
          then get_header (lit "Origin") c.request.headers
          else []))
unfolding cors_step
cors_step-granted os c =
    let origin = get_header (lit "Origin") c.request.headers in
    (
      refl,
      cors_headers-origin (new_cors os) c.request.headers
          ∙ ap (λ b. if b then origin else []) (new_cors-grants os origin),
    )
