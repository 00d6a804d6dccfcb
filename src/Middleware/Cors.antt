-- ===== src/Middleware/Cors.antt =====
-- internal/middleware/cors.go. A list of allowed origins is made once; the response headers are
-- those that the middleware sets, in the source's order.
pub mod Granted
use apicorex.Base.{
  ℕ, Bool, true, false, not, ◌&&◌, ◌||◌, Option, none, some, List, [], ◌∷◌, if◌then◌else◌,
}
use apicorex.Text.{Bytes, lit, ◌==◌, is_empty, trim_space, split}
use apicorex.Http.{Headers, Request, Context, Response, respond, Flow, next, abort, get_header}

-- The configuration that CORS computes: whether any origin goes, and the set of those that do.
pub record Cors : Type 0 where
  pub allow_all : Bool
  pub allowed : List Bytes

-- The body of the loop over the allowed origins.
abbrev pub add_origin : Bytes → Cors → Cors
add_origin o c =
    let t = trim_space o in
    record {
      allow_all = c.allow_all || t == lit "*";
      allowed = if is_empty t then c.allowed else t ∷ c.allowed;
    }

unfoldable pub add_origins : List Bytes → Cors → Cors
add_origins [] c = c
add_origins (o ∷ os) c = add_origins os (add_origin o c)

-- CORS, up to the handler that it returns
unfoldable pub new_cors : List Bytes → Cors
new_cors [] = record { allow_all = true; allowed = [] }
new_cors (o ∷ os) = add_origins (o ∷ os) (record { allow_all = false; allowed = [] })

-- allow[origin]
unfoldable pub is_allowed : Bytes → List Bytes → Bool
is_allowed origin [] = false
is_allowed origin (o ∷ os) = o == origin || is_allowed origin os

-- The test before the headers are set.
abbrev pub grants : Cors → Bytes → Bool
grants cors origin = not (is_empty origin) && (cors.allow_all || is_allowed origin cors.allowed)

abbrev pub allowed_headers : Bytes → Bytes
allowed_headers requested =
    if is_empty requested then lit "Authorization, Content-Type" else requested

-- The headers that the handler sets on the response.
unfoldable pub cors_headers : Cors → Headers → Headers
cors_headers cors h =
    let origin = get_header (lit "Origin") h in
    if grants cors origin
    then (lit "Access-Control-Allow-Origin", origin)
      ∷ (lit "Vary", lit "Origin")
      ∷ (lit "Access-Control-Allow-Credentials", lit "true")
      ∷ (lit "Access-Control-Allow-Methods", lit "GET, POST, PUT, PATCH, DELETE, OPTIONS")
      ∷ (
        lit "Access-Control-Allow-Headers",
        allowed_headers (get_header (lit "Access-Control-Request-Headers") h),
      )
      ∷ (lit "Access-Control-Max-Age", lit "600")
      ∷ []
    else []

-- The handler: the response headers, and whether the request goes on.
unfoldable pub cors_step : Cors → Context → Headers × Flow
cors_step cors c = (
  cors_headers cors c.request.headers,
  if c.request.method == lit "OPTIONS" then abort (respond 204 []) else next c,
)

-- The loop of ParseOrigins.
keep_nonempty : List Bytes → List Bytes
keep_nonempty [] = []
keep_nonempty (p ∷ ps) =
    let rest = keep_nonempty ps in let s = trim_space p in if is_empty s then rest else s ∷ rest

-- ParseOrigins
unfoldable pub parse_origins : Bytes → List Bytes
unfolding keep_nonempty
parse_origins env = if is_empty (trim_space env) then [] else keep_nonempty (split b',' env)
