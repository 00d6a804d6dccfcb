-- ===== src/Middleware/Auth.antt =====
-- internal/middleware/auth.go: a device token is resolved to an identity, or the request is turned
-- away. Parsing cookies and escaping a query are parameters, as are the digest and the client of
-- Identity; `base_url` is where the registry finds Identity at this instant.
pub mod Gate
use apicorex.Base.{
  ℕ, Bool, true, false, not, ◌&&◌, ◌||◌, Option, none, some, List, [], ◌∷◌, ◌++◌, if◌then◌else◌,
}
use apicorex.Text.{Bytes, lit, ◌==◌, is_empty, has_prefix, trim_prefix, contains}
use apicorex.Http.{
  Headers, Request, Identity, Context, Response, respond, redirect, Flow, next, abort, get_header,
}
use apicorex.Auth.Cache.{
  AuthError, invalid_token, membership_revoked, unavailable, domain_not_found, Answer, resolved,
  failed,
}
use apicorex.Auth.Introspect.{Client, Introspector, resolve, resolve_platform}
use apicorex.Middleware.Tenant.{header_acting_user}

abbrev pub token_cookie : Bytes
token_cookie = lit "apicorex_token"

abbrev pub bearer : Bytes
bearer = lit "Bearer "

-- wantsHTML
unfoldable pub wants_html : Request → Bool
wants_html r =
    (r.method == lit "GET" || r.method == lit "HEAD")
    && contains (get_header (lit "Accept") r.headers) (lit "text/html")

-- r.URL.RequestURI()
abbrev pub request_uri : Request → Bytes
request_uri r = if is_empty r.query then r.path else r.path ++ (lit "?" ++ r.query)

pub record Env : Type 0 where
  pub client : Client
  pub cookie : Headers → Bytes → Option Bytes
  pub hash_token : Bytes → Bytes
  pub query_escape : Bytes → Bytes

-- The cookie of deviceToken, if it is there and not empty.
abbrev nonempty : Option Bytes → Option Bytes
nonempty none = none
nonempty (some t) = if is_empty t then none else some t

module _ (env : Env) where
  abbrev from_header : Headers → Option Bytes
  from_header h =
      let auth = get_header (lit "Authorization") h in
      if has_prefix auth bearer then nonempty (some (trim_prefix auth bearer)) else none

  -- deviceToken
  unfoldable pub device_token : Headers → Option Bytes
  device_token h = elim (from_header h) [
    | some t ↦ some t
    | none ↦ nonempty (env.cookie h token_cookie)
  ]

  -- rejectUnauthenticated
  unfoldable pub reject_unauthenticated : Bytes → Bytes → Request → Response
  reject_unauthenticated login_url reason r =
      if not (is_empty login_url) && wants_html r
      then redirect (login_url ++ (lit "?next=" ++ env.query_escape (request_uri r)))
      else respond 401 reason

  -- The switch on the token's prefix; `none` is its default case.
  unfoldable pub resolve_token :
      Option Bytes → Bytes → Headers → ℕ → Introspector → Option (Answer Identity × Introspector)
  resolve_token base_url token h now i =
      if has_prefix token (lit "zps_")
      then some (resolve_platform env.client base_url token now i)
      else if has_prefix token (lit "zdt_")
      then some (
          resolve env.client base_url (env.hash_token token) (get_header header_acting_user h) now
            i)
      else none

  -- The switch on the error of AuthWithLogin.
  abbrev settle : Bytes → Context → Answer Identity → Flow
  settle login_url c (resolved id) = next (record c { identity = some id })
  settle login_url c (failed membership_revoked) =
      abort (reject_unauthenticated login_url (lit "membership revoked") c.request)
  settle login_url c (failed invalid_token) =
      abort (reject_unauthenticated login_url (lit "invalid token") c.request)
  settle login_url c (failed _) = abort (respond 503 (lit "auth unavailable"))

  abbrev settle_all :
      Bytes → Context → Introspector → Option (Answer Identity × Introspector) → Flow × Introspector
  settle_all login_url c i none =
      (abort (reject_unauthenticated login_url (lit "invalid token") c.request), i)
  settle_all login_url c i (some (answer, i')) = (settle login_url c answer, i')

  -- AuthWithLogin, with an introspector.
  unfoldable pub auth_with_login :
      Bytes → Option Bytes → ℕ → Context → Introspector → Flow × Introspector
  auth_with_login login_url base_url now c i = elim (device_token c.request.headers) [
    | none ↦
        (abort (reject_unauthenticated login_url (lit "missing authorization header") c.request), i)
    | some token ↦ settle_all login_url c i (resolve_token base_url token c.request.headers now i)
  ]

  abbrev pub adopt : Context → Answer Identity → Context
  adopt c (resolved id) = record c { identity = some id }
  adopt c (failed _) = c

  abbrev adopt_all :
      Context → Introspector → Option (Answer Identity × Introspector) → Context × Introspector
  adopt_all c i none = (c, i)
  adopt_all c i (some (answer, i')) = (adopt c answer, i')

  -- OptionalAuth, with an introspector: it always goes on.
  unfoldable pub optional_auth : Option Bytes → ℕ → Context → Introspector → Context × Introspector
  optional_auth base_url now c i = elim (device_token c.request.headers) [
    | none ↦ (c, i)
    | some token ↦ adopt_all c i (resolve_token base_url token c.request.headers now i)
  ]
