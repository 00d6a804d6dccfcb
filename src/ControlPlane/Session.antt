-- ===== src/ControlPlane/Session.antt =====
-- internal/controlplane/handlers.go: the sessions of the dashboard. Seconds since the epoch are
-- natural numbers. Reading a cookie is a parameter.
pub mod Login
use apicorex.Base.{
  ℕ, ◌≡◌, Option-cases, inl, inr, ◌*◌, ◌++◌, Bool, true, false, not, ◌||◌, Option, none, some, List,
  [], ◌∷◌, if◌then◌else◌,
}
use apicorex.Base.Int.{ℤ, pos, negsuc}
use apicorex.Text.{Bytes, lit, ◌==◌, is_empty, trim_prefix}
use apicorex.Http.{Headers, get_header}
use apicorex.ControlPlane.PluginToken
use apicorex.ControlPlane.PluginToken.{Codec}
use apicorex.ControlPlane.Handlers.{Handlers}

abbrev pub session_cookie_name : Bytes
session_cookie_name = lit "apicorex_session"

abbrev pub bearer : Bytes
bearer = lit "Bearer "

-- The arguments of SetCookie, and of SetSameSite before it, which is always Lax.
pub record Cookie : Type 0 where
  pub name : Bytes
  pub value : Bytes
  pub max_age : ℤ
  pub path : Bytes
  pub secure : Bool
  pub http_only : Bool

-- The answers of the two handlers.
pub data Reply : Type 0 where
  refused : ℕ → Bytes → Reply
  session : Bytes → Cookie → Reply
  ended : Cookie → Reply

-- The test of the connection: TLS here, or at a proxy in front.
abbrev pub is_secure : Bool → Headers → Bool
is_secure tls h = tls || get_header (lit "X-Forwarded-Proto") h == lit "https"

-- setSessionCookie
unfoldable pub session_cookie : Bytes → Bool → Headers → Cookie
session_cookie token tls h = record {
  name = session_cookie_name;
  value = token;
  max_age = pos (12 * 3600);
  path = lit "/";
  secure = is_secure tls h;
  http_only = true;
}

-- logout
unfoldable pub logout : Bool → Headers → Reply
logout tls h = ended (record {
  name = session_cookie_name;
  value = [];
  max_age = negsuc 0;
  path = lit "/";
  secure = is_secure tls h;
  http_only = true;
})

-- /admin/login-required
abbrev pub is_login_required : Handlers → Bool
is_login_required h = not (is_empty h.apicorex_secret)

module _ (codec : Codec) (h : Handlers) (second : ℕ) where
  abbrev start : Bytes → Bool → Headers → Reply
  start who tls headers =
      let token = PluginToken.issue codec h.session_signer who second in
      session token (session_cookie token tls headers)

  -- login; a body that does not bind is `none`.
  unfoldable pub login : Option Bytes → Bool → Headers → Reply
  login none tls headers = refused 400 (lit "invalid body")
  login (some key) tls headers =
      if is_empty h.apicorex_secret
      then start (lit "dev") tls headers
      else if key == h.apicorex_secret
      then start (lit "dashboard") tls headers
      else refused 401 (lit "invalid key")

  -- The test of a token that is there; `none` is c.Next().
  unfoldable pub check_session : Bytes → Option (ℕ × Bytes)
  check_session token = elim (PluginToken.verify codec h.session_signer second token) [
    | none ↦ some (401, lit "invalid or expired session")
    | some who ↦ none
  ]

  pub check_session-none :
      (token : Bytes)
      → check_session token ≡ none
      → (who : Bytes) × (PluginToken.verify codec h.session_signer second token ≡ some who)
  unfolding check_session
  check_session-none token e =
      elim (Option-cases (PluginToken.verify codec h.session_signer second token)) [
        | inl bad ↦ cc (rw (bad, check_session) at e)
        | inr (who, good) ↦ (who, good)
      ]

  -- RequireDashboardSession, of the session cookie
  unfoldable pub require_dashboard_session : Option Bytes → Option (ℕ × Bytes)
  require_dashboard_session cookie = if is_empty h.apicorex_secret then none else elim cookie [
    | none ↦ some (401, lit "login required — visit /dashboard to sign in")
    | some token ↦
        if is_empty token
        then some (401, lit "login required — visit /dashboard to sign in")
        else check_session token
  ]

  -- requireSession
  unfoldable pub require_session : Headers → Option (ℕ × Bytes)
  require_session headers =
      let authz = get_header (lit "Authorization") headers in
      let token = trim_prefix authz bearer in
      if is_empty h.apicorex_secret
      then none
      else if is_empty token || token == authz
      then some (401, lit "missing session token")
      else check_session token
