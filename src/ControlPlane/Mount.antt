-- ===== src/ControlPlane/Mount.antt =====
-- Mount of internal/controlplane/handlers.go: which routes of the control plane want a session.
use apicorex.Base.{
  ℕ, ◌≡◌, ◌⊎◌, refl, Bool, true, false, ◌||◌, Option, none, some, ◌++◌, Bool-cases, Option-cases,
  inl, inr, arith, if◌then◌else◌,
}
use apicorex.Text.{Bytes, lit, ◌==◌, is_empty, trim_prefix}
use apicorex.Text.Laws.{trim_prefix-changed}
use apicorex.Http.{Headers, get_header}
use apicorex.Dispatcher.Gateway.{Gateway}
use apicorex.ControlPlane.PluginToken
use apicorex.ControlPlane.Handlers.{
  Handlers, Reply, refused, Env, Call, call_admin_deregister, call_reset, handle,
}
use apicorex.ControlPlane.Session.{bearer, check_session-none, require_session}

-- The group "/admin" of Mount.
abbrev pub is_admin : Call → Bool
is_admin (call_admin_deregister id) = true
is_admin (call_reset id) = true
is_admin _ = false

abbrev guarded : Option (ℕ × Bytes) → Reply × Gateway → Gateway → Reply × Gateway
guarded none result g = result
guarded (some (status, err)) result g = (refused status err, g)

-- A request to a route of Mount: the handlers of its group, then its own.
unfoldable pub mounted : Env → Handlers → Headers → Call → ℕ → ℕ → Gateway → Reply × Gateway
mounted env h headers call now second g =
    let result = handle env h call now second g in
    if is_admin call then guarded (require_session env.codec h second headers) result g else result

-- The headers have a bearer token that the session signer verifies.
abbrev pub HasSession : Env → Handlers → ℕ → Headers → Type 0
HasSession env h second headers =
    (token : Bytes) × (who : Bytes) × (get_header (lit "Authorization") headers ≡ bearer ++ token)
    × (PluginToken.verify env.codec h.session_signer second token ≡ some who)

require_session-none :
    (env : Env) (h : Handlers) (second : ℕ) (headers : Headers)
    → is_empty h.apicorex_secret ≡ false
    → require_session env.codec h second headers ≡ none
    → HasSession env h second headers
unfolding require_session
require_session-none env h second headers secret e =
    let authz = get_header (lit "Authorization") headers in
    let token = trim_prefix authz bearer in
    elim (Bool-cases (is_empty token || token == authz)) [
      | inl missing ↦ cc (rw (secret, missing) at e)
      | inr there ↦
          let (who, verified) =
            check_session-none env.codec h second token (rw (secret, there) at e) in
          (token, who, trim_prefix-changed authz bearer (ground arith), verified)
    ]

-- With a dashboard secret that is set, an operator's call changes nothing unless it comes with a
-- bearer token that the session signer verifies at that instant.
pub mounted-IsGuarded :
    (env : Env) (h : Handlers) (headers : Headers) (call : Call) (now second : ℕ) (g : Gateway)
    → is_admin call ≡ true
    → is_empty h.apicorex_secret ≡ false
    → ((mounted env h headers call now second g).1 ≡ g) ⊎ HasSession env h second headers
unfolding mounted
mounted-IsGuarded env h headers call now second g admin secret =
    elim (Option-cases (require_session env.codec h second headers)) [
      | inl passed ↦ inr (require_session-none env h second headers secret passed)
      | inr (refusal, stopped) ↦ inl (rw (admin, stopped, mounted) refl)
    ]

-- A request to the control plane is refused by its group, or handled.
pub mounted-cases :
    (env : Env) (h : Handlers) (headers : Headers) (call : Call) (now second : ℕ) (g : Gateway)
    → ((mounted env h headers call now second g).1 ≡ g)
      ⊎ ((mounted env h headers call now second g).1 ≡ (handle env h call now second g).1)
unfolding mounted
mounted-cases env h headers call now second g = elim (Bool-cases (is_admin call)) [
  | inr plain ↦ inr (rw (plain, mounted) refl)
  | inl admin ↦ elim (Option-cases (require_session env.codec h second headers)) [
    | inl passed ↦ inr (rw (admin, passed, mounted) refl)
    | inr (refusal, stopped) ↦ inl (rw (admin, stopped, mounted) refl)
  ]
]
