-- ===== src/Server/Own.antt =====
-- The server's own routes of server/http.go: what they answer, of the state that they read. The
-- metrics, the page of the dashboard and the HTML of the documentation are left out.
use apicorex.Base.{
  ℕ, ◌≡◌, refl, Bool, false, Option, none, some, List, map, Option-cases, Bool-cases, inl, inr,
}
use apicorex.Text.{Bytes, lit, is_empty}
use apicorex.Manifest.{Route}
use apicorex.Registry.{PluginEntry, PluginInfo, list}
use apicorex.Openapi
use apicorex.Openapi.{merged_spec}
use apicorex.Dispatcher.Gateway.{Gateway, ProtectionStatus, protection_status}
use apicorex.ControlPlane.PluginToken
use apicorex.ControlPlane.Handlers.{Handlers}
use apicorex.ControlPlane.Session.{check_session, check_session-none, require_dashboard_session}

-- An element of the list of plugins: the entry's own members, and what protects it.
pub record PluginStatus : Type 0 where
  pub info : PluginInfo
  pub alive : Bool
  pub registered_at : ℕ
  pub last_heartbeat : ℕ
  pub routes : List Route
  pub protection : ProtectionStatus

abbrev pub plugin_status : Gateway → PluginEntry → PluginStatus
plugin_status g e = record {
  info = e.info;
  alive = e.alive;
  registered_at = e.registered_at;
  last_heartbeat = e.last_heartbeat;
  routes = e.manifest.routes;
  protection = protection_status e.info.plugin_id g;
}

-- /plugins
unfoldable pub list_plugins : Gateway → List PluginStatus
list_plugins g = map (plugin_status g) (list g.registry)

-- An error with its status, or a document.
pub data DocReply : Type 0 where
  refused : ℕ → Bytes → DocReply
  document : Bytes → DocReply

-- What the two routes under /docs share: the session comes first.
abbrev pub behind_session : Option (ℕ × Bytes) → DocReply → DocReply
behind_session none reply = reply
behind_session (some (status, err)) reply = refused status err

-- /docs/openapi.json; the server's own document is `none` if it cannot be generated.
unfoldable pub openapi_json :
    PluginToken.Codec
    → Openapi.Codec
    → Handlers
    → ℕ
    → Option Bytes
    → Option Bytes
    → Gateway
    → DocReply
openapi_json tokens codec h second cookie base g =
    behind_session (require_dashboard_session tokens h second cookie) (elim base [
      | none ↦ refused 500 (lit "spec generation failed")
      | some spec ↦ document (merged_spec codec spec g.docs)
    ])

-- With a dashboard secret that is set, the merged document is given only to a request with a
-- session cookie whose token the session signer verifies at that instant.
pub openapi_json-IsGuarded :
    (tokens : PluginToken.Codec) (codec : Openapi.Codec) (h : Handlers) (second : ℕ)
    (cookie base : Option Bytes) (g : Gateway) (doc : Bytes)
    → is_empty h.apicorex_secret ≡ false
    → openapi_json tokens codec h second cookie base g ≡ document doc
    → (token : Bytes) × (who : Bytes) × (cookie ≡ some token)
      × (PluginToken.verify tokens h.session_signer second token ≡ some who)
unfolding openapi_json require_dashboard_session
openapi_json-IsGuarded tokens codec h second none base g doc secret given =
    cc (rw (secret, openapi_json, require_dashboard_session) at given)
openapi_json-IsGuarded tokens codec h second (some token) base g doc secret given =
    elim (Bool-cases (is_empty token)) [
      | inl empty ↦ cc (rw (secret, empty, openapi_json, require_dashboard_session) at given)
      | inr there ↦ elim (Option-cases (check_session tokens h second token)) [
        | inl passed ↦
            let (who, verified) = check_session-none tokens h second token passed in
            (token, who, refl, verified)
        | inr (refusal, stopped) ↦
            cc (rw (secret, there, stopped, openapi_json, require_dashboard_session) at given)
      ]
    ]
