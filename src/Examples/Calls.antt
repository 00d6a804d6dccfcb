-- ===== src/Examples/Calls.antt =====
-- Calls of the control plane: the billing plugin registers again.
use apicorex.Base.{◌≡◌, ◌⊎◌, refl, ap, ◌∙◌, false, none, some, [], ◌∷◌, ◌++◌}
use apicorex.Text.{Bytes, lit, ◌==◌, is_empty}
use apicorex.Http.{Headers, first_value, canonical}
use apicorex.Manifest.{Manifest}
use apicorex.Openapi
use apicorex.Openapi.{merged_spec}
use apicorex.Map.{lookup, insert, delete}
use apicorex.Registry.{PluginEntry, new_entry, ids_by_name}
use apicorex.Registry
use apicorex.ControlPlane.PluginToken
use apicorex.ControlPlane.PluginToken.{issue}
use apicorex.ControlPlane.Session.{
  bearer, session_cookie, login, check_session, require_session, require_dashboard_session,
}
use apicorex.ControlPlane.Session.Login.{
  verdict, login-session, require_dashboard_session-token, check_session-issue, dashboard_plain,
}
use apicorex.ControlPlane.Mount.{mounted, HasSession, mounted-IsGuarded}
use apicorex.ControlPlane.Handlers.Docs.{register_manifest-docs}
use apicorex.Server.Own.{document, behind_session, openapi_json, openapi_json-IsGuarded}
use apicorex.ControlPlane.Handlers.{
  Handlers, Env, call_heartbeat, call_reset, handle, register_manifest, admit_plugin, evict_all,
}
use apicorex.ControlPlane.Handlers.Served.{IsServed, handle-IsServed}
use apicorex.ControlPlane.Handlers.Unique.{register_manifest_unique}
use apicorex.Dispatcher.Gateway.{add_plugin, remove_plugin}
use apicorex.Examples.{billing, billing_id, billing_manifest, billing_target, gateway}
use apicorex.Examples.Plugins.{registry-IsValid}
use apicorex.Examples.Tokens.{codec, codec-IsFaithful, signer}

abbrev pub handlers : Handlers
handlers = record {
  api_key = lit "k";
  allowlist = [];
  signer = signer;
  apicorex_secret = lit "s";
  session_signer = signer;
}

abbrev pub env : Env
env = record {
  codec = codec;
  parse_url = λ url. some billing_target;
  fresh_uuid = lit "12345678-0";
  fetch = λ url. some (200, []);
  decode = λ body. some billing_manifest;
}

gateway-IsServed : IsServed gateway
unfolding lookup ◌==◌
gateway-IsServed = (refl, tt)

handle-IsServed_example :
    IsServed
      (handle env handlers
        (call_heartbeat (
          some (record { plugin_id = billing_id; plugin_token = issue codec signer billing_id 3 })))
        9
        4
        gateway).1
handle-IsServed_example =
    handle-IsServed env handlers
      (call_heartbeat
        (some (record { plugin_id = billing_id; plugin_token = issue codec signer billing_id 3 })))
      9 4 gateway gateway-IsServed

register_manifest_unique_example : lit "billing-12345678" ≡ lit "billing-12345678"
unfolding register_manifest admit_plugin evict_all add_plugin remove_plugin Registry.register
    Registry.deregister ids_by_name lookup insert delete ◌==◌
register_manifest_unique_example =
    register_manifest_unique env handlers (lit "http://billing:9000") billing_manifest 9 4 gateway
      (lit "billing-12345678") (issue codec signer (lit "billing-12345678") 4)
      (lit "billing-12345678")
      (new_entry (lit "billing-12345678") billing (lit "http://billing:9000") (lit "1.0")
        billing_manifest billing_target 9)
      registry-IsValid refl refl refl

-- A registration with a document.
abbrev documented : Manifest
documented = record billing_manifest { openapi_spec = lit "{}" }

register_manifest-docs_example :
    lookup billing
      (register_manifest env handlers
        (lit "http://billing:9000")
        documented
        9
        4
        gateway).1.docs.specs
    ≡ some (lit "{}")
unfolding register_manifest admit_plugin evict_all add_plugin remove_plugin Registry.register
    Registry.deregister ids_by_name lookup insert delete ◌==◌
register_manifest-docs_example =
    register_manifest-docs env handlers (lit "http://billing:9000") documented 9 4 gateway
      (lit "billing-12345678") (issue codec signer (lit "billing-12345678") 4) billing refl

mounted-IsGuarded_example :
    ((mounted env handlers [] (call_reset billing_id) 9 4 gateway).1 ≡ gateway)
    ⊎ HasSession env handlers 4 []
mounted-IsGuarded_example =
    mounted-IsGuarded env handlers [] (call_reset billing_id) 9 4 gateway refl refl

abbrev session_token : Bytes
session_token = issue codec signer (lit "dashboard") 4

encode-nonempty : (s : Bytes) → is_empty s ≡ false → is_empty (codec.encode s) ≡ false
encode-nonempty s h = h

-- The header that carries the token of the session.
abbrev carrying : Headers
carrying = (lit "Authorization", bearer ++ session_token) ∷ []

login-session_example :
    (lit "s" ≡ lit "s")
    × (require_session codec handlers 7 carrying ≡ verdict codec handlers 4 7)
    × (require_dashboard_session codec handlers 7 (some session_token) ≡ verdict codec handlers 4 7)
unfolding login session_cookie ◌==◌ first_value canonical
login-session_example =
    login-session codec handlers (lit "s") session_token false [] carrying
      (session_cookie session_token false []) 4 7 codec-IsFaithful encode-nonempty refl refl refl

-- A codec of documents that reads nothing.
abbrev docs_codec : Openapi.Codec
docs_codec = record { unmarshal = λ raw. none; marshal = λ j. none }

session_test :
    openapi_json codec docs_codec handlers 7 (some session_token) (some (lit "{}")) gateway
    ≡ document (lit "{}")
unfolding openapi_json merged_spec issue
session_test =
    ap (λ r. behind_session r (document (lit "{}")))
      (require_dashboard_session-token codec handlers 7 session_token refl refl
        ∙ check_session-issue codec handlers (lit "dashboard") 4 7 codec-IsFaithful dashboard_plain)

openapi_json-IsGuarded_example :
    (token : Bytes) × (who : Bytes) × (some session_token ≡ some token)
    × (PluginToken.verify codec handlers.session_signer 7 token ≡ some who)
unfolding openapi_json require_dashboard_session check_session
openapi_json-IsGuarded_example =
    openapi_json-IsGuarded codec docs_codec handlers 7 (some session_token) (some (lit "{}"))
      gateway (lit "{}") refl session_test
