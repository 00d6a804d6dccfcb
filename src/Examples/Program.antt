-- ===== src/Examples/Program.antt =====
-- The theorems on the running program: it starts with a plugin key, a plugin with a public route
-- registers, and a request for the route arrives.
use apicorex.Base.{
  ℕ, ◌≡◌, refl, ap, subst, ◌∙◌, true, false, Option, none, some, [], ◌∷◌, if◌then◌else◌,
}
use apicorex.Text.{
  Bytes, lit, ◌==◌, is_empty, trim_space, to_upper, upper, has_prefix, split, trim, trim_suffix,
}
use apicorex.Http.{Request, Context, Flow, first_value, canonical, without}
use apicorex.Manifest.{Route, Manifest}
use apicorex.Registry.{PluginEntry, new_entry}
use apicorex.Registry
use apicorex.Registry.{ids_by_name}
use apicorex.Config
use apicorex.Config.{defaults}
use apicorex.Dispatcher.Dispatch.{
  forward, admit, dispatch, with_request_id, pass_authorization, authorized, pass_registry,
  pass_maintenance, pass_breaker, pass_bulkhead, pass_limits,
}
use apicorex.Protection.Firewall.{is_route_blocked}
use apicorex.Protection.CircuitBreaker.{new_circuit_breaker, allow}
use apicorex.Protection.RateLimiter
use apicorex.Protection.RateLimiter.{new_rate_limiter, refilled}
use apicorex.Protection.Bulkhead.{new_bulkhead, acquire, release}
use apicorex.Registry.Maintenance.{maintenance_for, clear_maintenance}
use apicorex.Dispatcher.Routes.{
  RouteEntry, new_route, add_routes, remove_routes, is_routable, match, first, pattern_match,
  segments_match, wildcard_match,
}
use apicorex.Dispatcher.Gateway.{new_gateway, add_plugin, plugin_limiter, tenant_limiter}
use apicorex.Map.{lookup, insert, delete, get_or}
use apicorex.Openapi.{add_spec}
use apicorex.ControlPlane.Mount.{mounted}
use apicorex.Middleware.Cors.{new_cors, parse_origins, cors_step}
use apicorex.Middleware.Tenant.{strip_spoofed_headers, del_all}
use apicorex.Middleware.Auth.{optional_auth, device_token}
use apicorex.ControlPlane.Handlers.{
  new_handlers, handle, register, pull_manifest, register_manifest, admit_plugin, evict_all,
  call_register,
}
use apicorex.Auth.Introspect.{Introspector}
use apicorex.Server.ProductHosts.{ok, parse_product_hosts, product_host_rewrite}
use apicorex.Server.Chain
use apicorex.Server.Chain.{
  Server, dispatched, then_dispatch, serve, arrive, approach, rewrite_host, auth_split,
  is_core_path,
}
use apicorex.Server.CustomDomain.{resolve_custom_domain, require_host_tenant}
use apicorex.Server.Chain.Mediated.{dispatch-decision}
use apicorex.Server.Chain.Identified.{AgreesWithHost, IsIdentified}
use apicorex.Dispatcher.Dispatch.Mediation.{IsAdmitted}
use apicorex.Program.{Program, new_server, boot, env_or, split_csv}
use apicorex.System
use apicorex.System.{Event, control, step, Reach, start, next}
use apicorex.System.Reachable.{plugin_api_key, boot-IsMediated}
use apicorex.Examples.{billing, billing_manifest, billing_target, invoices}
use apicorex.Examples.Requests
use apicorex.Examples.Dispatch
use apicorex.Examples.Calls

abbrev pub getenv : Bytes → Bytes
getenv name = if name == lit "PLUGIN_API_KEY" then lit "k" else []

abbrev about : Route
about = record invoices { path = lit "/about"; is_public = true; permission = [] }

abbrev manifest : Manifest
manifest = record billing_manifest { routes = about ∷ [] }

abbrev pub chain_env : Chain.Env
chain_env = record {
  auth = Requests.env 200;
  domain = record { post = λ url key host. none; decode = λ body. none };
  proxy = Dispatch.env;
}

abbrev pub env : System.Env
env = record { chain = chain_env; control = record Calls.env { decode = λ body. some manifest } }

abbrev pub program : Program
program = record {
  settings = record { cors = new_cors (parse_origins []); product_hosts = []; login_url = [] };
  server = new_server (lit "k") defaults;
  handlers = new_handlers (lit "k") [] (lit "k") [];
  answers_asks = false;
}

pub boot_test : boot getenv defaults ≡ ok program
unfolding boot ◌==◌ env_or split_csv parse_product_hosts new_server trim_space
boot_test = refl

abbrev pub registration : Event
registration =
    control []
      (call_register (some (record { base_url = lit "http://billing:9000"; api_key = lit "k" }))) 5
      5

-- The state after the registration.
abbrev ready : Server
ready = step env program registration program.server

ready-Reach : Reach env program ready
ready-Reach = next registration program.server start

abbrev pub entry : RouteEntry
entry = new_route (lit "billing-12345678") billing about

abbrev pub plugin : PluginEntry
plugin =
    new_entry (lit "billing-12345678") billing (lit "http://billing:9000") (lit "1.0") manifest
      billing_target 5

abbrev id : Bytes
id = lit "billing-12345678"

-- The same state, written out.
abbrev pub served : Server
served = record (program.server) {
  gateway = record (program.server.gateway) {
    registry = record { plugins = (id, plugin) ∷ []; maint = [] };
    routes = entry ∷ [];
    plugin_rl = (id, plugin_limiter false (Config.for billing defaults)) ∷ [];
  };
}

pub ready_test : ready ≡ served
unfolding step mounted handle register pull_manifest register_manifest admit_plugin evict_all
    Registry.register add_plugin add_routes remove_routes ids_by_name lookup insert delete ◌==◌
    new_server new_gateway new_handlers tenant_limiter add_spec to_upper upper Config.for
ready_test = refl

served-Reach : Reach env program served
served-Reach = subst (λ s. Reach env program s) ready_test ready-Reach

pub key_test : is_empty (plugin_api_key getenv) ≡ false
unfolding env_or ◌==◌
key_test = refl

abbrev pub visitor : Context
visitor = record {
  request = record {
    method = lit "GET";
    path = lit "/about";
    query = [];
    host = lit "shop.example.com";
    headers = [];
  };
  identity = none;
  host_tenant = none;
}

-- The request that the plugin received, with the status that it answered with.
abbrev sent : Option (ℕ × Request)
sent = (dispatch chain_env.proxy 6 7 visitor served.gateway).0.1

pub split_test : arrive chain_env program.settings 6 visitor served ≡ (Flow.next visitor, served)
unfolding arrive cors_step approach rewrite_host product_host_rewrite resolve_custom_domain
    is_routable match first ◌==◌ auth_split is_core_path new_server optional_auth device_token
    require_host_tenant strip_spoofed_headers to_upper upper has_prefix first_value canonical
    del_all without
split_test = refl

admit_test :
    (admit 6 (with_request_id chain_env.proxy visitor) served.gateway).0 ≡ forward entry plugin
unfolding admit with_request_id first_value canonical is_route_blocked match first ◌==◌ to_upper
    pattern_match split trim segments_match pass_authorization authorized pass_registry lookup
    pass_maintenance pass_breaker pass_bulkhead pass_limits wildcard_match delete get_or insert
    acquire release allow RateLimiter.allow refilled clear_maintenance maintenance_for has_prefix
    trim_suffix upper new_circuit_breaker new_bulkhead new_rate_limiter new_server new_gateway
    plugin_limiter Config.for
admit_test = refl

serve_test :
    (serve chain_env program.settings 6 7 visitor served).0 ≡ dispatched (forward entry plugin) sent
unfolding serve
serve_test =
    ap (λ p. (then_dispatch chain_env program.settings 6 7 p).0) split_test
    ∙ ap (λ d. dispatched d sent)
        (dispatch-decision chain_env.proxy 6 7 visitor served.gateway ∙ admit_test)

boot-IsMediated_example :
    (i : Introspector) × (c : Context) × ((arrive chain_env program.settings 6 visitor served).0
      ≡ Flow.next c)
    × (IsAdmitted 6 c served.gateway entry plugin
        × (IsIdentified chain_env program.settings 6 c served.gateway i × AgreesWithHost c))
boot-IsMediated_example =
    boot-IsMediated env getenv defaults program served 6 7 visitor entry plugin sent boot_test
      key_test served-Reach serve_test
