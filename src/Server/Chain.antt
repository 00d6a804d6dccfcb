-- ===== src/Server/Chain.antt =====
-- NewHTTP of server/http.go: the middleware in front of Dispatch, in the order in which it is mounted,
-- for a request that matches none of the routes of the server itself.
pub mod Identified
pub mod Mediated
pub mod Kept
pub mod CorePath
pub mod Tenants
pub mod Trusted
use apicorex.Base.{ℕ, Bool, true, false, ◌||◌, Option, none, some, List, [], ◌∷◌, if◌then◌else◌}
use apicorex.Text.{Bytes, lit, ◌==◌, has_prefix}
use apicorex.Map.{Map}
use apicorex.Http.{Headers, Request, Context, Response, Flow, next, abort}
use apicorex.Registry.{get_base_url}
use apicorex.Auth.Introspect.{Introspector}
use apicorex.Auth.Domain.{DomainClient, DomainResolver}
use apicorex.Middleware.Cors.{Cors, cors_step}
use apicorex.Middleware.Tenant.{strip_spoofed_headers}
use apicorex.Middleware.Auth
use apicorex.Middleware.Auth.{auth_with_login, optional_auth}
use apicorex.Dispatcher.Routes.{is_public_route}
use apicorex.Dispatcher.Gateway.{Gateway}
use apicorex.Dispatcher.Dispatch
use apicorex.Dispatcher.Dispatch.{Decision, dispatch}
use apicorex.Server.ProductHosts.{product_host_rewrite}
use apicorex.Server.CustomDomain.{resolve_custom_domain, require_host_tenant}

-- What NewHTTP reads from the environment, parsed.
pub record Settings : Type 0 where
  pub cors : Cors
  pub product_hosts : Map Bytes
  pub login_url : Bytes

-- The packages that are not modelled.
pub record Env : Type 0 where
  pub auth : Auth.Env
  pub domain : DomainClient
  pub proxy : Dispatch.Env

-- What changes from request to request. Both of the clients of Identity may be nil.
pub record Server : Type 0 where
  pub gateway : Gateway
  pub introspector : Option Introspector
  pub resolver : Option DomainResolver

-- The test before the split of public and protected routes: paths that get no authentication.
unfoldable pub is_core_path : Bytes → Bool
is_core_path p =
    p == lit "/health"
    || p == lit "/plugins"
    || p == lit "/plugin"
    || p == lit "/metrics"
    || has_prefix p (lit "/docs")
    || has_prefix p (lit "/_core")
    || has_prefix p (lit "/dashboard")

-- Where Identity is, as both of its clients look it up.
abbrev pub identity_url : Gateway → Option Bytes
identity_url g = get_base_url (lit "identity") g.registry

abbrev keep_resolver : Server → Context × DomainResolver → Context × Server
keep_resolver s p = (p.0, record s { resolver = some p.1 })

abbrev keep_introspector : {A : Type 0} → Server → A × Introspector → A × Server
keep_introspector s p = (p.0, record s { introspector = some p.1 })

-- An answer of the middleware, or what Dispatch decided and the plugin answered.
pub data Outcome : Type 0 where
  answered : Response → Outcome
  dispatched : Decision → Option (ℕ × Request) → Outcome

module _ (env : Env) (settings : Settings) (now : ℕ) where
  -- resolveCustomDomain, also for a nil resolver
  abbrev pub custom_domain : Context → Server → Option DomainResolver → Context × Server
  custom_domain c s none = (c, s)
  custom_domain c s (some d) = keep_resolver s (
      resolve_custom_domain env.domain (identity_url s.gateway) now s.gateway.registry
        s.gateway.routes c d)

  -- AuthWithLogin and OptionalAuth, also for a nil introspector
  abbrev pub protect : Context → Server → Option Introspector → Flow × Server
  protect c s none = (next c, s)
  protect c s (some i) =
      keep_introspector s
        (auth_with_login env.auth settings.login_url (identity_url s.gateway) now c i)

  abbrev pub identify : Context → Server → Option Introspector → Context × Server
  identify c s none = (c, s)
  identify c s (some i) =
      keep_introspector s (optional_auth env.auth (identity_url s.gateway) now c i)

  abbrev go_on : Context × Server → Flow × Server
  go_on p = (next p.0, p.1)

  -- The handler that picks the authentication for a path.
  unfoldable pub auth_split : Context → Server → Flow × Server
  auth_split c s =
      if is_core_path c.request.path
      then (next c, s)
      else if is_public_route c.request.method c.request.path s.gateway.routes
      then go_on (identify c s s.introspector)
      else protect c s s.introspector

  abbrev pub then_host_tenant : Flow × Server → Flow × Server
  then_host_tenant (abort r, s) = (abort r, s)
  then_host_tenant (next c, s) = (require_host_tenant c, s)

  -- The two rewrites of the path by the host.
  unfoldable pub rewrite_host : Context → Server → Context × Server
  rewrite_host c s =
      custom_domain (product_host_rewrite settings.product_hosts s.gateway.routes c) s s.resolver

  -- From the strip of the headers up to Dispatch.
  unfoldable pub approach : Context → Server → Flow × Server
  approach c s =
      let (c', s') = rewrite_host (strip_spoofed_headers c) s in then_host_tenant (auth_split c' s')

  abbrev pub after_cors : Flow → Server → Flow × Server
  after_cors (abort r) s = (abort r, s)
  after_cors (next c) s = approach c s

  -- All of the middleware.
  unfoldable pub arrive : Context → Server → Flow × Server
  arrive c s = after_cors (cors_step settings.cors c).1 s

  abbrev pub then_dispatch : ℕ → Flow × Server → Outcome × Server
  then_dispatch later (abort r, s) = (answered r, s)
  then_dispatch later (next c, s) =
      let ((decision, sent), g) = dispatch env.proxy now later c s.gateway in
      (dispatched decision sent, record s { gateway = g })

  -- One request, decided at `now`; the plugin's answer is recorded at `later`.
  unfoldable pub serve : ℕ → Context → Server → Outcome × Server
  serve later c s = then_dispatch later (arrive c s)
