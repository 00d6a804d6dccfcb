-- ===== src/Dispatcher/Dispatch.antt =====
-- Dispatch of internal/dispatcher/dispatcher.go, in the order of the source: what is decided before
-- the plugin is called (`admit`), the call, and what is recorded after it (`finish`). Metrics,
-- spans and log lines are left out.
pub mod Layers
pub mod Mediation
pub mod Admission
pub mod Kept
use apicorex.Base.{
  ℕ, ◌+◌, ◌-◌, ◌/◌, ◌^◌, Bool, true, false, not, ◌&&◌, ◌||◌, Option, none, some, List, [], ◌∷◌,
  ◌++◌, leb, if◌then◌else◌,
}
use apicorex.Text.{Bytes, lit, ◌==◌, is_empty, contains, to_lower}
use apicorex.Map.{Map, lookup, insert}
use apicorex.Http.{Headers, Request, Identity, Context, get_header, set_header, with_headers}
use apicorex.Manifest.TenantSchema.{tenant_schema_for}
use apicorex.Registry.{PluginEntry, Registry, Window, get, list}
use apicorex.Registry.Maintenance.{maintenance_for}
use apicorex.Protection.Firewall.{is_route_blocked}
use apicorex.Protection.CircuitBreaker
use apicorex.Protection.CircuitBreaker.{CircuitBreaker, record_success, record_failure}
use apicorex.Protection.Bulkhead.{Bulkhead, acquire, release}
use apicorex.Protection.RateLimiter
use apicorex.Protection.RateLimiter.{RateLimiter}
use apicorex.Middleware.Authz.{permission_allowed}
use apicorex.Middleware.Tenant.{inject_forwarded_host, inject_tenant_headers, client_request_id}
use apicorex.Dispatcher.Routes.{RouteEntry, match}
use apicorex.Dispatcher.Nav.{NavEntry, build_nav, encode_nav}
use apicorex.Dispatcher.Gateway.{Gateway}

-- A refusal, with the Retry-After of a maintenance window, or the plugin to forward to.
pub data Decision : Type 0 where
  reject : ℕ → Bytes → Option ℕ → Decision
  forward : RouteEntry → PluginEntry → Decision

-- authorized
unfoldable pub authorized : Option Identity → RouteEntry → Bool
authorized none entry = false
authorized (some id) entry =
    if id.user_type == lit "platform_admin"
    then true
    else permission_allowed id.permissions entry.permission

-- Layer 4, after the slot of layer 3 is taken; a refusal runs the deferred Release.
unfoldable pub pass_breaker : ℕ → RouteEntry → PluginEntry → Gateway → Decision × Gateway
pass_breaker now entry pe g =
    let (ok, cb) = CircuitBreaker.allow entry.plugin_id now g.breaker in
    if ok then (forward entry pe, record g { breaker = cb }) else (
      reject 503 (lit "service temporarily unavailable") none,
      record g { breaker = cb; bulkhead = release entry.plugin_id g.bulkhead },
    )

-- Layer 3
unfoldable pub pass_bulkhead : ℕ → RouteEntry → PluginEntry → Gateway → Decision × Gateway
pass_bulkhead now entry pe g =
    let (ok, bh) = acquire entry.plugin_id g.bulkhead in
    if ok
    then pass_breaker now entry pe (record g { bulkhead = bh })
    else (reject 503 (lit "plugin busy") none, record g { bulkhead = bh })

abbrev pub tenant_of : Option Identity → Bytes
tenant_of none = []
tenant_of (some id) = id.tenant_id

-- The second half of layer 2: the limiter of the plugin's tenants, if there is one and the caller
-- has a tenant.
abbrev pub pass_tenant_limit :
    ℕ → Context → RouteEntry → PluginEntry → Option RateLimiter → Gateway → Decision × Gateway
pass_tenant_limit now c entry pe none g = pass_bulkhead now entry pe g
pass_tenant_limit now c entry pe (some trl) g =
    let tenant = tenant_of c.identity in
    let (ok, trl') = RateLimiter.allow (entry.plugin_id ++ (lit ":" ++ tenant)) now trl in
    let g' = record g { tenant_rl = insert entry.plugin_id trl' g.tenant_rl } in
    if is_empty tenant
    then pass_bulkhead now entry pe g
    else if ok
    then pass_bulkhead now entry pe g'
    else (reject 429 (lit "rate limit exceeded for this shop") none, g')

-- The first half of layer 2. Both limiters are read before either is used.
abbrev pub pass_plugin_limit :
    ℕ → Context → RouteEntry → PluginEntry → Option RateLimiter → Gateway → Decision × Gateway
pass_plugin_limit now c entry pe none g =
    pass_tenant_limit now c entry pe (lookup entry.plugin_id g.tenant_rl) g
pass_plugin_limit now c entry pe (some rl) g =
    let (ok, rl') = RateLimiter.allow entry.plugin_id now rl in
    let g' = record g { plugin_rl = insert entry.plugin_id rl' g.plugin_rl } in
    if ok
    then pass_tenant_limit now c entry pe (lookup entry.plugin_id g.tenant_rl) g'
    else (reject 429 (lit "rate limit exceeded") none, g')

unfoldable pub pass_limits : ℕ → Context → RouteEntry → PluginEntry → Gateway → Decision × Gateway
pass_limits now c entry pe g =
    pass_plugin_limit now c entry pe (lookup entry.plugin_id g.plugin_rl) g

-- int(time.Until(until).Seconds()) + 1
abbrev pub retry_after : ℕ → Window → ℕ
retry_after now w = (w.until - now) / 10 ^ 9 + 1

-- The maintenance check; MaintenanceFor drops a window that has expired.
unfoldable pub pass_maintenance :
    ℕ → Context → RouteEntry → PluginEntry → Gateway → Decision × Gateway
pass_maintenance now c entry pe g =
    let (window, reg) = maintenance_for entry.plugin_name now g.registry in
    let g' = record g { registry = reg } in
    elim window [
      | some w ↦ (reject 503 (lit "plugin under maintenance") (some (retry_after now w)), g')
      | none ↦ pass_limits now c entry pe g'
    ]

unfoldable pub pass_registry : ℕ → Context → RouteEntry → Gateway → Decision × Gateway
pass_registry now c entry g = elim (get entry.plugin_id g.registry) [
  | none ↦ (reject 503 (lit "plugin unavailable") none, g)
  | some pe ↦
      if pe.alive
      then pass_maintenance now c entry pe g
      else (reject 503 (lit "plugin unavailable") none, g)
]

-- The test of the authorization step.
abbrev pub is_forbidden : Context → RouteEntry → Bool
is_forbidden c entry =
    not entry.is_public && not (is_empty entry.permission) && not (authorized c.identity entry)

unfoldable pub pass_authorization : ℕ → Context → RouteEntry → Gateway → Decision × Gateway
pass_authorization now c entry g =
    if is_forbidden c entry
    then (reject 403 (lit "missing permission: " ++ entry.permission) none, g)
    else pass_registry now c entry g

-- Dispatch up to the point where the request is known to go to a plugin.
unfoldable pub admit : ℕ → Context → Gateway → Decision × Gateway
admit now c g =
    if is_route_blocked c.request.path
    then (reject 403 (lit "forbidden") none, g)
    else elim (match c.request.method c.request.path g.routes) [
      | none ↦ (reject 404 (lit "no plugin handles this route") none, g)
      | some entry ↦ pass_authorization now c entry g
    ]

-- What Dispatch takes from packages that are not modelled: uuid, the digest, the JSON of the menu,
-- the trace headers, and the plugin's answer to the forwarded request, a status.
pub record Env : Type 0 where
  pub fresh_id : Bytes
  pub sha256_hex : Bytes → Bytes
  pub encode : List NavEntry → Option Bytes
  pub inject_trace : Headers → Headers
  pub serve : PluginEntry → Request → ℕ

-- isWebSocketUpgrade
unfoldable pub is_websocket_upgrade : Headers → Bool
is_websocket_upgrade h =
    contains (to_lower (get_header (lit "Connection") h)) (lit "upgrade")
    && to_lower (get_header (lit "Upgrade") h) == lit "websocket"

-- wantsNav
unfoldable pub wants_nav : Request → Bool
wants_nav r =
    if r.method == lit "GET"
    then contains (get_header (lit "Accept") r.headers) (lit "text/html")
    else false

module _ (env : Env) where
  -- The first lines of Dispatch: every request gets an id.
  unfoldable pub with_request_id : Context → Context
  with_request_id c =
      if is_empty (get_header client_request_id c.request.headers)
      then with_headers (set_header client_request_id env.fresh_id c.request.headers) c
      else c

  abbrev pub schema_for : RouteEntry → PluginEntry → Option Identity → Bytes
  schema_for entry pe none = []
  schema_for entry pe (some id) =
      tenant_schema_for env.sha256_hex id.schema_name entry.plugin_name pe.manifest.tenant_schema

  abbrev pub nav_for : Gateway → Request → Option Identity → Bytes
  nav_for g r none = []
  nav_for g r (some id) =
      if wants_nav r
      then encode_nav env.encode (build_nav (list g.registry) id.permissions id.features)
      else []

  -- The request as it is handed to the reverse proxy, which then removes the hop-by-hop headers and
  -- those that the client's Connection header names.
  unfoldable pub forwarded : RouteEntry → PluginEntry → Gateway → Context → Request
  forwarded entry pe g c =
      let c' = inject_forwarded_host c in
      let sent =
        inject_tenant_headers (schema_for entry pe c.identity) (nav_for g c'.request c.identity)
          c' in
      record (sent.request) { headers = env.inject_trace sent.request.headers }

  -- The outcome is recorded, and the deferred Release runs. A hijacked connection counts as a
  -- success whatever became of it.
  unfoldable pub finish : ℕ → RouteEntry → Bool → ℕ → Gateway → Gateway
  finish now entry websocket status g =
      let cb =
        if websocket
        then record_success entry.plugin_id g.breaker
        else if leb 500 status
        then record_failure entry.plugin_id now g.breaker
        else record_success entry.plugin_id g.breaker in
      record g { breaker = cb; bulkhead = release entry.plugin_id g.bulkhead }

  -- Dispatch for a request that nothing overlaps: it is decided at `now` and ends at `later`. The
  -- answer is a refusal, or the plugin's status with the request that the plugin received.
  unfoldable pub dispatch : ℕ → ℕ → Context → Gateway → (Decision × Option (ℕ × Request)) × Gateway
  dispatch now later c g =
      let c' = with_request_id c in
      let (decision, g') = admit now c' g in
      elim decision [
        | reject status err retry ↦ ((reject status err retry, none), g')
        | forward entry pe ↦
            let sent = forwarded entry pe g' c' in
            let status = env.serve pe sent in
            (
              (forward entry pe, some (status, sent)),
              finish later entry (is_websocket_upgrade sent.headers) status g',
            )
      ]
