-- ===== src/Dispatcher/Regions.antt =====
-- Dispatch of internal/dispatcher/dispatcher.go again, as the goroutine of one request: one turn for
-- each region in which it holds a lock of the shared state, or calls the plugin, with the local work
-- around it. The route is kept by value, while match gives a pointer into the table, so this is
-- Dispatch as long as the table is not changed while the request reads its route.
use apicorex.Base.{ℕ, Bool, true, false, Option, none, some, ◌++◌, leb, ltb, if◌then◌else◌}
use apicorex.Text.{Bytes, lit, is_empty}
use apicorex.Map.{lookup, insert}
use apicorex.Http.{Request, Context}
use apicorex.Registry.{PluginEntry, Window, get}
use apicorex.Registry.Maintenance.{clear_maintenance}
use apicorex.Protection.Firewall.{is_route_blocked}
use apicorex.Protection.CircuitBreaker
use apicorex.Protection.CircuitBreaker.{record_success, record_failure}
use apicorex.Protection.Bulkhead.{acquire, release}
use apicorex.Protection.RateLimiter
use apicorex.Protection.RateLimiter.{RateLimiter}
use apicorex.Dispatcher.Routes.{RouteEntry, match}
use apicorex.Dispatcher.Gateway.{Gateway}
use apicorex.Dispatcher.Dispatch.{
  Decision, reject, forward, is_forbidden, retry_after, tenant_of, Env, forwarded,
  is_websocket_upgrade,
}

-- What Dispatch has come to, with the local variables that are live there.
pub data Stage : Type 0 where
  -- before the search in the route table
  begun : Context → Stage
  -- before the look into the registry
  matched : Context → RouteEntry → Stage
  -- before MaintenanceFor reads the window
  looked : Context → RouteEntry → PluginEntry → Stage
  -- before ClearMaintenance of a window that has expired
  expired : Context → RouteEntry → PluginEntry → Stage
  -- before the limiters are read
  cleared : Context → RouteEntry → PluginEntry → Stage
  -- before Allow of the plugin's limiter, with whether there is one, and one for its tenants
  metered : Bool → Bool → Context → RouteEntry → PluginEntry → Stage
  -- before Allow of the tenants' limiter, with whether there is one
  shared_out : Bool → Context → RouteEntry → PluginEntry → Stage
  -- before Acquire
  limited : Context → RouteEntry → PluginEntry → Stage
  -- before Allow of the breaker
  holding : Context → RouteEntry → PluginEntry → Stage
  -- before the headers are made, for which the registry is listed
  admitted : Context → RouteEntry → PluginEntry → Stage
  -- at the plugin, with the request that it got
  calling : RouteEntry → PluginEntry → Request → Stage
  -- before the outcome is recorded
  answered : RouteEntry → PluginEntry → Request → ℕ → Stage
  -- before the deferred Release, with what is answered
  leaving : RouteEntry → Decision → Option (ℕ × Request) → Stage
  over : Decision → Option (ℕ × Request) → Stage

-- What a turn takes from outside: the time, the plugin's answer, which is `none` if the reverse proxy
-- panics because the answer breaks off, and of the limiter that was read
-- whether AddRoutes or RemoveRoutes has put another in its place since, and then its verdict, of
-- which nothing is assumed.
pub record Outside : Type 0 where
  pub now : ℕ
  pub answer : PluginEntry → Request → Option ℕ
  pub replaced : Bool
  pub verdict : Bool

-- A turn at an instant, in which no limiter is replaced and the plugin answers as in `dispatch`.
abbrev pub quiet : Env → ℕ → Outside
quiet env now = record {
  now = now;
  answer = λ pe sent. some (env.serve pe sent);
  replaced = false;
  verdict = false;
}

abbrev pub refused : ℕ → Bytes → Stage
refused status err = over (reject status err none) none

-- Allow of a limiter that was read before, under a key: the one in the table, or one that it no
-- longer holds.
unfoldable pub allow_read :
    Outside → Bytes → Option RateLimiter → (RateLimiter → Gateway) → Gateway → Bool × Gateway
allow_read o key none put g = (o.verdict, g)
allow_read o key (some rl) put g =
    let (ok, rl') = RateLimiter.allow key o.now rl in
    if o.replaced then (o.verdict, g) else (ok, put rl')

abbrev pub is_present : Option RateLimiter → Bool
is_present none = false
is_present (some rl) = true

-- The look into the registry and the test of what it gives.
abbrev pub on_file : Context → RouteEntry → Option PluginEntry → Stage
on_file c entry none = refused 503 (lit "plugin unavailable")
on_file c entry (some pe) =
    if pe.alive then looked c entry pe else refused 503 (lit "plugin unavailable")

-- MaintenanceFor, up to ClearMaintenance.
abbrev pub in_window : ℕ → Context → RouteEntry → PluginEntry → Option Window → Stage
in_window now c entry pe none = cleared c entry pe
in_window now c entry pe (some w) =
    if ltb w.until now
    then expired c entry pe
    else over (reject 503 (lit "plugin under maintenance") (some (retry_after now w))) none

-- After ServeHTTP; a panic runs what is deferred and nothing else.
abbrev pub on_reply : RouteEntry → PluginEntry → Request → Option ℕ → Stage
on_reply entry pe sent none = leaving entry (forward entry pe) none
on_reply entry pe sent (some status) = answered entry pe sent status

-- The authorization, on the route that the table gave.
abbrev pub on_route : Context → Option RouteEntry → Stage
on_route c none = refused 404 (lit "no plugin handles this route")
on_route c (some entry) =
    if is_forbidden c entry
    then refused 403 (lit "missing permission: " ++ entry.permission)
    else matched c entry

module _ (env : Env) where
  -- One turn.
  unfoldable pub turn : Outside → Stage → Gateway → Stage × Gateway
  unfolding allow_read
  turn o (begun c) g =
      if is_route_blocked c.request.path
      then (refused 403 (lit "forbidden"), g)
      else (on_route c (match c.request.method c.request.path g.routes), g)
  turn o (matched c entry) g = (on_file c entry (get entry.plugin_id g.registry), g)
  turn o (looked c entry pe) g =
      (in_window o.now c entry pe (lookup entry.plugin_name g.registry.maint), g)
  turn o (expired c entry pe) g =
      (cleared c entry pe, record g { registry = clear_maintenance entry.plugin_name g.registry })
  turn o (cleared c entry pe) g = (
    metered (is_present (lookup entry.plugin_id g.plugin_rl))
        (is_present (lookup entry.plugin_id g.tenant_rl)) c entry pe,
    g,
  )
  turn o (metered false trl c entry pe) g = (shared_out trl c entry pe, g)
  turn o (metered true trl c entry pe) g =
      let (ok, g') =
        allow_read o entry.plugin_id (lookup entry.plugin_id g.plugin_rl)
          (λ rl. record g { plugin_rl = insert entry.plugin_id rl g.plugin_rl }) g in
      (if ok then shared_out trl c entry pe else refused 429 (lit "rate limit exceeded"), g')
  turn o (shared_out false c entry pe) g = (limited c entry pe, g)
  turn o (shared_out true c entry pe) g =
      let tenant = tenant_of c.identity in
      let (ok, g') =
        allow_read o (entry.plugin_id ++ (lit ":" ++ tenant)) (lookup entry.plugin_id g.tenant_rl)
          (λ rl. record g { tenant_rl = insert entry.plugin_id rl g.tenant_rl }) g in
      if is_empty tenant then (limited c entry pe, g) else (
        if ok then limited c entry pe else refused 429 (lit "rate limit exceeded for this shop"),
        g',
      )
  turn o (limited c entry pe) g =
      let (ok, bh) = acquire entry.plugin_id g.bulkhead in
      (
        if ok then holding c entry pe else refused 503 (lit "plugin busy"),
        record g { bulkhead = bh },
      )
  turn o (holding c entry pe) g =
      let (ok, cb) = CircuitBreaker.allow entry.plugin_id o.now g.breaker in
      (
        if ok
            then admitted c entry pe
            else leaving entry (reject 503 (lit "service temporarily unavailable") none) none,
        record g { breaker = cb },
      )
  turn o (admitted c entry pe) g = (calling entry pe (forwarded env entry pe g c), g)
  turn o (calling entry pe sent) g = (on_reply entry pe sent (o.answer pe sent), g)
  turn o (answered entry pe sent status) g =
      let cb =
        if is_websocket_upgrade sent.headers
        then record_success entry.plugin_id g.breaker
        else if leb 500 status
        then record_failure entry.plugin_id o.now g.breaker
        else record_success entry.plugin_id g.breaker in
      (leaving entry (forward entry pe) (some (status, sent)), record g { breaker = cb })
  turn o (leaving entry d answer) g =
      (over d answer, record g { bulkhead = release entry.plugin_id g.bulkhead })
  turn o (over d answer) g = (over d answer, g)
