-- ===== src/System/Interleaved/Passed.antt =====
-- What a request has passed at each stage, with its requests interleaved: each check on the state of
-- its own moment, after the one before.
use apicorex.Base.{ℕ, ◌<◌, ◌≡◌, true, false, none, some}
use apicorex.Http.{Request, Context, next}
use apicorex.Registry.{PluginEntry, get}
use apicorex.Registry.Maintenance.{maintenance_for}
use apicorex.Protection.Firewall.{is_route_blocked}
use apicorex.Protection.CircuitBreaker
use apicorex.Protection.Bulkhead.{active_of}
use apicorex.Dispatcher.Routes.{RouteEntry, match}
use apicorex.Dispatcher.Dispatch.{is_forbidden, with_request_id, forwarded}
use apicorex.Server.Chain.{arrive}
use apicorex.Program.{Program}
use apicorex.System.{Env}
use apicorex.System.Interleaved.{Running, Reach}
use apicorex.System.Interleaved.Past.{Once}
use apicorex.Auth.Introspect.{Introspector}
use apicorex.Server.Chain.Identified.{AgreesWithHost, IsIdentified}

module _ (env : Env) (program : Program) where
  -- A context that the middleware let through, and which is for a path of the server itself, for a
  -- public route, or of a caller who is who Identity resolved the token to; a caller who is known is
  -- of the tenant that the hostname named, if it named one.
  abbrev pub ArrivedAt : Context → (r : Running) → Reach env program r → Type 0
  ArrivedAt c r past =
      (now : ℕ) × (c₀ : Context) × (c₁ : Context) × (i : Introspector) × (r.server.introspector
        ≡ some i)
      × ((arrive env.chain program.settings now c₀ r.server).0 ≡ next c₁)
      × (c ≡ with_request_id env.chain.proxy c₁)
      × IsIdentified env.chain program.settings now c₁ r.server.gateway i
      × AgreesWithHost c₁

  abbrev pub Arrived : Context → (r : Running) → Reach env program r → Type 0
  Arrived c = Once env program (ArrivedAt c)

  -- Since then the path was not blocked, the table gave the route, and its permission was met.
  abbrev pub MatchedAt : Context → RouteEntry → (r : Running) → Reach env program r → Type 0
  MatchedAt c entry r past =
      (is_route_blocked c.request.path ≡ false)
      × (match c.request.method c.request.path r.server.gateway.routes ≡ some entry)
      × (is_forbidden c entry ≡ false)
      × Arrived c r past

  abbrev pub Matched : Context → RouteEntry → (r : Running) → Reach env program r → Type 0
  Matched c entry = Once env program (MatchedAt c entry)

  -- Since then the plugin was on file under the route's id, and alive.
  abbrev pub OnFileAt :
      Context → RouteEntry → PluginEntry → (r : Running) → Reach env program r → Type 0
  OnFileAt c entry pe r past =
      (get entry.plugin_id r.server.gateway.registry ≡ some pe)
      × (pe.alive ≡ true)
      × Matched c entry r past

  abbrev pub OnFile :
      Context → RouteEntry → PluginEntry → (r : Running) → Reach env program r → Type 0
  OnFile c entry pe = Once env program (OnFileAt c entry pe)

  -- Since then the plugin was in no maintenance window.
  abbrev pub UnmaintainedAt :
      Context → RouteEntry → PluginEntry → (r : Running) → Reach env program r → Type 0
  UnmaintainedAt c entry pe r past =
      (now : ℕ) × ((maintenance_for entry.plugin_name now r.server.gateway.registry).0 ≡ none)
      × OnFile c entry pe r past

  abbrev pub Unmaintained :
      Context → RouteEntry → PluginEntry → (r : Running) → Reach env program r → Type 0
  Unmaintained c entry pe = Once env program (UnmaintainedAt c entry pe)

  -- Since then the plugin had a free slot.
  abbrev pub SlottedAt :
      Context → RouteEntry → PluginEntry → (r : Running) → Reach env program r → Type 0
  SlottedAt c entry pe r past =
      (active_of entry.plugin_id r.server.gateway.bulkhead < r.server.gateway.bulkhead.max_conc)
      × Unmaintained c entry pe r past

  abbrev pub Slotted :
      Context → RouteEntry → PluginEntry → (r : Running) → Reach env program r → Type 0
  Slotted c entry pe = Once env program (SlottedAt c entry pe)

  -- Since then the breaker let a request of the plugin through.
  abbrev pub ClosedAt :
      Context → RouteEntry → PluginEntry → (r : Running) → Reach env program r → Type 0
  ClosedAt c entry pe r past =
      (now : ℕ) × ((CircuitBreaker.allow entry.plugin_id now r.server.gateway.breaker).0 ≡ true)
      × Slotted c entry pe r past

  abbrev pub Closed :
      Context → RouteEntry → PluginEntry → (r : Running) → Reach env program r → Type 0
  Closed c entry pe = Once env program (ClosedAt c entry pe)

  -- Since then the request for the plugin was made from the one that arrived.
  abbrev pub SentAt :
      RouteEntry → PluginEntry → Request → (r : Running) → Reach env program r → Type 0
  SentAt entry pe sent r past =
      (c : Context) × (sent ≡ forwarded env.chain.proxy entry pe r.server.gateway c)
      × Closed c entry pe r past

  abbrev pub Sent :
      RouteEntry → PluginEntry → Request → (r : Running) → Reach env program r → Type 0
  Sent entry pe sent = Once env program (SentAt entry pe sent)
