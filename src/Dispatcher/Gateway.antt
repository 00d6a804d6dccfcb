-- ===== src/Dispatcher/Gateway.antt =====
-- The state of the dispatcher of internal/dispatcher/dispatcher.go, with what it shares: the
-- registry, the circuit breaker and the bulkhead, and with the injector of the plugins' documents,
-- which the control plane changes together with it. Limiters, which Go keeps by pointer, are values
-- that a call puts back.
use apicorex.Base.{
  ℕ, String, ◌*◌, ◌^◌, Bool, true, false, ◌&&◌, Option, none, some, List, [], ◌∷◌, ltb,
  if◌then◌else◌,
}
use apicorex.Text.{Bytes, lit, ◌==◌}
use apicorex.Map.{Map, lookup, insert, delete}
use apicorex.Manifest.{Route}
use apicorex.Registry.{Registry}
use apicorex.Config
use apicorex.Config.{Config, Limits}
use apicorex.Protection.CircuitBreaker.{CircuitBreaker, reset, state}
use apicorex.Protection.Bulkhead.{Bulkhead, active_of}
use apicorex.Protection.RateLimiter.{RateLimiter, new_rate_limiter, evict_idle, tokens_of, burst_of}
use apicorex.Openapi.{Injector, new_injector}
use apicorex.Dispatcher.Routes.{RouteEntry, add_routes, remove_routes}

pub record Gateway : Type 0 where
  pub config : Config
  pub registry : Registry
  pub breaker : CircuitBreaker
  pub bulkhead : Bulkhead
  pub routes : List RouteEntry
  pub plugin_rl : Map RateLimiter
  pub tenant_rl : Map RateLimiter
  pub docs : Injector

-- New, with an empty injector
unfoldable pub new_gateway : Registry → CircuitBreaker → Bulkhead → Config → Gateway
new_gateway reg cb bh cfg = record {
  config = cfg;
  registry = reg;
  breaker = cb;
  bulkhead = bh;
  routes = [];
  plugin_rl = [];
  tenant_rl = [];
  docs = new_injector;
}

-- A bucket of `burst` ten-thousandths of a token, in the limiter's units.
abbrev units : ℕ → ℕ
units burst = burst * 10 ^ 9

-- Whether a plugin runs at a tenth of the rates: a public one that the configuration does not name.
abbrev pub is_tenth : Bytes → Bytes → Config → Bool
is_tenth plugin_type plugin_name cfg =
    plugin_type == lit "public"
    && elim (lookup plugin_name cfg.plugins) [ none ↦ true | some _ ↦ false ]

-- A setting or a tenth of it, in ten-thousandths, so that nothing is lost.
abbrev scaled : Bool → ℕ → ℕ
scaled tenth v = if tenth then v else v * 10

-- The limiter that AddRoutes makes for a plugin, and the one for its tenants if they have a limit.
unfoldable pub plugin_limiter : Bool → Limits → RateLimiter
plugin_limiter tenth l =
    new_rate_limiter (scaled tenth l.rate_per_sec) (units (scaled tenth l.rate_burst))

unfoldable pub tenant_limiter : Bool → Limits → Option RateLimiter
tenant_limiter tenth l =
    if ltb 0 l.tenant_rate_per_sec
    then some (
        new_rate_limiter (scaled tenth l.tenant_rate_per_sec)
          (units (scaled tenth l.tenant_rate_burst)))
    else none

-- AddRoutes
unfoldable pub add_plugin : Bytes → Bytes → Bytes → List Route → Gateway → Gateway
add_plugin plugin_id plugin_name plugin_type routes g =
    let limits = Config.for plugin_name g.config in
    let tenth = is_tenth plugin_type plugin_name g.config in
    record g {
      routes = add_routes plugin_id plugin_name routes g.routes;
      plugin_rl = insert plugin_id (plugin_limiter tenth limits) g.plugin_rl;
      tenant_rl = elim (tenant_limiter tenth limits) [
        | none ↦ delete plugin_id g.tenant_rl
        | some rl ↦ insert plugin_id rl g.tenant_rl
      ];
    }

-- RemoveRoutes
unfoldable pub remove_plugin : Bytes → Gateway → Gateway
remove_plugin plugin_id g = record g {
  routes = remove_routes plugin_id g.routes;
  plugin_rl = delete plugin_id g.plugin_rl;
  tenant_rl = delete plugin_id g.tenant_rl;
}

-- ResetCircuitBreaker
abbrev pub reset_circuit_breaker : Bytes → Gateway → Gateway
reset_circuit_breaker plugin_id g = record g { breaker = reset plugin_id g.breaker }

-- What the dashboard shows of a plugin. A bucket that was never used is full.
pub record ProtectionStatus : Type 0 where
  pub circuit_state : String
  pub bulkhead_active : ℕ
  pub bulkhead_max : ℕ
  pub rate_tokens : ℕ
  pub rate_burst : ℕ

-- ProtectionStatus
unfoldable pub protection_status : Bytes → Gateway → ProtectionStatus
protection_status plugin_id g =
    let rl = lookup plugin_id g.plugin_rl in
    record {
      circuit_state = state plugin_id g.breaker;
      bulkhead_active = active_of plugin_id g.bulkhead;
      bulkhead_max = g.bulkhead.max_conc;
      rate_tokens = elim rl [ none ↦ 0 | some r ↦ tokens_of plugin_id r ];
      rate_burst = elim rl [ none ↦ 0 | some r ↦ burst_of r ];
    }

sweep_limiters : ℕ → ℕ → Map RateLimiter → Map RateLimiter
sweep_limiters max_idle now [] = []
sweep_limiters max_idle now ((id, rl) ∷ m) =
    (id, evict_idle max_idle now rl) ∷ sweep_limiters max_idle now m

-- One tick of RunTenantLimiterSweep.
unfoldable pub sweep_tenants : ℕ → ℕ → Gateway → Gateway
unfolding sweep_limiters
sweep_tenants max_idle now g = record g { tenant_rl = sweep_limiters max_idle now g.tenant_rl }
