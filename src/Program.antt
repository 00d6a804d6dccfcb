-- ===== src/Program.antt =====
-- cmd/apicorex/main.go: how the parts are put together. The environment is a function from the name
-- of a variable to its value, empty if it is not set; the configuration is what config.Load returns.
pub mod Lifetime
pub mod Dashboard
use apicorex.Base.{ℕ, ◌*◌, ◌^◌, Bool, true, false, Option, none, some, List, [], ◌∷◌, if◌then◌else◌}
use apicorex.Text.{Bytes, lit, is_empty, trim_space, split}
use apicorex.Registry.{new_registry}
use apicorex.Config.{Config}
use apicorex.Protection.CircuitBreaker.{new_circuit_breaker}
use apicorex.Protection.Bulkhead.{new_bulkhead}
use apicorex.Auth.Introspect.{new_introspector}
use apicorex.Auth.Domain.{DomainResolver, new_domain_resolver}
use apicorex.Middleware.Cors.{new_cors, parse_origins}
use apicorex.Dispatcher.Gateway.{new_gateway}
use apicorex.ControlPlane.Handlers.{Handlers, new_handlers}
use apicorex.Server.ProductHosts.{Parsed, ok, ◌>>=◌, parse_product_hosts}
use apicorex.Server.OnDemand.{new_on_demand_tls}
use apicorex.Server.Chain.{Settings, Server}

-- envOr
unfoldable pub env_or : (Bytes → Bytes) → Bytes → Bytes → Bytes
env_or getenv key fallback = let v = getenv key in if is_empty v then fallback else v

-- The loop of splitCSV.
keep_parts : List Bytes → List Bytes
keep_parts [] = []
keep_parts (p ∷ ps) =
    let rest = keep_parts ps in
    let part = trim_space p in if is_empty part then rest else part ∷ rest

-- splitCSV
unfoldable pub split_csv : Bytes → List Bytes
unfolding keep_parts
split_csv s = if is_empty s then [] else keep_parts (split b',' s)

-- What the program runs.
pub record Program : Type 0 where
  pub settings : Settings
  pub server : Server
  pub handlers : Handlers
  -- whether the internal listener runs; it asks the resolver that the server has
  pub answers_asks : Bool

-- The dispatcher, and the clients of Identity if there is a key for them.
unfoldable pub new_server : Bytes → Config → Server
new_server plugin_api_key cfg = record {
  gateway =
      new_gateway new_registry
        (new_circuit_breaker cfg.default.cb_threshold cfg.default.cb_reset_timeout)
        (new_bulkhead cfg.default.bulkhead_max) cfg;
  introspector = if is_empty plugin_api_key then none else some (new_introspector plugin_api_key);
  resolver = if is_empty plugin_api_key then none else some (new_domain_resolver plugin_api_key);
}

abbrev is_built : Option DomainResolver → Bool
is_built none = false
is_built (some _) = true

-- main, up to the listeners; a setting of product hosts that is not accepted ends the program.
unfoldable pub boot : (Bytes → Bytes) → Config → Parsed Program
boot getenv cfg = do
  let plugin_api_key = env_or getenv (lit "PLUGIN_API_KEY") []
  let allowlist = split_csv (env_or getenv (lit "PLUGIN_ALLOWLIST") [])
  let apicorex_secret = env_or getenv (lit "APICOREX_SECRET") []
  let server = new_server plugin_api_key cfg
  product_hosts ← parse_product_hosts (getenv (lit "PRODUCT_HOSTS"))
  ok (record {
    settings = record {
      cors = new_cors (parse_origins (getenv (lit "CORS_ALLOWED_ORIGINS")));
      product_hosts = product_hosts;
      login_url = getenv (lit "LOGIN_URL");
    };
    server = server;
    handlers = new_handlers plugin_api_key allowlist plugin_api_key apicorex_secret;
    answers_asks = is_built (new_on_demand_tls server.resolver (getenv (lit "ONDEMAND_TLS_ADDR")));
  })

-- The sweep of the tenants' limiters: the age at which a bucket goes, in nanoseconds.
abbrev pub tenant_max_idle : ℕ
tenant_max_idle = 30 * 60 * 10 ^ 9
