-- ===== src/Examples.antt =====
-- Concrete data for the tests: a billing plugin with one route, a caller, and a gateway that serves
-- them.
pub mod Layers
pub mod Plugins
pub mod Requests
pub mod Dispatch
pub mod Tokens
pub mod Calls
pub mod Health
pub mod Program
pub mod Server
pub mod Documents
pub mod Interleaved
pub mod Lifetime
pub mod Settings
pub mod Dashboard
pub mod Registrations
use apicorex.Base.{ℕ, ◌*◌, ◌^◌, true, false, none, some, List, [], ◌∷◌}
use apicorex.Base.Int.{pos}
use apicorex.Text.{Bytes, lit}
use apicorex.Http.{Headers, Request, Identity, Context}
use apicorex.Manifest.{Route, NavItem, Manifest}
use apicorex.Registry.{Target, PluginEntry, Window, Registry, new_entry}
use apicorex.Config.{defaults}
use apicorex.Protection.CircuitBreaker.{CircuitBreaker, new_circuit_breaker}
use apicorex.Protection.Bulkhead.{new_bulkhead}
use apicorex.Protection.RateLimiter.{RateLimiter, new_rate_limiter}
use apicorex.Openapi.{new_injector}
use apicorex.Dispatcher.Routes.{RouteEntry, new_route}
use apicorex.Dispatcher.Gateway.{Gateway}

abbrev pub billing_id : Bytes
billing_id = lit "billing-1"

abbrev pub billing : Bytes
billing = lit "billing"

abbrev pub invoices : Route
invoices = record {
  method = lit "get";
  path = lit "/billing/:id";
  is_public = false;
  permission = lit "billing:read";
  summary = [];
  tags = [];
}

abbrev pub invoices_item : NavItem
invoices_item = record {
  key = lit "invoices";
  labels = [];
  icon = [];
  href = lit "/billing";
  permission = lit "billing:read";
  feature = [];
  group = lit "money";
  sort = pos 2;
  group_labels = [];
  group_sort = pos 1;
}

abbrev pub billing_manifest : Manifest
billing_manifest = record {
  name = billing;
  version = lit "1.0";
  description = [];
  plugin_type = lit "private";
  routes = invoices ∷ [];
  public_paths = [];
  domain_surfaces = [];
  migrations = [];
  openapi_spec = [];
  tenant_schema = [];
  nav = invoices_item ∷ [];
  permissions = [];
  roles = [];
  features = [];
}

abbrev pub billing_target : Target
billing_target = record { scheme = lit "http"; host = lit "billing:9000" }

abbrev pub billing_entry : PluginEntry
billing_entry =
    new_entry billing_id billing (lit "http://billing:9000") (lit "1.0") billing_manifest
      billing_target 7

abbrev pub window : Window
window = record { reason = lit "upgrade"; since = 10; until = 100 }

abbrev pub registry : Registry
registry = record { plugins = (billing_id, billing_entry) ∷ []; maint = [] }

abbrev pub registry_in_maintenance : Registry
registry_in_maintenance = record registry { maint = (billing, window) ∷ [] }

abbrev pub caller : Identity
caller = record {
  tenant_id = lit "t1";
  tenant_slug = lit "shop";
  tenant_name = lit "Shop";
  schema_name = lit "tenant_shop";
  branch_id = lit "b1";
  branch_slug = lit "main";
  branch_name = [];
  user_id = lit "u1";
  full_name = [];
  user_type = lit "staff";
  roles = [];
  permissions = lit "billing:*" ∷ [];
  features = [];
  token_hash = lit "ab";
}

abbrev pub sent_headers : Headers
sent_headers =
    (lit "Authorization", lit "Bearer zdt_secret")
    ∷ (lit "X-Apicorex-Tenant-Id", lit "someone-else")
    ∷ []

abbrev pub request : Request
request = record {
  method = lit "GET";
  path = lit "/billing/7";
  query = [];
  host = lit "shop.example.com";
  headers = sent_headers;
}

abbrev pub context : Context
context = record { request = request; identity = some caller; host_tenant = none }

abbrev pub breaker : CircuitBreaker
breaker = new_circuit_breaker 2 30

abbrev pub limiter : RateLimiter
limiter = new_rate_limiter (10 ^ 13) (2 * 10 ^ 13)

abbrev pub route_entry : RouteEntry
route_entry = new_route billing_id billing invoices

abbrev pub gateway : Gateway
gateway = record {
  config = defaults;
  registry = registry;
  breaker = breaker;
  bulkhead = new_bulkhead 1;
  routes = route_entry ∷ [];
  plugin_rl = (billing_id, limiter) ∷ [];
  tenant_rl = [];
  docs = new_injector;
}
