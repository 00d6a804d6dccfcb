-- ===== src/Examples/Server.antt =====
-- The theorems on the server's middleware at concrete inputs: a school on its own hostname, a product
-- host, and a path that looks like the server's own.
use apicorex.Base.{inl, sym, ◌∙◌, ℕ, ◌≡◌, ◌≤◌, ◌<◌, ◌+◌, refl, true, false, none, some, [], ◌∷◌}
use apicorex.Text.{
  Bytes, lit, ◌==◌, is_empty, trim_space, split, cut, trim, to_lower, lower, to_upper, upper,
  has_prefix, trim_prefix, trim_suffix,
}
use apicorex.Map.{Map, lookup, insert, delete}
use apicorex.Http.{Context, get_header, next, first_value, canonical, without, set_header}
use apicorex.Manifest.{DomainSurface}
use apicorex.Registry.{PluginEntry, new_entry, find_by_domain_surface, get_base_url, find_by_name}
use apicorex.Protection.Firewall.{is_route_blocked}
use apicorex.Auth.Cache.{resolved, cache_ttl, hit, resolve_cached}
use apicorex.Auth.Introspect.{new_introspector, resolve, fetch}
use apicorex.Auth.Domain.{
  ResolvedDomain, DomainClient, new_domain_resolver, fetch_domain, resolve_domain,
}
use apicorex.Auth.Cache.Fresh.{IsSound}
use apicorex.Auth.Domain.Fresh.{said}
use apicorex.Middleware.Cors.{cors_step}
use apicorex.Text.Laws.{==_iff}
use apicorex.Middleware.Tenant.{
  strip_spoofed_headers, del_all, header_host_prefix, header_tenant_id, header_request_id,
  inject_forwarded_host,
}
use apicorex.Middleware.Tenant.Trust.{trusted}
use apicorex.Server.Chain.Trusted.{forwarded-trusted}
use apicorex.Dispatcher.Dispatch.{with_request_id, schema_for, nav_for, forwarded}
use apicorex.Middleware.Auth.{auth_with_login, device_token, resolve_token}
use apicorex.Dispatcher.Routes.{
  RouteEntry, is_routable, match, first, new_route, pattern_match, segments_match, wildcard_match,
}
use apicorex.Server.HostPort.{has_byte, split_host_port, strip_host_port}
use apicorex.Server.ProductHosts.{
  ok, parse_product_hosts, parse_entries, parse_entry, parse_host, parse_prefix,
  product_host_rewrite,
}
use apicorex.Server.ProductHosts.Sound.{product_host_rewrite-blocked}
use apicorex.Server.CustomDomain.{resolve_custom_domain, require_host_tenant}
use apicorex.Server.OnDemand.{ask}
use apicorex.Server.OnDemand.Confirmed.{asked_host, ask-confirmed}
use apicorex.Server.Chain.{Env, Server, arrive, is_core_path, approach, rewrite_host, auth_split}
use apicorex.Server.Chain.Tenants.{arrive-tenant}
use apicorex.Server.Chain.CorePath.{arrive-core_path}
use apicorex.Examples.{
  caller, gateway, invoices, billing, billing_id, billing_manifest, billing_target,
}
use apicorex.Examples.Program.{chain_env, program}

-- parse_product_hosts
abbrev setting : Bytes
setting = lit "school.example.com=/school"

abbrev school_hosts : Map Bytes
school_hosts = (lit "school.example.com", lit "/school") ∷ []

setting_test : parse_product_hosts setting ≡ ok school_hosts
unfolding parse_product_hosts parse_entries parse_entry parse_host parse_prefix split cut trim_space
    trim has_byte split_host_port strip_host_port to_lower lower ◌==◌ is_route_blocked lookup insert
    delete
setting_test = refl

-- Slashes alone are accepted as a prefix, though they name no plugin.
slashes_test :
    parse_product_hosts (lit "school.example.com=//")
    ≡ ok ((lit "school.example.com", lit "/") ∷ [])
unfolding parse_product_hosts parse_entries parse_entry parse_host parse_prefix split cut trim_space
    trim has_byte split_host_port strip_host_port to_lower lower ◌==◌ is_route_blocked lookup insert
    delete
slashes_test = refl

-- A request for the front page of the school.
abbrev front : Context
front = record {
  request = record {
    method = lit "GET";
    path = lit "/";
    query = [];
    host = lit "school.example.com";
    headers = [];
  };
  identity = none;
  host_tenant = none;
}

product_host_rewrite-blocked_example :
    is_route_blocked (product_host_rewrite school_hosts [] front).request.path
    ≡ is_route_blocked (lit "/")
product_host_rewrite-blocked_example =
    product_host_rewrite-blocked setting school_hosts [] front [] setting_test refl

-- A plugin's route under a path that looks like the documentation's.
abbrev archive : RouteEntry
archive = new_route billing_id billing (record invoices { path = lit "/docs-archive" })

abbrev archive_server : Server
archive_server = record program.server { gateway = record gateway { routes = archive ∷ [] } }

abbrev reader : Context
reader = record front { request = record (front.request) { path = lit "/docs-archive" } }

arrive-core_path_example :
    arrive chain_env program.settings 5 reader archive_server
    ≡ (next (strip_spoofed_headers reader), archive_server)
unfolding is_routable match first ◌==◌ is_core_path to_upper has_prefix
arrive-core_path_example =
    arrive-core_path chain_env program.settings 5 reader archive_server refl refl refl refl

-- Identity knows the hostname of the school.
abbrev school : ResolvedDomain
school = record {
  tenant_id = lit "t1";
  tenant_slug = lit "shop";
  schema_name = lit "tenant_shop";
  branch_id = [];
  surface = lit "panel";
}

abbrev domains : DomainClient
domains = record {
  post = λ url key host. some (record { status = 200; body = [] });
  decode = λ body. some school;
}

ask-confirmed_example :
    (is_empty (asked_host (lit "school.example.com")) ≡ false)
    × ((t : ℕ) × (r : ResolvedDomain) × (t ≤ 5)
        × (5 < t + cache_ttl)
        × (said
              (λ _. domains)
              (λ _. some (lit "http://id"))
              (lit "k")
              t
              (asked_host (lit "school.example.com"))
            ≡ resolved r))
unfolding IsSound ask resolve_domain resolve_cached hit lookup fetch_domain strip_host_port
    split_host_port to_lower lower trim_space trim cut
ask-confirmed_example =
    ask-confirmed (λ _. domains) (λ _. some (lit "http://id")) 5 (lit "school.example.com")
      (new_domain_resolver (lit "k")) tt refl

abbrev panel : DomainSurface
panel = record { surface = lit "panel"; path_prefix = lit "/school"; session_scoped = true }

abbrev school_entry : PluginEntry
school_entry =
    new_entry (lit "school-1") (lit "school") (lit "http://school:9000") (lit "1.0")
      (record billing_manifest { domain_surfaces = panel ∷ [] }) billing_target 7

abbrev identity_entry : PluginEntry
identity_entry =
    new_entry (lit "identity-1") (lit "identity") (lit "http://id") (lit "1.0") billing_manifest
      billing_target 7

abbrev school_server : Server
school_server = record {
  gateway = record gateway {
    registry = record {
      plugins = (lit "school-1", school_entry) ∷ (lit "identity-1", identity_entry) ∷ [];
      maint = [];
    };
    routes =
        new_route (lit "school-1") (lit "school") (record invoices { path = lit "/school" }) ∷ [];
  };
  introspector = some (new_introspector (lit "k"));
  resolver = some (new_domain_resolver (lit "k"));
}

abbrev pupil : Context
pupil = record front {
  request = record (front.request) {
    headers =
        (lit "Authorization", lit "Bearer zdt_secret")
        ∷ (lit "X-Apicorex-Tenant-Id", lit "someone-else")
        ∷ [];
  };
}

-- The request as it reaches Dispatch.
abbrev admitted : Context
admitted = record {
  request = record (pupil.request) {
    path = lit "/school";
    headers =
        set_header header_host_prefix (lit "/school")
          ((lit "Authorization", lit "Bearer zdt_secret") ∷ []);
  };
  identity = some (record caller { token_hash = lit "zdt_secret" });
  host_tenant = some (lit "t1");
}

abbrev school_env : Env
school_env = record chain_env { domain = domains }

pupil_test : (arrive school_env program.settings 5 pupil school_server).0 ≡ next admitted
unfolding arrive cors_step approach rewrite_host product_host_rewrite resolve_custom_domain
    is_routable match first ◌==◌ auth_split is_core_path auth_with_login device_token resolve_token
    resolve fetch require_host_tenant strip_spoofed_headers del_all to_upper upper has_prefix
    first_value canonical without lookup resolve_domain resolve_cached hit fetch_domain
    strip_host_port split_host_port to_lower lower trim_space trim cut trim_suffix
    find_by_domain_surface get_base_url trim_prefix pattern_match segments_match split
    wildcard_match is_route_blocked find_by_name
pupil_test = refl

arrive-tenant_example : caller.tenant_id ≡ school.tenant_id
unfolding is_routable match first ◌==◌ to_upper upper has_prefix resolve_domain resolve_cached hit
    lookup fetch_domain find_by_domain_surface get_base_url product_host_rewrite find_by_name
    strip_spoofed_headers pattern_match split trim segments_match wildcard_match trim_suffix
    is_route_blocked
arrive-tenant_example =
    arrive-tenant school_env program.settings 5 pupil admitted school_server school panel
      (record caller { token_hash = lit "zdt_secret" }) (new_domain_resolver (lit "k"), refl, refl)
      refl refl refl pupil_test refl

-- The names are told apart by computing.
apart_test :
    ((canonical header_tenant_id == canonical header_request_id) ≡ false)
    × ((canonical header_tenant_id == canonical header_host_prefix) ≡ false)
unfolding canonical ◌==◌
apart_test = (refl, refl)

spelled_test : canonical (lit "x-apicorex-tenant-id") ≡ canonical header_tenant_id
unfolding canonical
spelled_test = refl

abbrev school_route : RouteEntry
school_route = new_route (lit "school-1") (lit "school") (record invoices { path = lit "/school" })

-- The tenant's id is handed on as Identity gave it, not as the pupil sent it.
forwarded-trusted_example :
    get_header
      (lit "x-apicorex-tenant-id")
      (forwarded school_env.proxy school_route school_entry school_server.gateway
        (with_request_id school_env.proxy admitted)).headers
    ≡ trusted
        (canonical (lit "x-apicorex-tenant-id"))
        (schema_for school_env.proxy school_route school_entry admitted.identity)
        (nav_for school_env.proxy school_server.gateway
          (inject_forwarded_host (with_request_id school_env.proxy admitted)).request
          admitted.identity)
        admitted.identity
        admitted.request.host
forwarded-trusted_example =
    forwarded-trusted school_env program.settings 5 pupil admitted school_server school_route
      school_entry school_server.gateway (lit "x-apicorex-tenant-id") header_tenant_id pupil_test
      (inl refl) spelled_test
      (λ e.
        let same =
          (==_iff (canonical header_tenant_id) (canonical header_request_id)).1
            (sym spelled_test ∙ e) in
        cc (same, apart_test.0))
      (λ e.
        let same =
          (==_iff (canonical header_tenant_id) (canonical header_host_prefix)).1
            (sym spelled_test ∙ e) in
        cc (same, apart_test.1))
      (λ h. refl)
