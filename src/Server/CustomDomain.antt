-- ===== src/Server/CustomDomain.antt =====
-- server/domain_resolve.go: hostnames that belong to one tenant.
use apicorex.Base.{Option, none, some, List, ◌++◌, ℕ, if◌then◌else◌}
use apicorex.Text.{Bytes, lit, ◌==◌, trim_suffix}
use apicorex.Http.{Context, respond, Flow, next, abort}
use apicorex.Manifest.{DomainSurface}
use apicorex.Registry.{Registry, find_by_domain_surface}
use apicorex.Auth.Cache.{Answer, resolved, failed}
use apicorex.Auth.Domain.{ResolvedDomain, DomainClient, DomainResolver, resolve_domain}
use apicorex.Dispatcher.Routes.{RouteEntry, is_routable}
use apicorex.Server.HostPort.{strip_host_port}
use apicorex.Server.ProductHosts.{move_below}

-- FindDomainSurface of internal/dispatcher/dispatcher.go
abbrev pub find_domain_surface : Bytes → Registry → Option DomainSurface
find_domain_surface surface r = elim (find_by_domain_surface surface r) [
  | none ↦ none
  | some (entry, declared) ↦ some declared
]

-- The rewrite of a request on a domain that was resolved, for the surface that it is for.
abbrev pub rewrite_domain : ResolvedDomain → Option DomainSurface → Context → Context
rewrite_domain d none c = c
rewrite_domain d (some s) c =
    let rest = trim_suffix c.request.path (lit "/") in
    if s.session_scoped
    then record (move_below s.path_prefix (s.path_prefix ++ rest) c) {
      host_tenant = some d.tenant_id;
    }
    else record c {
      request = record (c.request) { path = s.path_prefix ++ (lit "/" ++ (d.tenant_slug ++ rest)) };
    }

abbrev pub apply_domain : Answer ResolvedDomain → Registry → Context → Context
apply_domain (failed e) reg c = c
apply_domain (resolved d) reg c = rewrite_domain d (find_domain_surface d.surface reg) c

-- resolveCustomDomain, with a resolver
unfoldable pub resolve_custom_domain :
    DomainClient
    → Option Bytes
    → ℕ
    → Registry
    → List RouteEntry
    → Context
    → DomainResolver
    → Context × DomainResolver
resolve_custom_domain client base_url now reg routes c d =
    if is_routable c.request.method c.request.path routes
    then (c, d)
    else (let (answer, d') =
          resolve_domain client base_url (strip_host_port c.request.host) now d in
        (apply_domain answer reg c, d'))

-- requireHostTenant
unfoldable pub require_host_tenant : Context → Flow
require_host_tenant c = elim c.host_tenant [
  | none ↦ next c
  | some want ↦ elim c.identity [
    | none ↦ next c
    | some id ↦
        if id.tenant_id == want
        then next c
        else abort
            (respond 403 (lit "this session belongs to a different institution than this domain"))
  ]
]
