-- ===== src/Server/Chain/Tenants.antt =====
-- Requests on a hostname that belongs to one tenant.
use apicorex.Base.{
  ℕ, ◌≡◌, refl, ap, ◌∙◌, true, false, Option, some, List, Bool-cases, Option-cases, inl, inr,
}
use apicorex.Text.{Bytes, lit, ◌==◌, to_lower}
use apicorex.Map.{Map, lookup}
use apicorex.Http.{Identity, Context, Flow, next, abort}
use apicorex.Manifest.{DomainSurface}
use apicorex.Registry.{Registry}
use apicorex.Protection.Firewall.{is_route_blocked}
use apicorex.Auth.Cache.{resolved}
use apicorex.Auth.Domain.{ResolvedDomain, DomainClient, DomainResolver, resolve_domain}
use apicorex.Middleware.Cors.{Cors, cors_step}
use apicorex.Middleware.Tenant.{strip_spoofed_headers}
use apicorex.Dispatcher.Routes.{RouteEntry, is_routable}
use apicorex.Server.HostPort.{strip_host_port}
use apicorex.Server.ProductHosts.{product_host_rewrite}
use apicorex.Server.CustomDomain.{find_domain_surface, apply_domain, resolve_custom_domain}
use apicorex.Server.Chain.{
  Settings, Env, Server, identity_url, auth_split, rewrite_host, approach, after_cors, arrive,
}
use apicorex.Server.Chain.Identified.{AgreesWithHost, then_host_tenant-next, auth_split-IsRequestOf}

cors_step-next : (cors : Cors) (c c' : Context) → (cors_step cors c).1 ≡ next c' → c' ≡ c
unfolding cors_step
cors_step-next cors c c' h = elim (Bool-cases (c.request.method == lit "OPTIONS")) [
  | inl preflight ↦ cc (rw (preflight, cors_step) at h)
  | inr other ↦ cc (rw (other, cors_step) at h)
]

product_host_rewrite-host :
    (hosts : Map Bytes) (routes : List RouteEntry) (c : Context)
    → (product_host_rewrite hosts routes c).request.host ≡ c.request.host
unfolding product_host_rewrite
product_host_rewrite-host hosts routes c =
    elim (Bool-cases (is_routable c.request.method c.request.path routes)) [
      | inl served ↦ rw (served, product_host_rewrite) refl
      | inr unserved ↦ elim (Bool-cases (is_route_blocked c.request.path)) [
        | inl blocked ↦ rw (unserved, blocked, product_host_rewrite) refl
        | inr free ↦
            elim (Option-cases (lookup (to_lower (strip_host_port c.request.host)) hosts)) [
              | inl unmapped ↦ rw (unserved, free, unmapped, product_host_rewrite) refl
              | inr (prefix, mapped) ↦ rw (unserved, free, mapped, product_host_rewrite) refl
            ]
      ]
    ]

-- A hostname that is resolved, for a surface whose tenant is the session's, leaves its tenant with
-- a request that nothing serves under its own path.
resolve_custom_domain-tenant :
    (client : DomainClient) (url : Option Bytes) (now : ℕ) (reg : Registry)
    (routes : List RouteEntry) (c : Context) (d : DomainResolver) (t : ResolvedDomain)
    (surface : DomainSurface)
    → is_routable c.request.method c.request.path routes ≡ false
    → (resolve_domain client url (strip_host_port c.request.host) now d).0 ≡ resolved t
    → find_domain_surface t.surface reg ≡ some surface
    → surface.session_scoped ≡ true
    → (resolve_custom_domain client url now reg routes c d).0.host_tenant ≡ some t.tenant_id
unfolding resolve_custom_domain
resolve_custom_domain-tenant client url now reg routes c d t surface unserved known declared
      scoped =
    rw (unserved, resolve_custom_domain)
      (ap (λ a. (apply_domain a reg c).host_tenant) known ∙ rw declared (simp scoped refl))

module _ (env : Env) (settings : Settings) (now : ℕ) where
  -- What the product hosts make of a request; the custom domains come after them.
  abbrev pub beyond_product_hosts : Context → Server → Context
  beyond_product_hosts c s =
      product_host_rewrite settings.product_hosts s.gateway.routes (strip_spoofed_headers c)

  -- The request's hostname, without its port, is resolved to a domain.
  abbrev pub IsOnDomain : Context → Server → ResolvedDomain → Type 0
  IsOnDomain c s t =
      (d : DomainResolver) × (s.resolver ≡ some d)
      × ((resolve_domain env.domain (identity_url s.gateway) (strip_host_port c.request.host) now
            d).0
          ≡ resolved t)

  abbrev pub IsUnserved : Context → Server → Type 0
  IsUnserved c s = is_routable c.request.method c.request.path s.gateway.routes ≡ false

  rewrite_host-tenant :
      (c : Context) (s : Server) (t : ResolvedDomain) (surface : DomainSurface)
      → IsOnDomain c s t
      → IsUnserved (beyond_product_hosts c s) s
      → find_domain_surface t.surface s.gateway.registry ≡ some surface
      → surface.session_scoped ≡ true
      → (rewrite_host env settings now (strip_spoofed_headers c) s).0.host_tenant ≡ some t.tenant_id
  unfolding rewrite_host strip_spoofed_headers
  rewrite_host-tenant c s t surface (d, present, known) unserved declared scoped =
      let c' = beyond_product_hosts c s in
      let host =
        product_host_rewrite-host settings.product_hosts s.gateway.routes
          (strip_spoofed_headers c) in
      rw present (
        resolve_custom_domain-tenant env.domain (identity_url s.gateway) now s.gateway.registry
          s.gateway.routes c' d t surface unserved
          (ap
              (λ h.
                (resolve_domain env.domain (identity_url s.gateway) (strip_host_port h) now d).0)
              host
            ∙ known)
          declared scoped)

  after_cors-agrees :
      (c' : Context) (f : Flow) (s : Server)
      → (after_cors env settings now f s).0 ≡ next c'
      → (c : Context) × (f ≡ next c)
        × (AgreesWithHost c'
            × (c'.host_tenant
                ≡ (rewrite_host env settings now (strip_spoofed_headers c) s).0.host_tenant))
  unfolding approach
  after_cors-agrees c' (abort r) s h = cc
  after_cors-agrees c' (next c) s h =
      let p = rewrite_host env settings now (strip_spoofed_headers c) s in
      let (passed, agrees) =
        then_host_tenant-next env settings now c' (auth_split env settings now p.0 p.1) h in
      let (who, kept) = auth_split-IsRequestOf env settings now p.0 c' p.1 passed in
      (c, refl, (agrees, ap (λ (x : Context). x.host_tenant) kept))

  -- A request on a hostname that belongs to a tenant, for a surface whose tenant is the session's,
  -- under a path that nothing serves: when the middleware lets it through with a known caller, the
  -- caller is of the tenant of the hostname.
  pub arrive-tenant :
      (c c' : Context) (s : Server) (t : ResolvedDomain) (surface : DomainSurface) (id : Identity)
      → IsOnDomain c s t
      → IsUnserved (beyond_product_hosts c s) s
      → find_domain_surface t.surface s.gateway.registry ≡ some surface
      → surface.session_scoped ≡ true
      → (arrive env settings now c s).0 ≡ next c'
      → c'.identity ≡ some id
      → id.tenant_id ≡ t.tenant_id
  unfolding arrive
  arrive-tenant c c' s t surface id domain unserved declared scoped h caller =
      let (c0, passed, (agrees, tenant)) = after_cors-agrees c' (cors_step settings.cors c).1 s h in
      let same = cors_step-next settings.cors c c0 passed in
      agrees id t.tenant_id caller (
        tenant
        ∙ ap (λ x. (rewrite_host env settings now (strip_spoofed_headers x) s).0.host_tenant) same
        ∙ rewrite_host-tenant c s t surface domain unserved declared scoped)
