-- ===== src/Server/Chain/CorePath.antt =====
-- Paths that the server takes for its own.
use apicorex.Base.{ℕ, ◌≡◌, refl, sym, ap, true, false, Option, none, some, arith}
use apicorex.Text.{lit, ◌==◌}
use apicorex.Http.{Context, Flow, next}
use apicorex.Auth.Domain.{DomainResolver}
use apicorex.Middleware.Cors.{cors_step}
use apicorex.Middleware.Tenant.{strip_spoofed_headers}
use apicorex.Dispatcher.Routes.{is_routable}
use apicorex.Server.ProductHosts.{product_host_rewrite}
use apicorex.Server.CustomDomain.{resolve_custom_domain, require_host_tenant}
use apicorex.Server.Chain.{
  Settings, Env, Server, is_core_path, custom_domain, auth_split, rewrite_host, approach, arrive,
}

require_host_tenant-unnamed : (c : Context) → c.host_tenant ≡ none → require_host_tenant c ≡ next c
unfolding require_host_tenant
require_host_tenant-unnamed c unnamed = ground arith

module _ (env : Env) (settings : Settings) (now : ℕ) where
  custom_domain-routable :
      (c : Context) (s : Server) (o : Option DomainResolver)
      → s.resolver ≡ o
      → is_routable c.request.method c.request.path s.gateway.routes ≡ true
      → custom_domain env settings now c s o ≡ (c, s)
  unfolding resolve_custom_domain
  custom_domain-routable c s none present served = refl
  custom_domain-routable c s (some d) present served =
      rw (served, resolve_custom_domain)
        (ap (λ o. let q : Context × Server = (c, record s { resolver = o }) in q) (sym present))

  -- A request that a plugin's route serves under its own path is not rewritten by its host.
  rewrite_host-routable :
      (c : Context) (s : Server)
      → is_routable c.request.method c.request.path s.gateway.routes ≡ true
      → rewrite_host env settings now c s ≡ (c, s)
  unfolding rewrite_host product_host_rewrite
  rewrite_host-routable c s served =
      rw (served, product_host_rewrite) (custom_domain-routable c s s.resolver refl served)

  -- Paths under the server's own prefixes are not authenticated, although the prefixes end at no
  -- slash: a request other than a preflight that a plugin's route serves under such a path reaches
  -- Dispatch as it came, less the headers that are stripped, whatever the route and the token.
  pub arrive-core_path :
      (c : Context) (s : Server)
      → (c.request.method == lit "OPTIONS") ≡ false
      → is_routable c.request.method c.request.path s.gateway.routes ≡ true
      → is_core_path c.request.path ≡ true
      → c.host_tenant ≡ none
      → arrive env settings now c s ≡ (next (strip_spoofed_headers c), s)
  unfolding arrive approach auth_split cors_step strip_spoofed_headers
  arrive-core_path c s method served core unnamed =
      let c' = strip_spoofed_headers c in
      rw (method, cors_step)
        (rw (rewrite_host-routable c' s served) (
          rw (core, auth_split)
            (ap (λ f. let q : Flow × Server = (f, s) in q)
              (require_host_tenant-unnamed c' unnamed))))
