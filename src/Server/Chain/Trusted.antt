-- ===== src/Server/Chain/Trusted.antt =====
-- No header of the gateway's family is handed to the reverse proxy with what a client wrote.
use apicorex.Base.{
  ℕ, ◌≡◌, ◌≢◌, refl, ap, ◌∙◌, false, Option, none, some, List, [], ◌++◌, arith, In, All, All-In,
  Bool-cases, Option-cases, inl, inr,
}
use apicorex.Text.{Bytes, ◌==◌, lit, is_empty, to_lower, trim_suffix}
use apicorex.Text.Laws.{==_iff}
use apicorex.Map.{lookup}
use apicorex.Http.{Headers, Identity, Context, next, canonical, get_header, first_value, without}
use apicorex.Http.Laws.{first_value-without, first_value-cons}
use apicorex.Manifest.{DomainSurface}
use apicorex.Registry.{Registry, PluginEntry}
use apicorex.Auth.Cache.{Answer, resolved, failed}
use apicorex.Auth.Domain.{ResolvedDomain, DomainResolver}
use apicorex.Middleware.Cors.{cors_step}
use apicorex.Middleware.Tenant.{
  apicorex_headers, header_host_prefix, header_request_id, client_request_id, strip_spoofed_headers,
  inject_forwarded_host,
}
use apicorex.Middleware.Tenant.Trust.{trusted, strip-absent, injected-trusted}
use apicorex.Dispatcher.Routes.{RouteEntry, is_routable}
use apicorex.Dispatcher.Gateway.{Gateway}
use apicorex.Dispatcher.Dispatch
use apicorex.Dispatcher.Dispatch.{with_request_id, schema_for, nav_for, forwarded}
use apicorex.Protection.Firewall.{is_route_blocked}
use apicorex.Server.HostPort.{strip_host_port}
use apicorex.Server.ProductHosts.{move_below, product_host_rewrite}
use apicorex.Server.CustomDomain.{
  rewrite_domain, apply_domain, find_domain_surface, resolve_custom_domain,
}
use apicorex.Server.Chain.{
  Settings, Env, Server, custom_domain, auth_split, rewrite_host, approach, arrive,
}
use apicorex.Server.Chain.Identified.{auth_split-IsRequestOf, then_host_tenant-next}

-- What a request has under a key.
abbrev at : Bytes → Context → Bytes
at k c = first_value k c.request.headers

module _ (k : Bytes) (apart : k ≢ canonical header_host_prefix) where
  move_below-at : (prefix path : Bytes) (c : Context) → at k (move_below prefix path c) ≡ at k c
  move_below-at prefix path c =
      first_value-cons (canonical header_host_prefix) k prefix
        (without (canonical header_host_prefix) c.request.headers)
      ∙ ground (
        arith,
        first_value-without (canonical header_host_prefix) k c.request.headers,
        ==_iff (canonical header_host_prefix) k,
      )

  product_host_rewrite-at :
      (hosts : List (Bytes × Bytes)) (routes : List RouteEntry) (c : Context)
      → at k (product_host_rewrite hosts routes c) ≡ at k c
  unfolding product_host_rewrite
  product_host_rewrite-at hosts routes c =
      elim (Bool-cases (is_routable c.request.method c.request.path routes)) [
        | inl served ↦ rw served refl
        | inr other ↦ elim (Bool-cases (is_route_blocked c.request.path)) [
          | inl blocked ↦ rw (other, blocked) refl
          | inr free ↦
              elim (Option-cases (lookup (to_lower (strip_host_port c.request.host)) hosts)) [
                | inl unknown ↦ rw (other, free, unknown) refl
                | inr (prefix, known) ↦
                    rw (other, free, known)
                      (move_below-at prefix (prefix ++ trim_suffix c.request.path (lit "/")) c)
              ]
        ]
      ]

  rewrite_domain-at :
      (d : ResolvedDomain) (o : Option DomainSurface) (c : Context)
      → at k (rewrite_domain d o c) ≡ at k c
  rewrite_domain-at d none c = refl
  rewrite_domain-at d (some s) c = elim (Bool-cases s.session_scoped) [
    | inl scoped ↦
        rw scoped
          (move_below-at s.path_prefix (s.path_prefix ++ trim_suffix c.request.path (lit "/")) c)
    | inr plain ↦ rw plain refl
  ]

  apply_domain-at :
      (a : Answer ResolvedDomain) (reg : Registry) (c : Context)
      → at k (apply_domain a reg c) ≡ at k c
  apply_domain-at (failed e) reg c = refl
  apply_domain-at (resolved d) reg c = rewrite_domain-at d (find_domain_surface d.surface reg) c

  module _ (env : Env) (settings : Settings) (now : ℕ) where
    custom_domain-at :
        (c : Context) (s : Server) (o : Option DomainResolver)
        → at k (custom_domain env settings now c s o).0 ≡ at k c
    unfolding resolve_custom_domain
    custom_domain-at c s none = refl
    custom_domain-at c s (some d) =
        elim (Bool-cases (is_routable c.request.method c.request.path s.gateway.routes)) [
          | inl served ↦ rw served refl
          | inr other ↦ rw other (apply_domain-at _ s.gateway.registry c)
        ]

    rewrite_host-at :
        (c : Context) (s : Server) → at k (rewrite_host env settings now c s).0 ≡ at k c
    unfolding rewrite_host
    rewrite_host-at c s =
        custom_domain-at (product_host_rewrite settings.product_hosts s.gateway.routes c) s
          s.resolver
        ∙ product_host_rewrite-at settings.product_hosts s.gateway.routes c

    approach-at :
        (c c' : Context) (s : Server)
        → (approach env settings now c s).0 ≡ next c'
        → at k c' ≡ at k (strip_spoofed_headers c)
    unfolding approach
    approach-at c c' s h =
        let p = rewrite_host env settings now (strip_spoofed_headers c) s in
        let (passed, agrees) =
          then_host_tenant-next env settings now c' (auth_split env settings now p.0 p.1) h in
        let (who, same) = auth_split-IsRequestOf env settings now p.0 c' p.1 passed in
        ap (λ (x : Context). at k x) same ∙ rewrite_host-at (strip_spoofed_headers c) s

    arrive-at :
        (c c' : Context) (s : Server)
        → (arrive env settings now c s).0 ≡ next c'
        → at k c' ≡ at k (strip_spoofed_headers c)
    unfolding arrive cors_step
    arrive-at c c' s h = elim (Bool-cases (c.request.method == lit "OPTIONS")) [
      | inl preflight ↦ cc (rw preflight at h)
      | inr plain ↦ approach-at c c' s (rw plain at h)
    ]

-- The name under which a client sends its own id for a request is none of the family's.
client_request_id-apart :
    All (λ k. (canonical client_request_id == canonical k) ≡ false) apicorex_headers
unfolding canonical ◌==◌
client_request_id-apart = (
  refl,
  (
    refl,
    (
      refl,
      (
        refl,
        (
          refl,
          (
            refl,
            (
              refl,
              (
                refl,
                (
                  refl,
                  (
                    refl,
                    (refl, (refl, (refl, (refl, (refl, (refl, (refl, (refl, (refl, tt))))))))),
                  ),
                ),
              ),
            ),
          ),
        ),
      ),
    ),
  ),
)

with_request_id-at :
    (env : Dispatch.Env) (k : Bytes) (c : Context)
    → (canonical client_request_id == k) ≡ false
    → at k (with_request_id env c) ≡ at k c
unfolding with_request_id
with_request_id-at env k c apart =
    elim (Bool-cases (is_empty (get_header client_request_id c.request.headers))) [
      | inr sent ↦ rw sent refl
      | inl absent ↦ rw absent (
          first_value-cons (canonical client_request_id) k env.fresh_id
            (without (canonical client_request_id) c.request.headers)
          ∙ ground (
            arith,
            first_value-without (canonical client_request_id) k c.request.headers,
            ==_iff (canonical client_request_id) k,
          ))
    ]

with_request_id-same :
    (env : Dispatch.Env) (c : Context)
    → ((with_request_id env c).identity ≡ c.identity)
      × ((with_request_id env c).request.host ≡ c.request.host)
unfolding with_request_id
with_request_id-same env c =
    elim (Bool-cases (is_empty (get_header client_request_id c.request.headers))) [
      | inr sent ↦ rw sent (refl, refl)
      | inl absent ↦ rw absent (refl, refl)
    ]

-- If the library that adds the trace headers leaves a header of the family alone, which is neither
-- the request id nor the host prefix, then a request that the middleware lets through is handed to
-- the reverse proxy with the value for it that the gateway decides, whatever headers the client sent
-- and however it spelled the names.
pub forwarded-trusted :
    (env : Env) (settings : Settings) (now : ℕ) (c c' : Context) (s : Server) (entry : RouteEntry)
    (pe : PluginEntry) (g : Gateway) (name k : Bytes)
    → (arrive env settings now c s).0 ≡ next c'
    → In k apicorex_headers
    → canonical name ≡ canonical k
    → canonical name ≢ canonical header_request_id
    → canonical name ≢ canonical header_host_prefix
    → ((h : Headers) → get_header name (env.proxy.inject_trace h) ≡ get_header name h)
    → get_header name (forwarded env.proxy entry pe g (with_request_id env.proxy c')).headers
      ≡ trusted
          (canonical name)
          (schema_for env.proxy entry pe c'.identity)
          (nav_for env.proxy g
            (inject_forwarded_host (with_request_id env.proxy c')).request
            c'.identity)
          c'.identity
          c'.request.host
unfolding forwarded
forwarded-trusted env settings now c c' s entry pe g name k passed listed spelled id prefix traced =
    let c'' = with_request_id env.proxy c' in
    let k' = canonical name in
    let (same_id, same_host) = with_request_id-same env.proxy c' in
    let other : (canonical client_request_id == k') ≡ false =
      ap (λ (j : Bytes). canonical client_request_id == j) spelled
      ∙ All-In (λ j. (canonical client_request_id == canonical j) ≡ false) k apicorex_headers
          client_request_id-apart listed in
    let absent : at k' c'' ≡ [] =
      with_request_id-at env.proxy k' c' other
      ∙ arrive-at k' prefix env settings now c c' s passed
      ∙ strip-absent name k c listed spelled in
    let value : Option Identity → Bytes = λ who.
      trusted k' (schema_for env.proxy entry pe who)
        (nav_for env.proxy g (inject_forwarded_host c'').request who) who c''.request.host in
    traced _
    ∙ injected-trusted k' (schema_for env.proxy entry pe c''.identity)
        (nav_for env.proxy g (inject_forwarded_host c'').request c''.identity) c'' id absent
    ∙ ap value same_id
    ∙ ap
        (trusted k' (schema_for env.proxy entry pe c'.identity)
          (nav_for env.proxy g (inject_forwarded_host c'').request c'.identity) c'.identity)
        same_host
