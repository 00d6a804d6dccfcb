-- ===== src/Server/Chain/Identified.antt =====
-- What is known of a request when it reaches a plugin.
use apicorex.Base.{
  ℕ, ◌≡◌, ◌⊎◌, refl, sym, ap, subst, ◌∙◌, true, Option, none, some, arith, Bool-cases, Option-cases,
  inl, inr,
}
use apicorex.Text.{Bytes}
use apicorex.Text.Laws.{==_iff}
use apicorex.Http.{Identity, Context, Flow, next, abort}
use apicorex.Auth.Cache.{Answer, resolved, failed}
use apicorex.Auth.Introspect.{Introspector}
use apicorex.Middleware.Cors.{cors_step}
use apicorex.Middleware.Tenant.{strip_spoofed_headers}
use apicorex.Middleware.Auth
use apicorex.Middleware.Auth.{optional_auth, device_token, resolve_token, adopt}
use apicorex.Middleware.Auth.Gate.{resolution, Resolves, auth-next_iff}
use apicorex.Dispatcher.Routes.{is_public_route}
use apicorex.Dispatcher.Gateway.{Gateway}
use apicorex.Server.CustomDomain.{require_host_tenant}
use apicorex.Server.Chain.{
  Settings, Env, Server, is_core_path, identity_url, identify, protect, auth_split, rewrite_host,
  then_host_tenant, approach, after_cors, arrive,
}

-- A caller who is known belongs to the tenant that the hostname named, if it named one.
abbrev pub AgreesWithHost : Context → Type 0
AgreesWithHost c =
    (id : Identity) (t : Bytes) → c.identity ≡ some id → c.host_tenant ≡ some t → id.tenant_id ≡ t

-- A path through requireHostTenant leaves the request as it is, and the caller, if there is one, is
-- of the tenant that the hostname named, if it named one.
require_host_tenant-next :
    (c c' : Context) → require_host_tenant c ≡ next c' → (c' ≡ c) × AgreesWithHost c
unfolding require_host_tenant
require_host_tenant-next c c' h = (
  elim (Option-cases c.host_tenant) [
    | inl none_named ↦ ground arith
    | inr (t, named) ↦ ground arith
  ],
  λ id t known named. ground (arith, ==_iff id.tenant_id t),
)

-- The same request, of a caller who may be another.
abbrev pub IsRequestOf : Context → Context → Type 0
IsRequestOf c c' = (who : Option Identity) × (c' ≡ record c { identity = who })

adopt-IsRequestOf :
    (env : Auth.Env) (c : Context) (a : Answer Identity) → IsRequestOf c (adopt env c a)
adopt-IsRequestOf env c (resolved id) = (some id, refl)
adopt-IsRequestOf env c (failed e) = (c.identity, refl)

optional_auth-IsRequestOf :
    (env : Auth.Env) (base_url : Option Bytes) (now : ℕ) (c : Context) (i : Introspector)
    → IsRequestOf c (optional_auth env base_url now c i).0
unfolding optional_auth
optional_auth-IsRequestOf env base_url now c i =
    elim (Option-cases (device_token env c.request.headers)) [
      | inl absent ↦ rw (absent, optional_auth) (c.identity, refl)
      | inr (token, found) ↦
          rw (found, optional_auth)
            (elim (Option-cases (resolve_token env base_url token c.request.headers now i)) [
              | inl unknown ↦ rw unknown (c.identity, refl)
              | inr ((answer, i'), known) ↦ rw known (adopt-IsRequestOf env c answer)
            ])
    ]

module _ (env : Env) (settings : Settings) (now : ℕ) where
  pub rewrite_host-same :
      (c : Context) (s : Server)
      → ((rewrite_host env settings now c s).1.gateway ≡ s.gateway)
        × ((rewrite_host env settings now c s).1.introspector ≡ s.introspector)
  unfolding rewrite_host
  rewrite_host-same c s = elim (Option-cases s.resolver) [
    | inl absent ↦ rw (absent, rewrite_host) (refl, refl)
    | inr (d, present) ↦ rw (present, rewrite_host) (refl, refl)
  ]

  -- How the request came past the split: its path is one of the server's own, its route is public,
  -- or its token was resolved.
  abbrev pub IsIdentified : Context → Gateway → Introspector → Type 0
  IsIdentified c g i =
      (is_core_path c.request.path ≡ true)
      ⊎ ((is_public_route c.request.method c.request.path g.routes ≡ true)
          ⊎ ((id : Identity) × (c.identity ≡ some id)
              × Resolves env.auth settings.login_url (identity_url g) now c i (resolved id)))

  identify-IsRequestOf :
      (c : Context) (s : Server) (o : Option Introspector)
      → IsRequestOf c (identify env settings now c s o).0
  identify-IsRequestOf c s none = (c.identity, refl)
  identify-IsRequestOf c s (some i) =
      optional_auth-IsRequestOf env.auth (identity_url s.gateway) now c i

  protect-IsRequestOf :
      (c c' : Context) (s : Server) (o : Option Introspector)
      → (protect env settings now c s o).0 ≡ next c'
      → IsRequestOf c c'
  protect-IsRequestOf c c' s none h = (c.identity, cc)
  protect-IsRequestOf c c' s (some i) h =
      let (id, how, new) =
        (auth-next_iff env.auth settings.login_url (identity_url s.gateway) now c i c').0 h in
      (some id, new)

  -- The authentication changes nothing of a request but its caller.
  pub auth_split-IsRequestOf :
      (c c' : Context) (s : Server)
      → (auth_split env settings now c s).0 ≡ next c'
      → IsRequestOf c c'
  unfolding auth_split
  auth_split-IsRequestOf c c' s h = elim (Bool-cases (is_core_path c.request.path)) [
    | inl core ↦ let same : c ≡ c' = cc (rw core at h) in (c.identity, sym same)
    | inr other ↦
        elim (Bool-cases (is_public_route c.request.method c.request.path s.gateway.routes)) [
          | inl open_to_all ↦
              let same : (identify env settings now c s s.introspector).0 ≡ c' =
                cc (rw (other, open_to_all) at h) in
              subst (λ x. IsRequestOf c x) same (identify-IsRequestOf c s s.introspector)
          | inr guarded ↦ protect-IsRequestOf c c' s s.introspector (rw (other, guarded) at h)
        ]
  ]

  auth_split-next :
      (c c' : Context) (s : Server) (i : Introspector)
      → s.introspector ≡ some i
      → (auth_split env settings now c s).0 ≡ next c'
      → IsIdentified c' s.gateway i
  unfolding auth_split resolution
  auth_split-next c c' s i present h = elim (Bool-cases (is_core_path c.request.path)) [
    | inl core ↦ let same : c ≡ c' = cc (rw core at h) in inl (rw (← same) core)
    | inr other ↦
        elim (Bool-cases (is_public_route c.request.method c.request.path s.gateway.routes)) [
          | inl open_to_all ↦
              let same : (identify env settings now c s s.introspector).0 ≡ c' =
                cc (rw (other, open_to_all) at h) in
              let (who, kept) =
                subst (λ x. IsRequestOf c x) same (identify-IsRequestOf c s s.introspector) in
              inr (
                inl (
                  ap
                    (λ (x : Context).
                      is_public_route x.request.method x.request.path s.gateway.routes)
                    kept
                  ∙ open_to_all))
          | inr guarded ↦
              let passed =
                subst (λ o. (protect env settings now c s o).0 ≡ next c') present
                  (rw (other, guarded) at h) in
              let (id, (i', how), new) =
                (auth-next_iff env.auth settings.login_url (identity_url s.gateway) now c i c').0
                  passed in
              inr (
                inr (
                  id,
                  ap (λ (x : Context). x.identity) new,
                  subst
                      (λ (x : Context).
                        Resolves env.auth settings.login_url (identity_url s.gateway) now x i
                          (resolved id))
                      (sym new) (i', how),
                ))
        ]
  ]

  pub then_host_tenant-next :
      (c' : Context) (p : Flow × Server)
      → (then_host_tenant env settings now p).0 ≡ next c'
      → (p.0 ≡ next c') × AgreesWithHost c'
  then_host_tenant-next c' (abort r, s) h = cc
  then_host_tenant-next c' (next c, s) h =
      let (same, agrees) = require_host_tenant-next c c' h in
      (ap next (sym same), subst (λ x. AgreesWithHost x) (sym same) agrees)

  -- From the strip of the headers to Dispatch: the caller is known as the middleware knows them.
  approach-next :
      (c c' : Context) (s : Server) (i : Introspector)
      → s.introspector ≡ some i
      → (approach env settings now c s).0 ≡ next c'
      → IsIdentified c' s.gateway i × AgreesWithHost c'
  unfolding approach
  approach-next c c' s i present h =
      let p = rewrite_host env settings now (strip_spoofed_headers c) s in
      let (kept, clients) = rewrite_host-same (strip_spoofed_headers c) s in
      let (passed, agrees) = then_host_tenant-next c' (auth_split env settings now p.0 p.1) h in
      (
        subst (λ g. IsIdentified c' g i) kept
            (auth_split-next p.0 c' p.1 i (clients ∙ present) passed),
        agrees,
      )

  after_cors-next :
      (c' : Context) (f : Flow) (s : Server) (i : Introspector)
      → s.introspector ≡ some i
      → (after_cors env settings now f s).0 ≡ next c'
      → IsIdentified c' s.gateway i × AgreesWithHost c'
  after_cors-next c' (abort r) s i present h = cc
  after_cors-next c' (next c) s i present h = approach-next c c' s i present h

  -- A request that reaches Dispatch, with authentication configured, is one for a path of the
  -- server itself, or for a public route, or its token was resolved by Identity and the caller is
  -- who it was resolved to; and a caller who is known is of the tenant that the hostname named, if
  -- it named one.
  pub arrive-IsIdentified :
      (c c' : Context) (s : Server) (i : Introspector)
      → s.introspector ≡ some i
      → (arrive env settings now c s).0 ≡ next c'
      → IsIdentified c' s.gateway i × AgreesWithHost c'
  unfolding arrive
  arrive-IsIdentified c c' s i present h =
      after_cors-next c' (cors_step settings.cors c).1 s i present h
