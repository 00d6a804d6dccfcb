-- ===== src/Server/Chain/Kept.antt =====
-- What a request leaves of the server: a client of Identity that is there stays there, and the
-- gateway is as Dispatch leaves it.
use apicorex.Base.{
  ℕ, ◌≡◌, ◌⊎◌, refl, sym, ap, ◌∙◌, Bool, true, false, Option, none, some, Bool-cases, inl, inr,
}
use apicorex.Http.{Context, Flow, next, abort}
use apicorex.Auth.Introspect.{Introspector}
use apicorex.Middleware.Cors.{cors_step}
use apicorex.Middleware.Tenant.{strip_spoofed_headers}
use apicorex.Dispatcher.Routes.{is_public_route}
use apicorex.Dispatcher.Dispatch.{dispatch}
use apicorex.Server.Chain.{
  Settings, Env, Server, is_core_path, identify, protect, auth_split, rewrite_host,
  then_host_tenant, approach, after_cors, arrive, then_dispatch, serve,
}
use apicorex.Server.Chain.Identified.{rewrite_host-same}
use apicorex.Server.Chain.Mediated.{arrive-gateway}

abbrev pub is_on : Option Introspector → Bool
is_on none = false
is_on (some _) = true

module _ (env : Env) (settings : Settings) (now : ℕ) where
  protect-on :
      (c : Context) (s : Server) (o : Option Introspector)
      → s.introspector ≡ o
      → is_on (protect env settings now c s o).1.introspector ≡ is_on s.introspector
  protect-on c s none e = refl
  protect-on c s (some i) e = ap is_on (sym e)

  identify-on :
      (c : Context) (s : Server) (o : Option Introspector)
      → s.introspector ≡ o
      → is_on (identify env settings now c s o).1.introspector ≡ is_on s.introspector
  identify-on c s none e = refl
  identify-on c s (some i) e = ap is_on (sym e)

  auth_split-on :
      (c : Context) (s : Server)
      → is_on (auth_split env settings now c s).1.introspector ≡ is_on s.introspector
  unfolding auth_split
  auth_split-on c s = elim (Bool-cases (is_core_path c.request.path)) [
    | inl core ↦ rw (core, auth_split) refl
    | inr other ↦
        elim (Bool-cases (is_public_route c.request.method c.request.path s.gateway.routes)) [
          | inl open_to_all ↦
              rw (other, open_to_all, auth_split) (identify-on c s s.introspector refl)
          | inr guarded ↦ rw (other, guarded, auth_split) (protect-on c s s.introspector refl)
        ]
  ]

  then_host_tenant-on :
      (p : Flow × Server)
      → is_on (then_host_tenant env settings now p).1.introspector ≡ is_on p.1.introspector
  then_host_tenant-on (abort r, s) = refl
  then_host_tenant-on (next c, s) = refl

  after_cors-on :
      (f : Flow) (s : Server)
      → is_on (after_cors env settings now f s).1.introspector ≡ is_on s.introspector
  unfolding approach
  after_cors-on (abort r) s = refl
  after_cors-on (next c) s =
      let p = rewrite_host env settings now (strip_spoofed_headers c) s in
      then_host_tenant-on (auth_split env settings now p.0 p.1)
      ∙ auth_split-on p.0 p.1
      ∙ ap is_on (rewrite_host-same env settings now (strip_spoofed_headers c) s).1

  pub arrive-on :
      (c : Context) (s : Server)
      → is_on (arrive env settings now c s).1.introspector ≡ is_on s.introspector
  unfolding arrive
  arrive-on c s = after_cors-on (cors_step settings.cors c).1 s

  then_dispatch-on :
      (later : ℕ) (p : Flow × Server)
      → is_on (then_dispatch env settings now later p).1.introspector ≡ is_on p.1.introspector
  then_dispatch-on later (abort r, s) = refl
  then_dispatch-on later (next c, s) = refl

  -- Authentication that is on before a request is on after it, and if it is off it stays off.
  pub serve-on :
      (later : ℕ) (c : Context) (s : Server)
      → is_on (serve env settings now later c s).1.introspector ≡ is_on s.introspector
  unfolding serve
  serve-on later c s = then_dispatch-on later (arrive env settings now c s) ∙ arrive-on c s

  then_dispatch-gateway :
      (later : ℕ) (p : Flow × Server)
      → ((then_dispatch env settings now later p).1.gateway ≡ p.1.gateway)
        ⊎ ((c : Context) × ((then_dispatch env settings now later p).1.gateway
              ≡ (dispatch env.proxy now later c p.1.gateway).1))
  then_dispatch-gateway later (abort r, s) = inl refl
  then_dispatch-gateway later (next c, s) = inr (c, refl)

  -- A request leaves the gateway as it is, or as Dispatch leaves it.
  pub serve-gateway :
      (later : ℕ) (c : Context) (s : Server)
      → ((serve env settings now later c s).1.gateway ≡ s.gateway)
        ⊎ ((c' : Context) × ((serve env settings now later c s).1.gateway
              ≡ (dispatch env.proxy now later c' s.gateway).1))
  unfolding serve
  serve-gateway later c s =
      let same = arrive-gateway env settings now c s in
      elim (then_dispatch-gateway later (arrive env settings now c s)) [
        | inl e ↦ inl (e ∙ same)
        | inr (c', e) ↦ inr (c', e ∙ ap (λ g. (dispatch env.proxy now later c' g).1) same)
      ]
