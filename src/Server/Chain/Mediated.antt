-- ===== src/Server/Chain/Mediated.antt =====
-- The whole chain: what holds when a plugin is called.
use apicorex.Base.{ℕ, ◌≡◌, refl, sym, subst, ◌∙◌, Option, none, some, Bool-cases, inl, inr}
use apicorex.Text.{is_empty}
use apicorex.Http.{Request, Context, Flow, next, abort, get_header}
use apicorex.Registry.{PluginEntry}
use apicorex.Auth.Introspect.{Introspector}
use apicorex.Middleware.Cors.{cors_step}
use apicorex.Middleware.Tenant.{strip_spoofed_headers, client_request_id}
use apicorex.Dispatcher.Routes.{RouteEntry, is_public_route}
use apicorex.Dispatcher.Gateway.{Gateway}
use apicorex.Dispatcher.Dispatch
use apicorex.Dispatcher.Dispatch.{Decision, reject, forward, admit, with_request_id, dispatch}
use apicorex.Dispatcher.Dispatch.Mediation.{IsAdmitted}
use apicorex.Dispatcher.Dispatch.Admission.{admit-forward_iff}
use apicorex.Dispatcher.Dispatch.Layers.{Decision-cases}
use apicorex.Server.Chain.{
  Settings, Env, Server, is_core_path, identify, protect, auth_split, rewrite_host,
  then_host_tenant, approach, after_cors, arrive, dispatched, then_dispatch, serve,
}
use apicorex.Server.Chain.Identified.{
  AgreesWithHost, IsIdentified, rewrite_host-same, arrive-IsIdentified,
}

-- The id that Dispatch gives a request does not change what is decided about it.
with_request_id-IsAdmitted :
    (env : Dispatch.Env) (now : ℕ) (c : Context) (g : Gateway) (entry : RouteEntry)
    (pe : PluginEntry)
    → IsAdmitted now (with_request_id env c) g entry pe
    → IsAdmitted now c g entry pe
unfolding with_request_id
with_request_id-IsAdmitted env now c g entry pe h =
    elim (Bool-cases (is_empty (get_header client_request_id c.request.headers))) [
      | inl missing ↦ rw (missing, with_request_id) at h
      | inr given ↦ rw (given, with_request_id) at h
    ]

pub dispatch-decision :
    (env : Dispatch.Env) (now later : ℕ) (c : Context) (g : Gateway)
    → (dispatch env now later c g).0.0 ≡ (admit now (with_request_id env c) g).0
unfolding dispatch
dispatch-decision env now later c g =
    elim (Decision-cases (admit now (with_request_id env c) g).0) [
      | inl (status, err, retry, refused) ↦ rw (refused, dispatch) refl
      | inr (entry, pe, sent) ↦ rw (sent, dispatch) refl
    ]

module _ (env : Env) (settings : Settings) (now : ℕ) where
  protect-gateway :
      (c : Context) (s : Server) (o : Option Introspector)
      → (protect env settings now c s o).1.gateway ≡ s.gateway
  protect-gateway c s none = refl
  protect-gateway c s (some i) = refl

  identify-gateway :
      (c : Context) (s : Server) (o : Option Introspector)
      → (identify env settings now c s o).1.gateway ≡ s.gateway
  identify-gateway c s none = refl
  identify-gateway c s (some i) = refl

  auth_split-gateway :
      (c : Context) (s : Server) → (auth_split env settings now c s).1.gateway ≡ s.gateway
  unfolding auth_split
  auth_split-gateway c s = elim (Bool-cases (is_core_path c.request.path)) [
    | inl core ↦ rw (core, auth_split) refl
    | inr other ↦
        elim (Bool-cases (is_public_route c.request.method c.request.path s.gateway.routes)) [
          | inl open_to_all ↦
              rw (other, open_to_all, auth_split) (identify-gateway c s s.introspector)
          | inr guarded ↦ rw (other, guarded, auth_split) (protect-gateway c s s.introspector)
        ]
  ]

  then_host_tenant-gateway :
      (p : Flow × Server) → (then_host_tenant env settings now p).1.gateway ≡ p.1.gateway
  then_host_tenant-gateway (abort r, s) = refl
  then_host_tenant-gateway (next c, s) = refl

  after_cors-gateway :
      (f : Flow) (s : Server) → (after_cors env settings now f s).1.gateway ≡ s.gateway
  unfolding approach
  after_cors-gateway (abort r) s = refl
  after_cors-gateway (next c) s =
      let p = rewrite_host env settings now (strip_spoofed_headers c) s in
      then_host_tenant-gateway (auth_split env settings now p.0 p.1)
      ∙ auth_split-gateway p.0 p.1
      ∙ (rewrite_host-same env settings now (strip_spoofed_headers c) s).0

  -- Until Dispatch the gateway itself is as it was: the middleware changes only the caches of the
  -- clients of Identity.
  pub arrive-gateway :
      (c : Context) (s : Server) → (arrive env settings now c s).1.gateway ≡ s.gateway
  unfolding arrive
  arrive-gateway c s = after_cors-gateway (cors_step settings.cors c).1 s

  then_dispatch-dispatched :
      (later : ℕ) (p : Flow × Server) (d : Decision) (sent : Option (ℕ × Request))
      → (then_dispatch env settings now later p).0 ≡ dispatched d sent
      → (c : Context) × (p.0 ≡ next c)
        × ((admit now (with_request_id env.proxy c) p.1.gateway).0 ≡ d)
  then_dispatch-dispatched later (abort r, s) d sent h = cc
  then_dispatch-dispatched later (next c, s) d sent h =
      (c, refl, sym (dispatch-decision env.proxy now later c s.gateway) ∙ cc)

  -- When a plugin is called for a request, with authentication configured, then the middleware let
  -- the request through as some request `c'`; `c'` passed every check of Dispatch along the route
  -- and to the plugin; its path is one of the server itself, or its route is public, or its token
  -- was resolved by Identity and the caller is who it was resolved to; and a caller who is known is
  -- of the tenant that the hostname named, if it named one.
  pub serve-IsMediated :
      (later : ℕ) (c : Context) (s : Server) (i : Introspector) (entry : RouteEntry)
      (pe : PluginEntry) (sent : Option (ℕ × Request))
      → s.introspector ≡ some i
      → (serve env settings now later c s).0 ≡ dispatched (forward entry pe) sent
      → (c' : Context) × ((arrive env settings now c s).0 ≡ next c')
        × (IsAdmitted now c' s.gateway entry pe
            × (IsIdentified env settings now c' s.gateway i × AgreesWithHost c'))
  unfolding serve
  serve-IsMediated later c s i entry pe sent present h =
      let (c', arrived, decided) =
        then_dispatch-dispatched later (arrive env settings now c s) (forward entry pe) sent h in
      let admitted =
        subst (λ g. IsAdmitted now (with_request_id env.proxy c') g entry pe) (arrive-gateway c s)
          ((admit-forward_iff now (with_request_id env.proxy c')
              (arrive env settings now c s).1.gateway entry pe).0
            decided) in
      (
        c',
        arrived,
        (
          with_request_id-IsAdmitted env.proxy now c' s.gateway entry pe admitted,
          arrive-IsIdentified env settings now c c' s i present arrived,
        ),
      )
