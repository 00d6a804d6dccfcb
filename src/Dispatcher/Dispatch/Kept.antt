-- ===== src/Dispatcher/Dispatch/Kept.antt =====
-- What Dispatch does not change: the route table, the plugins on file and the limit of the bulkhead.
use apicorex.Base.{
  ℕ, ◌≡◌, refl, ◌∙◌, Bool, Option, none, some, ◌++◌, leb, ltb, Bool-cases, Option-cases, inl, inr,
}
use apicorex.Text.{Bytes, lit, is_empty}
use apicorex.Map.{lookup, insert}
use apicorex.Http.{Context}
use apicorex.Registry.{PluginEntry, get}
use apicorex.Registry.Maintenance.{maintenance_for}
use apicorex.Registry.Maintenance.OnFile.{maintenance_for-plugins}
use apicorex.Protection.Firewall.{is_route_blocked}
use apicorex.Protection.CircuitBreaker
use apicorex.Protection.Bulkhead.{Bulkhead, active_of, acquire, release}
use apicorex.Protection.RateLimiter
use apicorex.Protection.RateLimiter.{RateLimiter}
use apicorex.Dispatcher.Routes.{RouteEntry, match}
use apicorex.Dispatcher.Gateway.{Gateway}
use apicorex.Dispatcher.Dispatch.{
  Env, pass_breaker, pass_bulkhead, tenant_of, pass_tenant_limit, pass_plugin_limit, pass_limits,
  pass_maintenance, pass_registry, is_forbidden, pass_authorization, admit, with_request_id, finish,
  dispatch,
}
use apicorex.Dispatcher.Dispatch.Layers.{Decision-cases}

-- The routes, the plugins and the bulkhead's limit of a gateway are those of another.
abbrev pub Keeps : Gateway → Gateway → Type 0
Keeps g g' =
    (g'.routes ≡ g.routes)
    × (g'.registry.plugins ≡ g.registry.plugins)
    × (g'.bulkhead.max_conc ≡ g.bulkhead.max_conc)

pub acquire-limit : (id : Bytes) (b : Bulkhead) → (acquire id b).1.max_conc ≡ b.max_conc
unfolding acquire
acquire-limit id b = elim (Bool-cases (leb b.max_conc (active_of id b))) [
  | inl full ↦ simp full refl
  | inr free ↦ simp free refl
]

pub release-limit : (id : Bytes) (b : Bulkhead) → (release id b).max_conc ≡ b.max_conc
unfolding release
release-limit id b = elim (Bool-cases (ltb 0 (active_of id b))) [
  | inl used ↦ simp used refl
  | inr unused ↦ simp unused refl
]

module _ (now : ℕ) (entry : RouteEntry) (pe : PluginEntry) where
  bulkhead-Keeps : (g : Gateway) → Keeps g (pass_bulkhead now entry pe g).1
  unfolding pass_bulkhead pass_breaker
  bulkhead-Keeps g =
      let taken = acquire-limit entry.plugin_id g.bulkhead in
      elim (Bool-cases (acquire entry.plugin_id g.bulkhead).0) [
        | inr full ↦ simp full (refl, refl, taken)
        | inl free ↦ elim (Bool-cases (CircuitBreaker.allow entry.plugin_id now g.breaker).0) [
          | inl closed ↦ simp (free, closed) (refl, refl, taken)
          | inr tripped ↦
              simp (free, tripped)
                (
                  refl,
                  refl,
                  release-limit entry.plugin_id (acquire entry.plugin_id g.bulkhead).1 ∙ taken,
                )
        ]
      ]

  module _ (c : Context) where
    tenant_limit-Keeps :
        (trl : Option RateLimiter) (g : Gateway)
        → Keeps g (pass_tenant_limit now c entry pe trl g).1
    tenant_limit-Keeps none g = bulkhead-Keeps g
    tenant_limit-Keeps (some trl) g =
        let key = entry.plugin_id ++ (lit ":" ++ tenant_of c.identity) in
        let g' = record g {
          tenant_rl = insert entry.plugin_id (RateLimiter.allow key now trl).1 g.tenant_rl;
        } in
        elim (Bool-cases (is_empty (tenant_of c.identity))) [
          | inl anonymous ↦ rw anonymous (bulkhead-Keeps g)
          | inr known ↦ elim (Bool-cases (RateLimiter.allow key now trl).0) [
            | inl ok ↦ rw (known, ok) (bulkhead-Keeps g')
            | inr over ↦ rw (known, over) (refl, refl, refl)
          ]
        ]

    plugin_limit-Keeps :
        (rl : Option RateLimiter) (g : Gateway) → Keeps g (pass_plugin_limit now c entry pe rl g).1
    plugin_limit-Keeps none g = tenant_limit-Keeps (lookup entry.plugin_id g.tenant_rl) g
    plugin_limit-Keeps (some rl) g =
        let g' = record g {
          plugin_rl =
              insert entry.plugin_id (RateLimiter.allow entry.plugin_id now rl).1 g.plugin_rl;
        } in
        elim (Bool-cases (RateLimiter.allow entry.plugin_id now rl).0) [
          | inl ok ↦ rw ok (tenant_limit-Keeps (lookup entry.plugin_id g.tenant_rl) g')
          | inr over ↦ rw over (refl, refl, refl)
        ]

    maintenance-Keeps : (g : Gateway) → Keeps g (pass_maintenance now c entry pe g).1
    unfolding pass_maintenance pass_limits
    maintenance-Keeps g =
        let reg = (maintenance_for entry.plugin_name now g.registry).1 in
        let same = maintenance_for-plugins entry.plugin_name now g.registry in
        elim (Option-cases (maintenance_for entry.plugin_name now g.registry).0) [
          | inr (w, opened) ↦ rw (opened, pass_maintenance) (refl, same, refl)
          | inl closed ↦
              let (routes, plugins, limit) =
                plugin_limit-Keeps (lookup entry.plugin_id g.plugin_rl)
                  (record g { registry = reg }) in
              rw (closed, pass_maintenance) (routes, plugins ∙ same, limit)
        ]

registry-Keeps :
    (now : ℕ) (c : Context) (entry : RouteEntry) (g : Gateway)
    → Keeps g (pass_registry now c entry g).1
unfolding pass_registry
registry-Keeps now c entry g = elim (Option-cases (get entry.plugin_id g.registry)) [
  | inl absent ↦ rw (absent, pass_registry) (refl, refl, refl)
  | inr (pe, found) ↦ elim (Bool-cases pe.alive) [
    | inl up ↦ rw (found, pass_registry) (simp up (maintenance-Keeps now entry pe c g))
    | inr down ↦ rw (found, pass_registry) (simp down (refl, refl, refl))
  ]
]

pub admit-Keeps : (now : ℕ) (c : Context) (g : Gateway) → Keeps g (admit now c g).1
unfolding admit pass_authorization
admit-Keeps now c g = elim (Bool-cases (is_route_blocked c.request.path)) [
  | inl blocked ↦ rw (blocked, admit) (refl, refl, refl)
  | inr free ↦ elim (Option-cases (match c.request.method c.request.path g.routes)) [
    | inl absent ↦ rw (free, absent, admit) (refl, refl, refl)
    | inr (entry, found) ↦ elim (Bool-cases (is_forbidden c entry)) [
      | inl refused ↦ rw (free, found, admit) (rw (refused, pass_authorization) (refl, refl, refl))
      | inr allowed ↦
          rw (free, found, admit) (rw (allowed, pass_authorization) (registry-Keeps now c entry g))
    ]
  ]
]

-- The end of a request leaves them as they are, too.
pub finish-Keeps :
    (env : Env) (now : ℕ) (entry : RouteEntry) (websocket : Bool) (status : ℕ) (g : Gateway)
    → Keeps g (finish env now entry websocket status g)
unfolding finish
finish-Keeps env now entry websocket status g =
    (refl, refl, release-limit entry.plugin_id g.bulkhead)

-- Dispatch leaves the route table, the plugins on file and the bulkhead's limit as they are.
pub dispatch-Keeps :
    (env : Env) (now later : ℕ) (c : Context) (g : Gateway) → Keeps g (dispatch env now later c g).1
unfolding dispatch finish
dispatch-Keeps env now later c g =
    let c' = with_request_id env c in
    let (routes, plugins, limit) = admit-Keeps now c' g in
    elim (Decision-cases (admit now c' g).0) [
      | inl (status, err, retry, refused) ↦ rw (refused, dispatch) (routes, plugins, limit)
      | inr (entry, pe, sent) ↦
          rw (sent, dispatch)
            (routes, plugins, release-limit entry.plugin_id (admit now c' g).1.bulkhead ∙ limit)
    ]
