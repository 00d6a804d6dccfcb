-- ===== src/Dispatcher/Dispatch/Layers.antt =====
-- What a request has passed when it is forwarded, and what each outcome leaves behind.
use apicorex.Base.{
  ℕ, ◌+◌, ◌-◌, ◌≡◌, ◌⊎◌, refl, ap, ◌∙◌, Option, none, some, ◌++◌, arith, Bool-cases, Option-cases,
  inl, inr, if◌then◌else◌,
}
use apicorex.Text.{Bytes, lit, ◌==◌, is_empty}
use apicorex.Text.Laws.{==_iff}
use apicorex.Map.{lookup, insert}
use apicorex.Map.Laws.{get_or-insert}
use apicorex.Http.{Context}
use apicorex.Registry.{PluginEntry, get}
use apicorex.Registry.Maintenance.{maintenance_for}
use apicorex.Protection.Firewall.{is_route_blocked}
use apicorex.Protection.CircuitBreaker
use apicorex.Protection.Bulkhead.{Bulkhead, active_of, acquire, release}
use apicorex.Protection.RateLimiter
use apicorex.Protection.RateLimiter.{RateLimiter}
use apicorex.Dispatcher.Routes.{RouteEntry, match}
use apicorex.Dispatcher.Gateway.{Gateway}
use apicorex.Dispatcher.Dispatch.{
  Decision, reject, forward, pass_breaker, pass_bulkhead, tenant_of, pass_tenant_limit,
  pass_plugin_limit, pass_limits, pass_maintenance, pass_registry, is_forbidden, pass_authorization,
  admit, Env, with_request_id, finish, dispatch,
}

-- The slots in use after a decision: one more for the plugin that is forwarded to.
abbrev pub slots_after : Decision → Bytes → ℕ → ℕ
slots_after (reject status err retry) id n = n
slots_after (forward entry pe) id n = if entry.plugin_id == id then n + 1 else n

abbrev pub Balanced : Gateway → Decision × Gateway → Type 0
Balanced g p =
    (id : Bytes) → active_of id p.1.bulkhead ≡ slots_after p.0 id (active_of id g.bulkhead)

pub Decision-cases :
    (d : Decision)
    → ((status : ℕ) × (err : Bytes) × (retry : Option ℕ) × (d ≡ reject status err retry))
      ⊎ ((entry : RouteEntry) × (pe : PluginEntry) × (d ≡ forward entry pe))
Decision-cases (reject status err retry) = inl (status, err, retry, refl)
Decision-cases (forward entry pe) = inr (entry, pe, refl)

pub active-acquire :
    (id other : Bytes) (b : Bulkhead)
    → active_of other (acquire id b).1 ≡ (
        if (acquire id b).0
        then if id == other then active_of other b + 1 else active_of other b
        else active_of other b)
unfolding acquire
active-acquire id other b =
    ground (arith, get_or-insert 0 id other (active_of id b + 1) b.active, ==_iff id other)

pub active-release :
    (id other : Bytes) (b : Bulkhead)
    → active_of other (release id b)
      ≡ (if id == other then active_of other b - 1 else active_of other b)
unfolding release
active-release id other b =
    ground (arith, get_or-insert 0 id other (active_of id b - 1) b.active, ==_iff id other)

module _ (now : ℕ) (entry : RouteEntry) (pe : PluginEntry) where
  bulkhead-Balanced : (g : Gateway) → Balanced g (pass_bulkhead now entry pe g)
  unfolding pass_bulkhead pass_breaker
  bulkhead-Balanced g id = elim (Bool-cases (acquire entry.plugin_id g.bulkhead).0) [
    | inr full ↦ simp full (simp active-acquire (simp full))
    | inl free ↦ elim (Bool-cases (CircuitBreaker.allow entry.plugin_id now g.breaker).0) [
      | inl closed ↦ simp (free, closed) (simp active-acquire (simp free))
      | inr tripped ↦
          simp (free, tripped) (simp (active-release, active-acquire) (simp free (ground arith)))
    ]
  ]

  module _ (c : Context) where
    tenant_limit-Balanced :
        (trl : Option RateLimiter) (g : Gateway)
        → Balanced g (pass_tenant_limit now c entry pe trl g)
    tenant_limit-Balanced none g id = bulkhead-Balanced g id
    tenant_limit-Balanced (some trl) g id = elim (Bool-cases (is_empty (tenant_of c.identity))) [
      | inl anonymous ↦ simp anonymous (bulkhead-Balanced g id)
      | inr known ↦
          let key = entry.plugin_id ++ (lit ":" ++ tenant_of c.identity) in
          elim (Bool-cases (RateLimiter.allow key now trl).0) [
            | inl ok ↦
                simp (known, ok)
                  (bulkhead-Balanced
                    (record g {
                      tenant_rl =
                          insert entry.plugin_id (RateLimiter.allow key now trl).1 g.tenant_rl;
                    })
                    id)
            | inr over ↦ simp (known, over) refl
          ]
    ]

    plugin_limit-Balanced :
        (rl : Option RateLimiter) (g : Gateway) → Balanced g (pass_plugin_limit now c entry pe rl g)
    plugin_limit-Balanced none g id =
        tenant_limit-Balanced (lookup entry.plugin_id g.tenant_rl) g id
    plugin_limit-Balanced (some rl) g id =
        elim (Bool-cases (RateLimiter.allow entry.plugin_id now rl).0) [
          | inl ok ↦
              let taken = (RateLimiter.allow entry.plugin_id now rl).1 in
              let g' = record g { plugin_rl = insert entry.plugin_id taken g.plugin_rl } in
              simp ok (tenant_limit-Balanced (lookup entry.plugin_id g.tenant_rl) g' id)
          | inr over ↦ simp over refl
        ]

    maintenance-Balanced : (g : Gateway) → Balanced g (pass_maintenance now c entry pe g)
    unfolding pass_maintenance pass_limits
    maintenance-Balanced g id =
        let reg = (maintenance_for entry.plugin_name now g.registry).1 in
        elim (Option-cases (maintenance_for entry.plugin_name now g.registry).0) [
          | inr (w, opened) ↦ rw (opened, pass_maintenance) refl
          | inl closed ↦
              rw (closed, pass_maintenance)
                (plugin_limit-Balanced (lookup entry.plugin_id g.plugin_rl)
                  (record g { registry = reg }) id)
        ]

registry-Balanced :
    (now : ℕ) (c : Context) (entry : RouteEntry) (g : Gateway)
    → Balanced g (pass_registry now c entry g)
unfolding pass_registry
registry-Balanced now c entry g id = elim (Option-cases (get entry.plugin_id g.registry)) [
  | inl absent ↦ rw (absent, pass_registry) refl
  | inr (pe, found) ↦ elim (Bool-cases pe.alive) [
    | inl up ↦ rw (found, pass_registry) (simp up (maintenance-Balanced now entry pe c g id))
    | inr down ↦ rw (found, pass_registry) (simp down refl)
  ]
]

authorization-Balanced :
    (now : ℕ) (c : Context) (entry : RouteEntry) (g : Gateway)
    → Balanced g (pass_authorization now c entry g)
unfolding pass_authorization
authorization-Balanced now c entry g id = elim (Bool-cases (is_forbidden c entry)) [
  | inl refused ↦ simp refused refl
  | inr allowed ↦ simp allowed (registry-Balanced now c entry g id)
]

-- What `admit` does to the slots in use: a request that it forwards holds one more slot of the
-- plugin it is forwarded to, and a refusal, by whichever check, leaves every plugin's as it was.
pub active-admit :
    (now : ℕ) (c : Context) (g : Gateway) (id : Bytes)
    → active_of id (admit now c g).1.bulkhead
      ≡ slots_after (admit now c g).0 id (active_of id g.bulkhead)
unfolding admit
active-admit now c g id = elim (Bool-cases (is_route_blocked c.request.path)) [
  | inl blocked ↦ simp blocked refl
  | inr free ↦ elim (Option-cases (match c.request.method c.request.path g.routes)) [
    | inl absent ↦ simp free (rw (absent, admit) refl)
    | inr (entry, found) ↦ simp free (rw (found, admit) (authorization-Balanced now c entry g id))
  ]
]

-- Dispatch returns every slot that it takes: whatever the request meets, a refusal by any check, an
-- answer of the plugin or a failure of it, the slots in use of every plugin are the same after it
-- as before.
pub active-dispatch :
    (env : Env) (now later : ℕ) (c : Context) (g : Gateway) (id : Bytes)
    → active_of id (dispatch env now later c g).1.bulkhead ≡ active_of id g.bulkhead
unfolding dispatch finish
active-dispatch env now later c g id =
    let c' = with_request_id env c in
    elim (Decision-cases (admit now c' g).0) [
      | inl (status, err, retry, refused) ↦
          rw (refused, dispatch)
            (active-admit now c' g id
              ∙ ap (λ d. slots_after d id (active_of id g.bulkhead)) refused)
      | inr (entry, pe, sent) ↦
          rw (sent, dispatch)
            (simp active-release (
              ground (
                arith,
                active-admit now c' g id
                    ∙ ap (λ d. slots_after d id (active_of id g.bulkhead)) sent,
                ==_iff entry.plugin_id id,
              )))
    ]
