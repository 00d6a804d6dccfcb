-- ===== src/Dispatcher/Dispatch/Mediation.antt =====
-- What a request has passed when Dispatch forwards it.
use apicorex.Base.{
  ℕ, ◌<◌, ◌≡◌, ◌⊎◌, refl, sym, ap, ◌∙◌, subst, leb, true, false, Option, none, some, ◌++◌, arith,
  Bool-cases, Option-cases, inl, inr,
}
use apicorex.Text.{Bytes, lit, is_empty}
use apicorex.Map.{lookup, insert}
use apicorex.Http.{Context}
use apicorex.Registry.{PluginEntry, get}
use apicorex.Registry.Maintenance.{maintenance_for}
use apicorex.Protection.Firewall.{is_route_blocked}
use apicorex.Protection.CircuitBreaker
use apicorex.Protection.Bulkhead.{active_of, acquire}
use apicorex.Protection.RateLimiter
use apicorex.Protection.RateLimiter.{RateLimiter}
use apicorex.Dispatcher.Routes.{RouteEntry, match}
use apicorex.Dispatcher.Gateway.{Gateway}
use apicorex.Dispatcher.Dispatch.{
  Decision, reject, forward, pass_breaker, pass_bulkhead, tenant_of, pass_tenant_limit,
  pass_plugin_limit, pass_limits, pass_maintenance, pass_registry, is_forbidden, pass_authorization,
  admit,
}

-- What holds of a forwarded request.
abbrev pub OnForward : (RouteEntry → PluginEntry → Type 0) → Decision → Type 0
OnForward P (reject status err retry) = Unit
OnForward P (forward entry pe) = P entry pe

-- A decision that forwards nothing but the one pair, and only under `Q`.
abbrev pub OnlyIf : RouteEntry → PluginEntry → Type 0 → Decision → Type 0
OnlyIf entry pe Q (reject status err retry) = Unit
OnlyIf entry pe Q (forward e p) = (e ≡ entry) × (p ≡ pe) × Q

OnlyIf-map :
    (entry : RouteEntry) (pe : PluginEntry) (Q R : Type 0)
    → (Q → R)
    → (d : Decision) → OnlyIf entry pe Q d
    → OnlyIf entry pe R d
OnlyIf-map entry pe Q R f (reject status err retry) h = tt
OnlyIf-map entry pe Q R f (forward e p) (x, y, q) = (x, y, f q)

OnlyIf-OnForward :
    (P : RouteEntry → PluginEntry → Type 0) (entry : RouteEntry) (pe : PluginEntry) (Q : Type 0)
    → (Q → P entry pe)
    → (d : Decision) → OnlyIf entry pe Q d
    → OnForward P d
OnlyIf-OnForward P entry pe Q f (reject status err retry) h = tt
OnlyIf-OnForward P entry pe Q f (forward e p) (x, y, q) = rw (x, y) (f q)

-- A limiter, if there is one, has a token.
abbrev pub HasToken : Bytes → ℕ → Option RateLimiter → Type 0
HasToken key now none = Unit
HasToken key now (some rl) = (RateLimiter.allow key now rl).0 ≡ true

abbrev pub HasTenantToken : Bytes → ℕ → RouteEntry → Option RateLimiter → Type 0
HasTenantToken tenant now entry trl =
    (is_empty tenant ≡ true) ⊎ HasToken (entry.plugin_id ++ (lit ":" ++ tenant)) now trl

abbrev pub HasSlot : ℕ → Gateway → RouteEntry → Type 0
HasSlot now g entry =
    (active_of entry.plugin_id g.bulkhead < g.bulkhead.max_conc)
    × ((CircuitBreaker.allow entry.plugin_id now g.breaker).0 ≡ true)

abbrev pub IsWithin : ℕ → Context → Gateway → RouteEntry → Type 0
IsWithin now c g entry =
    HasTenantToken (tenant_of c.identity) now entry (lookup entry.plugin_id g.tenant_rl)
    × HasSlot now g entry

abbrev pub IsOpen : ℕ → Context → Gateway → RouteEntry → Type 0
IsOpen now c g entry =
    ((maintenance_for entry.plugin_name now g.registry).0 ≡ none)
    × HasToken entry.plugin_id now (lookup entry.plugin_id g.plugin_rl)
    × IsWithin now c g entry

abbrev pub IsInService : ℕ → Context → Gateway → RouteEntry → PluginEntry → Type 0
IsInService now c g entry pe =
    (get entry.plugin_id g.registry ≡ some pe) × (pe.alive ≡ true) × IsOpen now c g entry

module _ (now : ℕ) (entry : RouteEntry) (pe : PluginEntry) where
  bulkhead-passed :
      (g : Gateway) → OnlyIf entry pe (HasSlot now g entry) (pass_bulkhead now entry pe g).0
  unfolding pass_bulkhead pass_breaker acquire
  bulkhead-passed g =
      elim (Bool-cases (leb g.bulkhead.max_conc (active_of entry.plugin_id g.bulkhead))) [
        | inl full ↦ simp full tt
        | inr free ↦ elim (Bool-cases (CircuitBreaker.allow entry.plugin_id now g.breaker).0) [
          | inl closed ↦ simp (free, closed) (refl, refl, (ground (arith, free), refl))
          | inr tripped ↦ simp (free, tripped) tt
        ]
      ]

  module _ (c : Context) where
    tenant_limit-passed :
        (trl : Option RateLimiter) (g : Gateway)
        → OnlyIf entry pe
            (HasTenantToken (tenant_of c.identity) now entry trl × HasSlot now g entry)
            (pass_tenant_limit now c entry pe trl g).0
    tenant_limit-passed none g =
        OnlyIf-map entry pe (HasSlot now g entry) _ (λ s. (inr tt, s))
          (pass_bulkhead now entry pe g).0 (bulkhead-passed g)
    tenant_limit-passed (some trl) g = elim (Bool-cases (is_empty (tenant_of c.identity))) [
      | inl anonymous ↦ rw anonymous (
          OnlyIf-map entry pe (HasSlot now g entry) _ (λ s. (inl refl, s))
            (pass_bulkhead now entry pe g).0 (bulkhead-passed g))
      | inr known ↦
          let key = entry.plugin_id ++ (lit ":" ++ tenant_of c.identity) in
          elim (Bool-cases (RateLimiter.allow key now trl).0) [
            | inl ok ↦
                let taken = (RateLimiter.allow key now trl).1 in
                let g' = record g { tenant_rl = insert entry.plugin_id taken g.tenant_rl } in
                rw (known, ok)
                  (OnlyIf-map entry pe (HasSlot now g entry) _ (λ s. (inr refl, s))
                    (pass_bulkhead now entry pe g').0 (bulkhead-passed g'))
            | inr over ↦ rw (known, over) tt
          ]
    ]

    plugin_limit-passed :
        (rl : Option RateLimiter) (g : Gateway)
        → OnlyIf entry pe
            (HasToken entry.plugin_id now rl × IsWithin now c g entry)
            (pass_plugin_limit now c entry pe rl g).0
    plugin_limit-passed none g =
        OnlyIf-map entry pe (IsWithin now c g entry) _ (λ s. (tt, s))
          (pass_tenant_limit now c entry pe (lookup entry.plugin_id g.tenant_rl) g).0
          (tenant_limit-passed (lookup entry.plugin_id g.tenant_rl) g)
    plugin_limit-passed (some rl) g =
        elim (Bool-cases (RateLimiter.allow entry.plugin_id now rl).0) [
          | inl ok ↦
              let taken = (RateLimiter.allow entry.plugin_id now rl).1 in
              let g' = record g { plugin_rl = insert entry.plugin_id taken g.plugin_rl } in
              let trl = lookup entry.plugin_id g.tenant_rl in
              rw ok (
                OnlyIf-map entry pe (IsWithin now c g entry) _ (λ s. (refl, s))
                  (pass_tenant_limit now c entry pe trl g').0 (tenant_limit-passed trl g'))
          | inr over ↦ rw over tt
        ]

    maintenance-passed :
        (g : Gateway) → OnlyIf entry pe (IsOpen now c g entry) (pass_maintenance now c entry pe g).0
    unfolding pass_maintenance pass_limits
    maintenance-passed g =
        let reg = (maintenance_for entry.plugin_name now g.registry).1 in
        elim (Option-cases (maintenance_for entry.plugin_name now g.registry).0) [
          | inr (w, opened) ↦ rw (opened, pass_maintenance) tt
          | inl closed ↦
              let rl = lookup entry.plugin_id g.plugin_rl in
              let g' = record g { registry = reg } in
              rw (closed, pass_maintenance)
                (OnlyIf-map entry pe (HasToken entry.plugin_id now rl × IsWithin now c g entry) _
                  (λ (x, y). (refl, x, y)) (pass_plugin_limit now c entry pe rl g').0
                  (plugin_limit-passed rl g'))
        ]

registry-passed :
    (now : ℕ) (c : Context) (entry : RouteEntry) (g : Gateway)
    → OnForward (λ e p. (e ≡ entry) × IsInService now c g entry p) (pass_registry now c entry g).0
unfolding pass_registry
registry-passed now c entry g = elim (Option-cases (get entry.plugin_id g.registry)) [
  | inl absent ↦ rw (absent, pass_registry) tt
  | inr (pe, found) ↦ elim (Bool-cases pe.alive) [
    | inl up ↦
        rw (found, pass_registry)
          (simp up (
            OnlyIf-OnForward
              (λ e p. (e ≡ entry) × ((some pe ≡ some p) × (p.alive ≡ true) × IsOpen now c g entry))
              entry pe (IsOpen now c g entry) (λ s. (refl, (refl, up, s)))
              (pass_maintenance now c entry pe g).0 (maintenance-passed now entry pe c g)))
    | inr down ↦ rw (found, pass_registry) (simp down tt)
  ]
]

OnForward-map :
    (P Q : RouteEntry → PluginEntry → Type 0)
    → ((e : RouteEntry) (p : PluginEntry) → P e p → Q e p)
    → (d : Decision) → OnForward P d
    → OnForward Q d
OnForward-map P Q f (reject status err retry) h = tt
OnForward-map P Q f (forward entry pe) h = f entry pe h

abbrev pub IsAdmitted : ℕ → Context → Gateway → RouteEntry → PluginEntry → Type 0
IsAdmitted now c g entry pe =
    (is_route_blocked c.request.path ≡ false)
    × (match c.request.method c.request.path g.routes ≡ some entry)
    × (is_forbidden c entry ≡ false)
    × IsInService now c g entry pe

-- No check can be bypassed: when `admit` forwards a request to a plugin, its path is not blocked,
-- the route is the one that the table gives, the route's permission is met, the plugin is the one on
-- file under the route's id and alive, no maintenance window of it is open, the limiters of the
-- plugin and of the caller's tenant have a token for it, fewer requests than the limit are in flight
-- and the circuit breaker lets it pass.
pub admit-IsAdmitted :
    (now : ℕ) (c : Context) (g : Gateway) → OnForward (IsAdmitted now c g) (admit now c g).0
unfolding admit pass_authorization
admit-IsAdmitted now c g = elim (Bool-cases (is_route_blocked c.request.path)) [
  | inl blocked ↦ rw (blocked, admit) tt
  | inr free ↦ elim (Option-cases (match c.request.method c.request.path g.routes)) [
    | inl absent ↦ rw (free, absent, admit) tt
    | inr (entry, found) ↦ elim (Bool-cases (is_forbidden c entry)) [
      | inl refused ↦ rw (free, found, admit) (rw (refused, pass_authorization) tt)
      | inr allowed ↦
          rw (free, found, admit)
            (rw (allowed, pass_authorization)
              (OnForward-map (λ e p. (e ≡ entry) × IsInService now c g entry p) (IsAdmitted now c g)
                (λ e p (same, s). (
                  free,
                  found ∙ ap some (sym same),
                  ap (is_forbidden c) same ∙ allowed,
                  subst (λ x. IsInService now c g x p) (sym same) s,
                ))
                (pass_registry now c entry g).0 (registry-passed now c entry g)))
    ]
  ]
]
