-- ===== src/Dispatcher/Dispatch/Admission.antt =====
-- When Dispatch forwards a request.
use apicorex.Base.{
  ℕ, ◌≡◌, ◌↔◌, refl, subst, leb, false, Option, none, some, ◌++◌, arith, Bool-cases, inl, inr,
}
use apicorex.Text.{lit, is_empty}
use apicorex.Map.{lookup, insert}
use apicorex.Http.{Context}
use apicorex.Registry.{PluginEntry}
use apicorex.Registry.Maintenance.{maintenance_for}
use apicorex.Protection.Bulkhead.{active_of, acquire}
use apicorex.Protection.RateLimiter
use apicorex.Protection.RateLimiter.{RateLimiter}
use apicorex.Dispatcher.Routes.{RouteEntry}
use apicorex.Dispatcher.Gateway.{Gateway}
use apicorex.Dispatcher.Dispatch.{
  forward, pass_breaker, pass_bulkhead, tenant_of, pass_tenant_limit, pass_plugin_limit,
  pass_limits, pass_maintenance, pass_registry, pass_authorization, admit,
}
use apicorex.Dispatcher.Dispatch.Mediation.{
  OnForward, HasToken, HasTenantToken, HasSlot, IsWithin, IsOpen, IsInService, IsAdmitted,
  admit-IsAdmitted,
}

module _ (now : ℕ) (entry : RouteEntry) (pe : PluginEntry) where
  bulkhead-forward :
      (g : Gateway) → HasSlot now g entry → (pass_bulkhead now entry pe g).0 ≡ forward entry pe
  unfolding pass_bulkhead pass_breaker acquire
  bulkhead-forward g (room, allowed) =
      let free : leb g.bulkhead.max_conc (active_of entry.plugin_id g.bulkhead) ≡ false =
        ground arith in
      simp (free, allowed) refl

  module _ (c : Context) where
    tenant_limit-forward :
        (trl : Option RateLimiter) (g : Gateway)
        → HasTenantToken (tenant_of c.identity) now entry trl
        → HasSlot now g entry
        → (pass_tenant_limit now c entry pe trl g).0 ≡ forward entry pe
    tenant_limit-forward none g token slot = bulkhead-forward g slot
    tenant_limit-forward (some trl) g token slot =
        elim (Bool-cases (is_empty (tenant_of c.identity))) [
          | inl anonymous ↦ simp anonymous (bulkhead-forward g slot)
          | inr known ↦
              let key = entry.plugin_id ++ (lit ":" ++ tenant_of c.identity) in
              let taken = (RateLimiter.allow key now trl).1 in
              let g' = record g { tenant_rl = insert entry.plugin_id taken g.tenant_rl } in
              elim token [
                | inl anonymous ↦ cc
                | inr ok ↦ simp (known, ok) (bulkhead-forward g' slot)
              ]
        ]

    plugin_limit-forward :
        (rl : Option RateLimiter) (g : Gateway)
        → HasToken entry.plugin_id now rl
        → IsWithin now c g entry
        → (pass_plugin_limit now c entry pe rl g).0 ≡ forward entry pe
    plugin_limit-forward none g token (tenant, slot) =
        tenant_limit-forward (lookup entry.plugin_id g.tenant_rl) g tenant slot
    plugin_limit-forward (some rl) g token (tenant, slot) =
        let taken = (RateLimiter.allow entry.plugin_id now rl).1 in
        let g' = record g { plugin_rl = insert entry.plugin_id taken g.plugin_rl } in
        simp token (tenant_limit-forward (lookup entry.plugin_id g.tenant_rl) g' tenant slot)

    maintenance-forward :
        (g : Gateway)
        → IsOpen now c g entry
        → (pass_maintenance now c entry pe g).0 ≡ forward entry pe
    unfolding pass_maintenance pass_limits
    maintenance-forward g (closed, token, within) =
        let reg = (maintenance_for entry.plugin_name now g.registry).1 in
        rw (closed, pass_maintenance)
          (plugin_limit-forward (lookup entry.plugin_id g.plugin_rl) (record g { registry = reg })
            token within)

registry-forward :
    (now : ℕ) (c : Context) (entry : RouteEntry) (pe : PluginEntry) (g : Gateway)
    → IsInService now c g entry pe
    → (pass_registry now c entry g).0 ≡ forward entry pe
unfolding pass_registry
registry-forward now c entry pe g (found, up, opened) =
    rw (found, pass_registry) (simp up (maintenance-forward now entry pe c g opened))

admit-forward :
    (now : ℕ) (c : Context) (g : Gateway) (entry : RouteEntry) (pe : PluginEntry)
    → IsAdmitted now c g entry pe
    → (admit now c g).0 ≡ forward entry pe
unfolding admit pass_authorization
admit-forward now c g entry pe (free, found, allowed, served) =
    rw (free, found, admit)
      (rw (allowed, pass_authorization) (registry-forward now c entry pe g served))

-- `admit` forwards a request along a route to a plugin exactly if the path is not blocked, the
-- route is the one that the table gives, the route's permission is met, the plugin is the one on
-- file under the route's id and alive, no maintenance window of it is open, the limiters of the
-- plugin and of the caller's tenant have a token for it, fewer requests than the limit are in
-- flight and the circuit breaker lets it pass.
pub admit-forward_iff :
    (now : ℕ) (c : Context) (g : Gateway) (entry : RouteEntry) (pe : PluginEntry)
    → ((admit now c g).0 ≡ forward entry pe) ↔ IsAdmitted now c g entry pe
admit-forward_iff now c g entry pe = (
  λ h. subst (OnForward (IsAdmitted now c g)) h (admit-IsAdmitted now c g),
  admit-forward now c g entry pe,
)
