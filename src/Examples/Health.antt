-- ===== src/Examples/Health.antt =====
-- A round of health checks over a plugin that is down.
use apicorex.Base.{◌≡◌, some, none, if◌then◌else◌}
use apicorex.Map.{lookup}
use apicorex.Protection.CircuitBreaker.{opened, state_of}
use apicorex.Protection.HealthMonitor.{is_healthy, check_all}
use apicorex.Protection.HealthMonitor.Round.{settle, check_all-settle}
use apicorex.Examples.{billing_id, registry, breaker}
use apicorex.Examples.Plugins.{registry-IsValid}

check_all-settle_example :
    (lookup billing_id (check_all (λ url. none) (λ id. 9) registry breaker).0.plugins
      ≡ elim (lookup billing_id registry.plugins) [
        | none ↦ none
        | some e ↦ some (settle (λ url. none) (λ id. 9) (is_healthy (λ url. none) (λ id. 9) e) 9 e)
      ])
    × (state_of billing_id (check_all (λ url. none) (λ id. 9) registry breaker).1
        ≡ elim (lookup billing_id registry.plugins) [
          | none ↦ state_of billing_id breaker
          | some e ↦
              if is_healthy (λ url. none) (λ id. 9) e then state_of billing_id breaker else opened
        ])
check_all-settle_example =
    check_all-settle (λ url. none) (λ id. 9) billing_id registry breaker registry-IsValid
