-- ===== src/Examples/Layers.antt =====
-- The theorems on the protection layers and on the limits at concrete inputs.
use apicorex.Base.{◌+◌, ◌*◌, ◌^◌, ◌≡◌, ◌≤◌, refl, true, false, [], ◌∷◌, arith, if◌then◌else◌}
use apicorex.Text.{◌==◌}
use apicorex.Map.{lookup}
use apicorex.Map.Laws.{get_or-empty}
use apicorex.Protection.CircuitBreaker.{
  CircuitBreaker, new_circuit_breaker, half_open, state_of, record_success, record_failure,
}
use apicorex.Protection.CircuitBreaker
use apicorex.Protection.CircuitBreaker.Machine.{run, failure, machine, machine-run, transition}
use apicorex.Protection.CircuitBreaker.Tripping.{IsConsistent, fail_all, allow-failures}
use apicorex.Protection.Bulkhead.{acquire}
use apicorex.Protection.Bulkhead.InFlight.{Traffic, arrive, Reach, here, next, start}
use apicorex.Protection.RateLimiter.{RateLimiter, one_token, new_rate_limiter, refilled}
use apicorex.Protection.RateLimiter
use apicorex.Protection.RateLimiter.Bound.{admitted, sum, admitted-le-burst, paced-allow}
use apicorex.Examples.{billing_id, breaker, limiter}

machine-run_example : machine billing_id (run failure billing_id 5 breaker) ≡ (
    if billing_id == billing_id
    then transition 2 30 failure 5 (machine billing_id breaker)
    else machine billing_id breaker)
unfolding new_circuit_breaker
machine-run_example = machine-run billing_id billing_id 5 breaker failure

breaker-IsConsistent : IsConsistent breaker
unfolding new_circuit_breaker
breaker-IsConsistent = record { below = λ id closed. simp get_or-empty (omega arith) }

allow-failures_example :
    (CircuitBreaker.allow billing_id 20 (
      record_failure billing_id 9
        (fail_all billing_id (8 ∷ []) (record_success billing_id breaker)))).0
    ≡ false
unfolding new_circuit_breaker
allow-failures_example = allow-failures billing_id (8 ∷ []) 9 20 breaker

abbrev probing : CircuitBreaker
probing = record {
  states = (billing_id, half_open) ∷ [];
  failures = [];
  last_failure = [];
  threshold = 2;
  reset_timeout = 30;
}

abbrev one_in_flight : Traffic
one_in_flight = record {
  bulkhead = (acquire billing_id (start 1).bulkhead).1;
  holders = if (acquire billing_id (start 1).bulkhead).0 then billing_id ∷ [] else [];
}

one-Reach : Reach (start 1) one_in_flight
one-Reach = next here (arrive (start 1) billing_id)

admitted-le-burst_example :
    (admitted billing_id 5 (0 ∷ 0 ∷ 1 ∷ []) limiter).0 * one_token
    ≤ limiter.burst + sum (0 ∷ 1 ∷ []) * limiter.rate
admitted-le-burst_example = admitted-le-burst billing_id 5 (0 ∷ 1 ∷ []) limiter

abbrev used : RateLimiter
used = record {
  tokens = (billing_id, 0) ∷ [];
  last_seen = (billing_id, 5) ∷ [];
  rate = 10 ^ 13;
  burst = 2 * 10 ^ 13;
}

paced-allow_example : (RateLimiter.allow billing_id 6 used).0 ≡ true
unfolding lookup ◌==◌
paced-allow_example = paced-allow billing_id 5 6 used (omega arith) refl (omega arith)
