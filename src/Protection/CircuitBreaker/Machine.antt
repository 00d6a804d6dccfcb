-- ===== src/Protection/CircuitBreaker/Machine.antt =====
-- The breaker keeps one independent state machine per plugin.
use apicorex.Base.{ℕ, ◌+◌, ◌≡◌, arith, leb, ltb, if◌then◌else◌, Bool-cases, inl, inr}
use apicorex.Text.{Bytes, ◌==◌}
use apicorex.Text.Laws.{==_iff, ==_refl}
use apicorex.Map.Laws.{get_or-insert}
use apicorex.Protection.CircuitBreaker.{
  CbState, closed, opened, half_open, CircuitBreaker, state_of, failures_of, last_failure_of, allow,
  record_success, record_failure, reset, force_open,
}

-- The calls that change the breaker, with the instant at which they are made.
pub data Op : Type 0 where
  call_allow success failure call_reset force : Op

unfoldable pub run : Op → Bytes → ℕ → CircuitBreaker → CircuitBreaker
run call_allow id now cb = (allow id now cb).1
run success id now cb = record_success id cb
run failure id now cb = record_failure id now cb
run call_reset id now cb = reset id cb
run force id now cb = force_open id now cb

-- What the breaker knows of one plugin.
pub record Machine : Type 0 where
  pub current : CbState
  pub failed : ℕ
  pub since : ℕ

abbrev pub machine : Bytes → CircuitBreaker → Machine
machine id cb = record {
  current = state_of id cb;
  failed = failures_of id cb;
  since = last_failure_of id cb;
}

-- One transition of a single machine, with no map in sight.
abbrev pub transition : ℕ → ℕ → Op → ℕ → Machine → Machine
transition threshold timeout call_allow now m = elim m.current [
  | opened ↦ if ltb (m.since + timeout) now then record m { current = half_open } else m
  | _ ↦ m
]
transition threshold timeout success now m = record m { current = closed; failed = 0 }
transition threshold timeout failure now m = record {
  current = if leb threshold (m.failed + 1) then opened else m.current;
  failed = m.failed + 1;
  since = now;
}
transition threshold timeout call_reset now m = record m { current = closed; failed = 0 }
transition threshold timeout force now m = record m { current = opened; since = now }

module _ (id other : Bytes) (now : ℕ) (cb : CircuitBreaker) where
  -- A call for one plugin makes the transition of that plugin's machine, and leaves the machine of
  -- every other plugin alone.
  pub machine-run :
      (op : Op)
      → machine other (run op id now cb) ≡ (
          if id == other
          then transition cb.threshold cb.reset_timeout op now (machine other cb)
          else machine other cb)
  unfolding run allow record_success record_failure reset force_open
  machine-run op =
      elim op
        as (λ op. machine other (run op id now cb) ≡ (
          if id == other
          then transition cb.threshold cb.reset_timeout op now (machine other cb)
          else machine other cb)) [
            | call_allow ↦
                ground (arith, get_or-insert closed id other half_open cb.states, ==_iff id other)
            | success ↦ simp get_or-insert (ground (arith, ==_iff id other))
            | failure ↦ elim (Bool-cases (leb cb.threshold (failures_of id cb + 1))) [
              | inl trips ↦
                  simp (get_or-insert, ==_refl)
                    (rw trips (simp get_or-insert (ground (arith, ==_iff id other))))
              | inr stays ↦
                  simp (get_or-insert, ==_refl)
                    (rw stays (simp get_or-insert (ground (arith, ==_iff id other))))
            ]
            | call_reset ↦ simp get_or-insert (ground (arith, ==_iff id other))
            | force ↦ simp get_or-insert (ground (arith, ==_iff id other))
          ]

pub machine-run_self :
    (op : Op) (id : Bytes) (now : ℕ) (cb : CircuitBreaker)
    → machine id (run op id now cb)
      ≡ transition cb.threshold cb.reset_timeout op now (machine id cb)
machine-run_self op id now cb = simp ==_refl at (machine-run id id now cb op)
