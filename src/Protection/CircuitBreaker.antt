-- ===== src/Protection/CircuitBreaker.antt =====
-- internal/protection/circuit_breaker.go. Instants are numbers of nanoseconds; `now` stands for
-- time.Now(). A method that takes the lock is one step on the state.
pub mod Machine
pub mod Tripping
use apicorex.Base.{ℕ, suc, ◌+◌, String, Bool, true, false, [], leb, ltb, if◌then◌else◌}
use apicorex.Text.{Bytes, ◌==◌}
use apicorex.Map.{Map, lookup, insert, get_or}

pub data CbState : Type 0 where
  closed opened half_open : CbState

pub record CircuitBreaker : Type 0 where
  pub states : Map CbState
  pub failures : Map ℕ
  pub last_failure : Map ℕ
  pub threshold : ℕ
  pub reset_timeout : ℕ

-- NewCircuitBreaker
unfoldable pub new_circuit_breaker : ℕ → ℕ → CircuitBreaker
new_circuit_breaker threshold reset_timeout = record {
  states = [];
  failures = [];
  last_failure = [];
  threshold = threshold;
  reset_timeout = reset_timeout;
}

-- cb.states[pluginID]
abbrev pub state_of : Bytes → CircuitBreaker → CbState
state_of id cb = get_or closed id cb.states

abbrev pub failures_of : Bytes → CircuitBreaker → ℕ
failures_of id cb = get_or 0 id cb.failures

abbrev pub last_failure_of : Bytes → CircuitBreaker → ℕ
last_failure_of id cb = get_or 0 id cb.last_failure

-- Allow; `true` is a nil error, `false` ErrCircuitOpen.
-- time.Since(last) > resetTimeout reads last + resetTimeout < now.
unfoldable pub allow : Bytes → ℕ → CircuitBreaker → Bool × CircuitBreaker
allow id now cb = elim (state_of id cb) [
  | opened ↦
      if ltb (last_failure_of id cb + cb.reset_timeout) now
      then (true, record cb { states = insert id half_open cb.states })
      else (false, cb)
  | _ ↦ (true, cb)
]

-- RecordSuccess
unfoldable pub record_success : Bytes → CircuitBreaker → CircuitBreaker
record_success id cb = record cb {
  failures = insert id 0 cb.failures;
  states = insert id closed cb.states;
}

-- RecordFailure
unfoldable pub record_failure : Bytes → ℕ → CircuitBreaker → CircuitBreaker
record_failure id now cb =
    let failed = record cb {
      failures = insert id (failures_of id cb + 1) cb.failures;
      last_failure = insert id now cb.last_failure;
    } in
    if leb failed.threshold (failures_of id failed)
    then record failed { states = insert id opened failed.states }
    else failed

-- Reset
unfoldable pub reset : Bytes → CircuitBreaker → CircuitBreaker
reset id cb = record cb { failures = insert id 0 cb.failures; states = insert id closed cb.states }

-- ForceOpen
unfoldable pub force_open : Bytes → ℕ → CircuitBreaker → CircuitBreaker
force_open id now cb = record cb {
  states = insert id opened cb.states;
  last_failure = insert id now cb.last_failure;
}

-- IsOpen
unfoldable pub is_open : Bytes → CircuitBreaker → Bool
is_open id cb = elim (state_of id cb) [ opened ↦ true | _ ↦ false ]

-- StateMetric
unfoldable pub state_metric : Bytes → CircuitBreaker → ℕ
state_metric id cb = elim (state_of id cb) [ opened ↦ 2 | half_open ↦ 1 | closed ↦ 0 ]

-- State
unfoldable pub state : Bytes → CircuitBreaker → String
state id cb = elim (state_of id cb) [
  | opened ↦ "open"
  | half_open ↦ "half-open"
  | closed ↦ "closed"
]
