-- ===== src/Protection/CircuitBreaker/Tripping.antt =====
-- When the breaker trips, when it lets requests through again, and what keeps it consistent.
use apicorex.Base.{
  ℕ, ◌+◌, ◌<◌, ◌≡◌, Bool, true, false, List, [], ◌∷◌, arith, leb, ltb, length, map, if◌then◌else◌,
  refl, ap, sym, subst, ◌∙◌,
}
use native.Mathlib.Nat.{add-zero, zero-add}
use apicorex.Text.{Bytes, ◌==◌}
use apicorex.Protection.CircuitBreaker.{
  closed, opened, half_open, CircuitBreaker, state_of, failures_of, allow, record_success,
  record_failure, reset, force_open,
}
use apicorex.Protection.CircuitBreaker.Machine.{
  Op, machine-run_self, call_allow, success, failure, run, Machine, machine, transition,
  machine-run,
}

-- A closed breaker has counted fewer failures than the threshold.
pub record IsConsistent (cb : CircuitBreaker) : Type 0 where
  pub below : (id : Bytes) → state_of id cb ≡ closed → failures_of id cb < cb.threshold

pub threshold-run :
    (op : Op) (id : Bytes) (now : ℕ) (cb : CircuitBreaker)
    → ((run op id now cb).threshold ≡ cb.threshold)
      × ((run op id now cb).reset_timeout ≡ cb.reset_timeout)
unfolding run allow record_success record_failure reset force_open
threshold-run call_allow id now cb = ground arith
threshold-run _ id now cb = ground arith

abbrev Below : ℕ → Machine → Type 0
Below threshold m = m.current ≡ closed → m.failed < threshold

transition-Below :
    (threshold timeout : ℕ) (op : Op) (now : ℕ) (m : Machine)
    → 0 < threshold
    → Below threshold m
    → Below threshold (transition threshold timeout op now m)
transition-Below threshold timeout call_allow now m p h e = ground (arith, h)
transition-Below threshold timeout _ now m p h e = ground (arith, h)

if-Below :
    (threshold : ℕ) (b : Bool) (m n : Machine)
    → Below threshold m
    → Below threshold n
    → Below threshold (if b then m else n)
if-Below threshold true m n h k = h
if-Below threshold false m n h k = k

-- From a consistent breaker with a positive threshold, every call leaves the breaker consistent.
pub run-IsConsistent :
    (op : Op) (id : Bytes) (now : ℕ) (cb : CircuitBreaker)
    → 0 < cb.threshold
    → IsConsistent cb
    → IsConsistent (run op id now cb)
run-IsConsistent op id now cb p c = record {
  below = λ other. rw (threshold-run op id now cb).0 (
      subst (Below cb.threshold) (sym (machine-run id other now cb op)) (
        if-Below cb.threshold (id == other) _ (machine other cb)
          (transition-Below cb.threshold cb.reset_timeout op now (machine other cb) p
            (c.below other))
          (c.below other)));
}

-- Failures of one plugin at the given instants, one after the other.
unfoldable pub fail_all : Bytes → List ℕ → CircuitBreaker → CircuitBreaker
fail_all id [] cb = cb
fail_all id (t ∷ ts) cb = fail_all id ts (record_failure id t cb)

record Counts (id : Bytes) (n : ℕ) (base cb : CircuitBreaker) : Type 0 where
  failures : failures_of id cb ≡ n
  closed_below : n < base.threshold → state_of id cb ≡ closed
  threshold : cb.threshold ≡ base.threshold
  timeout : cb.reset_timeout ≡ base.reset_timeout

record_failure-Counts :
    (id : Bytes) (n t : ℕ) (base cb : CircuitBreaker)
    → Counts id n base cb
    → Counts id (n + 1) base (record_failure id t cb)
unfolding run
record_failure-Counts id n t base cb c =
    let e = machine-run_self failure id t cb in
    let (same_threshold, same_timeout) = threshold-run failure id t cb in
    record {
      failures = ap (λ (m : Machine). m.failed) e ∙ ap (λ (k : ℕ). k + 1) c.failures;
      closed_below = λ h. ap (λ (m : Machine). m.current) e ∙ ground (arith, c.closed_below);
      threshold = same_threshold ∙ c.threshold;
      timeout = same_timeout ∙ c.timeout;
    }

fail_all-Counts :
    (id : Bytes) (n : ℕ) (ts : List ℕ) (base cb : CircuitBreaker)
    → Counts id n base cb
    → Counts id (n + length ts) base (fail_all id ts cb)
unfolding fail_all
fail_all-Counts id n [] base cb c = rw add-zero c
fail_all-Counts id n (t ∷ ts) base cb c =
    let e : n + length (t ∷ ts) ≡ n + 1 + length ts = omega arith in
    rw e (
      fail_all-Counts id (n + 1) ts base (record_failure id t cb)
        (record_failure-Counts id n t base cb c))

-- What `allow` answers for one machine.
abbrev admits : ℕ → ℕ → Machine → Bool
admits timeout now m = elim m.current [ opened ↦ ltb (m.since + timeout) now | _ ↦ true ]

allow-admits :
    (id : Bytes) (now : ℕ) (cb : CircuitBreaker)
    → (allow id now cb).0 ≡ admits cb.reset_timeout now (machine id cb)
unfolding allow
allow-admits id now cb = ground arith

record_success-Counts : (id : Bytes) (cb : CircuitBreaker) → Counts id 0 cb (record_success id cb)
unfolding run record_success
record_success-Counts id cb =
    let e = machine-run_self success id 0 cb in
    record {
      failures = ap (λ (m : Machine). m.failed) e;
      closed_below = λ _. ap (λ (m : Machine). m.current) e;
      threshold = refl;
      timeout = refl;
    }

admits-failure :
    (id : Bytes) (n t now : ℕ) (base cb : CircuitBreaker)
    → Counts id n base cb
    → (allow id now (record_failure id t cb)).0
      ≡ (if leb base.threshold (n + 1) then ltb (t + base.reset_timeout) now else true)
unfolding run
admits-failure id n t now base cb c =
    allow-admits id now (record_failure id t cb)
    ∙ ap (λ (m : Machine). admits (record_failure id t cb).reset_timeout now m)
        (machine-run_self failure id t cb)
    ∙ ground (arith, threshold-run failure id t cb, c.closed_below)

-- After a success and then failures at `ts` and at `t`, with no other call in between, a request
-- is let through exactly if the failures are fewer than the threshold or the reset timeout has
-- passed since the last one.
pub allow-failures :
    (id : Bytes) (ts : List ℕ) (t now : ℕ) (cb : CircuitBreaker)
    → (allow id now (record_failure id t (fail_all id ts (record_success id cb)))).0
      ≡ (if leb cb.threshold (length ts + 1) then ltb (t + cb.reset_timeout) now else true)
allow-failures id ts t now cb =
    admits-failure id (length ts) t now cb (fail_all id ts (record_success id cb)) (
      rw zero-add at
        (fail_all-Counts id 0 ts cb (record_success id cb) (record_success-Counts id cb)))

-- Requests at the given instants with no outcome recorded in between, and which were let through.
unfoldable pub allow_all : Bytes → List ℕ → CircuitBreaker → List Bool × CircuitBreaker
allow_all id [] cb = ([], cb)
allow_all id (t ∷ ts) cb =
    let (admitted, cb') = allow id t cb in
    let (rest, cb'') = allow_all id ts cb' in (admitted ∷ rest, cb'')

allow-half_open :
    (id : Bytes) (t : ℕ) (cb : CircuitBreaker)
    → state_of id cb ≡ half_open
    → allow id t cb ≡ (true, cb)
unfolding allow
allow-half_open id t cb h = ground arith

-- A half-open breaker lets every request through, whatever their number, and stays as it is until
-- an outcome is recorded.
pub half_open-admits_all :
    (id : Bytes) (ts : List ℕ) (cb : CircuitBreaker)
    → state_of id cb ≡ half_open
    → allow_all id ts cb ≡ (map (λ _. true) ts, cb)
unfolding allow_all
half_open-admits_all id [] cb h = refl
half_open-admits_all id (t ∷ ts) cb h =
    let once = allow-half_open id t cb h in rw once (rw (half_open-admits_all id ts cb h))
