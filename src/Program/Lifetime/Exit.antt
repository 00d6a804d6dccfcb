-- ===== src/Program/Lifetime/Exit.antt =====
-- What the program exits with.
use apicorex.Base.{
  or_else, or_else-none, ℕ, ◌≡◌, refl, ap, ◌∙◌, Bool, Option, none, some, Option-cases, inl, inr,
}
use apicorex.Program.Lifetime.{
  Failure, Group, Life, begin, Step, interrupted, http_fails, http_closes, asks_fail, asks_shut,
  asks_close, health_returns, sweep_returns, stop, stops, Run, stay, further, exit_status,
}

module _ (group : Group) where
  open group use {
    is_cancelled, wait, cancel, finish, fresh-wait, cancel-is_cancelled, cancel-wait, finish_none,
    finish_some-is_cancelled, finish_some-wait_first, finish_some-wait_later,
  }

  -- The error that a goroutine returns in a step.
  unfoldable pub failure_of : {s t : Life group} → Step group s t → Option Failure
  failure_of (interrupted free) = none
  failure_of (http_fails e at) = some e
  failure_of (http_closes at) = none
  failure_of (asks_fail e at) = some e
  failure_of (asks_shut at h) = none
  failure_of (asks_close at) = none
  failure_of (health_returns at h) = none
  failure_of (sweep_returns at h) = none
  failure_of (stop at h) = none
  failure_of (stops result at) = result

  -- The first error of a run.
  unfoldable pub first_failure : {n : ℕ} {s t : Life group} → Run group n s t → Option Failure
  unfolding failure_of
  first_failure stay = none
  first_failure (further r st) = or_else (first_failure r) (failure_of st)

  finish-wait : (o : Option Failure) (g : group.G) → wait (finish o g) ≡ or_else (wait g) o
  finish-wait none g = ap wait (finish_none g) ∙ or_else-none (wait g)
  finish-wait (some e) g = elim (Option-cases (wait g)) [
    | inl clean ↦ finish_some-wait_first e g clean ∙ rw (clean, or_else) refl
    | inr (d, failed) ↦ finish_some-wait_later e d g failed ∙ rw (failed, or_else) refl
  ]

  Step-wait :
      {s t : Life group} (st : Step group s t)
      → wait t.state ≡ or_else (wait s.state) (failure_of st)
  unfolding failure_of
  Step-wait {s} (interrupted free) = cancel-wait s.state ∙ or_else-none (wait s.state)
  Step-wait {s} (http_fails e at) = finish-wait (some e) s.state
  Step-wait {s} (http_closes at) = finish-wait none s.state
  Step-wait {s} (asks_fail e at) = finish-wait (some e) s.state
  Step-wait {s} (asks_shut at h) = or_else-none (wait s.state)
  Step-wait {s} (asks_close at) = finish-wait none s.state
  Step-wait {s} (health_returns at h) = finish-wait none s.state
  Step-wait {s} (sweep_returns at h) = finish-wait none s.state
  Step-wait {s} (stop at h) = or_else-none (wait s.state)
  Step-wait {s} (stops result at) = finish-wait result s.state

  Run-wait :
      (answers_asks : Bool) {n : ℕ} {s t : Life group} (r : Run group n s t)
      → s ≡ begin group answers_asks
      → wait t.state ≡ first_failure r
  unfolding first_failure
  Run-wait answers_asks stay e = ap (λ (s : Life group). wait s.state) e ∙ fresh-wait
  Run-wait answers_asks (further r st) e =
      Step-wait st ∙ ap (λ o. or_else o (failure_of st)) (Run-wait answers_asks r e)

-- Whatever the order in which its goroutines come to return, the program exits with what the first
-- error among those that they returned stands for: with 1 if that is another error than a cancelled
-- context, also when it comes from Shutdown itself, and with 0 if it is that or if there is none.
pub exit_status-first_failure :
    (group : Group) (answers_asks : Bool) (n : ℕ) (s : Life group)
    (r : Run group n (begin group answers_asks) s)
    → exit_status (group.wait s.state) ≡ exit_status (first_failure group r)
exit_status-first_failure group answers_asks n s r =
    ap exit_status (Run-wait group answers_asks r refl)
