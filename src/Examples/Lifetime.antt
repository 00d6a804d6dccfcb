-- ===== src/Examples/Lifetime.antt =====
-- The theorems on the end of the program, with a group that keeps a flag and an error: a signal, and
-- the goroutines return one after another.
use apicorex.Base.{◌≤◌, ◌≡◌, refl, Bool, true, false, Option, none, some, or_else}
use apicorex.Program.Lifetime.{
  Failure, Group, closed, returned, stopped, Life, begin, Step, interrupted, http_closes,
  asks_close, health_returns, sweep_returns, stop, stops, Run, stay, further, IsOver,
}
use apicorex.Program.Lifetime.Ends.{cancelled-ends}

record Flagged : Type 0 where
  done : Bool
  failed : Option Failure

abbrev finished : Option Failure → Flagged → Flagged
finished none g = g
finished (some e) g = record { done = true; failed = or_else g.failed (some e) }

first_kept : (e : Failure) (g : Flagged) → g.failed ≡ none → (finished (some e) g).failed ≡ some e
first_kept e g h = rw (h, or_else) refl

later_dropped :
    (e d : Failure) (g : Flagged) → g.failed ≡ some d → (finished (some e) g).failed ≡ some d
later_dropped e d g h = rw (h, or_else) refl

abbrev flagged : Group
flagged = record {
  G = Flagged;
  fresh = record { done = false; failed = none };
  is_cancelled = λ g. g.done;
  wait = λ g. g.failed;
  cancel = λ g. record g { done = true };
  finish = finished;
  fresh-wait = refl;
  cancel-is_cancelled = λ g. refl;
  cancel-wait = λ g. refl;
  finish_none = λ g. refl;
  finish_some-is_cancelled = λ e g. refl;
  finish_some-wait_first = first_kept;
  finish_some-wait_later = later_dropped;
}

abbrev started : Life flagged
started = begin flagged false

abbrev signalled : Life flagged
signalled = record started { state = record { done = true; failed = none } }

abbrev halted : Life flagged
halted = record signalled {
  http = closed;
  asks = closed;
  health = returned;
  sweep = returned;
  stopper = stopped;
}

to_signal : Run flagged 1 started signalled
to_signal = further stay (interrupted refl)

from_signal : Run flagged 6 signalled halted
from_signal =
    further
      (further
        (further
          (further (further (further stay (stop refl refl)) (asks_close refl))
            (health_returns refl refl))
          (http_closes refl))
        (stops none refl))
      (sweep_returns refl refl)

cancelled-ends_example :
    ◌≤◌ 6 8 × (((u : Life flagged) → ¬ (Step flagged halted u)) → IsOver flagged halted)
cancelled-ends_example =
    cancelled-ends flagged false 1 6 signalled halted to_signal refl from_signal
