-- ===== src/Program/Lifetime/Ends.antt =====
-- Once its context is cancelled, the program comes to its end, with the status of the first failure.
use apicorex.Base.{
  ℕ, ◌+◌, ◌≤◌, ◌≡◌, ◌≢◌, ◌⊎◌, refl, ap, ◌∙◌, Bool, true, Option, none, some, arith, inl, inr,
}
use apicorex.Program.Lifetime.{
  Failure, Group, Listener, listening, closing, closed, Loop, looping, returned, Stopper, waiting,
  stopping, stopped, Life, begin, shut, Step, interrupted, http_fails, http_closes, asks_fail,
  asks_shut, asks_close, health_returns, sweep_returns, stop, stops, Run, stay, further, IsOver,
}

-- How many steps a goroutine has before it.
abbrev of_listener : Listener → ℕ
of_listener listening = 2
of_listener closing = 1
of_listener closed = 0

abbrev of_loop : Loop → ℕ
of_loop looping = 1
of_loop returned = 0

abbrev of_stopper : Stopper → ℕ
of_stopper waiting = 2
of_stopper stopping = 1
of_stopper stopped = 0

of_listener-shut : (l : Listener) → of_listener (shut l) ≤ of_listener l
of_listener-shut listening = omega arith
of_listener-shut closing = omega arith
of_listener-shut closed = omega arith

module _ (group : Group) where
  open group use {
    is_cancelled, wait, cancel, finish, fresh-wait, cancel-is_cancelled, cancel-wait, finish_none,
    finish_some-is_cancelled, finish_some-wait_first, finish_some-wait_later,
  }

  -- The steps that are left at most once the context is cancelled.
  abbrev left : Life group → ℕ
  left s =
      of_listener s.http
      + of_listener s.asks
      + of_loop s.health
      + of_loop s.sweep
      + of_stopper s.stopper

  finish-is_cancelled :
      (o : Option Failure) (g : group.G) → is_cancelled g ≡ true → is_cancelled (finish o g) ≡ true
  finish-is_cancelled none g h = ap is_cancelled (finish_none g) ∙ h
  finish-is_cancelled (some e) g h = finish_some-is_cancelled e g

  -- A step of a cancelled program leaves it cancelled, and is one of those that are left.
  Step-left :
      {s t : Life group}
      → is_cancelled s.state ≡ true
      → Step group s t
      → (is_cancelled t.state ≡ true) × (left t + 1 ≤ left s)
  Step-left h (interrupted free) = cc
  Step-left {s} h (http_fails e at) = (finish_some-is_cancelled e s.state, ground arith)
  Step-left {s} h (http_closes at) = (finish-is_cancelled none s.state h, ground arith)
  Step-left {s} h (asks_fail e at) = (finish_some-is_cancelled e s.state, ground arith)
  Step-left {s} h (asks_shut at _) = (h, ground arith)
  Step-left {s} h (asks_close at) = (finish-is_cancelled none s.state h, ground arith)
  Step-left {s} h (health_returns at _) = (finish-is_cancelled none s.state h, ground arith)
  Step-left {s} h (sweep_returns at _) = (finish-is_cancelled none s.state h, ground arith)
  Step-left {s} h (stop at _) = (h, ground (arith, of_listener-shut s.http))
  Step-left {s} h (stops result at) = (finish-is_cancelled result s.state h, ground arith)

  Run-left :
      {n : ℕ} {s t : Life group}
      → is_cancelled s.state ≡ true
      → Run group n s t
      → (is_cancelled t.state ≡ true) × (left t + n ≤ left s)
  Run-left h stay = (h, omega arith)
  Run-left h (further r st) =
      let (still, few) = Run-left h r in
      let (still', fewer) = Step-left still st in (still', omega arith)

  left-le : (s : Life group) → left s ≤ 8
  left-le s = ground arith

  -- The server listens only until Shutdown is called.
  abbrev IsOrderly : Life group → Type 0
  IsOrderly s = (s.stopper ≡ waiting) ⊎ (s.http ≢ listening)

  shut-ne_listening : (l : Listener) → shut l ≢ listening
  shut-ne_listening listening h = cc
  shut-ne_listening closing h = cc
  shut-ne_listening closed h = cc

  Step-IsOrderly : {s t : Life group} → Step group s t → IsOrderly s → IsOrderly t
  Step-IsOrderly (interrupted free) i = i
  Step-IsOrderly (http_fails e at) i = inr (λ h. cc)
  Step-IsOrderly (http_closes at) i = inr (λ h. cc)
  Step-IsOrderly (asks_fail e at) i = i
  Step-IsOrderly (asks_shut at _) i = i
  Step-IsOrderly (asks_close at) i = i
  Step-IsOrderly (health_returns at _) i = i
  Step-IsOrderly (sweep_returns at _) i = i
  Step-IsOrderly {s} (stop at _) i = inr (shut-ne_listening s.http)
  Step-IsOrderly (stops result at) (inl early) = cc
  Step-IsOrderly (stops result at) (inr late) = inr late

  Run-IsOrderly : {n : ℕ} {s t : Life group} → Run group n s t → IsOrderly s → IsOrderly t
  Run-IsOrderly stay i = i
  Run-IsOrderly (further r st) i = Step-IsOrderly st (Run-IsOrderly r i)

  Listener-cases : (l : Listener) → (l ≡ listening) ⊎ ((l ≡ closing) ⊎ (l ≡ closed))
  Listener-cases listening = inl refl
  Listener-cases closing = inr (inl refl)
  Listener-cases closed = inr (inr refl)

  Loop-cases : (l : Loop) → (l ≡ looping) ⊎ (l ≡ returned)
  Loop-cases looping = inl refl
  Loop-cases returned = inr refl

  Stopper-cases : (p : Stopper) → (p ≡ waiting) ⊎ ((p ≡ stopping) ⊎ (p ≡ stopped))
  Stopper-cases waiting = inl refl
  Stopper-cases stopping = inr (inl refl)
  Stopper-cases stopped = inr (inr refl)

  -- A cancelled program in which no step is left is over.
  stuck-IsOver :
      (s : Life group)
      → is_cancelled s.state ≡ true
      → IsOrderly s
      → ((t : Life group) → ¬ (Step group s t))
      → IsOver group s
  stuck-IsOver s h i stuck = record {
    http = http_closed;
    asks = elim (Listener-cases s.asks) [
      | inl at ↦ absurd (stuck _ (asks_shut at h))
      | inr (inl at) ↦ absurd (stuck _ (asks_close at))
      | inr (inr at) ↦ at
    ];
    health = elim (Loop-cases s.health) [
      | inl at ↦ absurd (stuck _ (health_returns at h))
      | inr at ↦ at
    ];
    sweep = elim (Loop-cases s.sweep) [
      | inl at ↦ absurd (stuck _ (sweep_returns at h))
      | inr at ↦ at
    ];
    stopper = stopper_done;
  }
    where
      stopper_done : s.stopper ≡ stopped
      stopper_done = elim (Stopper-cases s.stopper) [
        | inl at ↦ absurd (stuck _ (stop at h))
        | inr (inl at) ↦ absurd (stuck _ (stops none at))
        | inr (inr at) ↦ at
      ]

      http_closed : s.http ≡ closed
      http_closed = elim (Listener-cases s.http) [
        | inl at ↦ absurd (ground (arith, i, stopper_done, at))
        | inr (inl at) ↦ absurd (stuck _ (http_closes at))
        | inr (inr at) ↦ at
      ]

-- The program ends: once its context is cancelled, by a signal or by a goroutine that failed, at
-- most eight steps are left of all that its goroutines do to return, in whatever order they take
-- them, and when none is left every one of them has returned.
pub cancelled-ends :
    (group : Group) (answers_asks : Bool) (m n : ℕ) (s t : Life group)
    → Run group m (begin group answers_asks) s
    → group.is_cancelled s.state ≡ true
    → Run group n s t
    → (n ≤ 8) × (((u : Life group) → ¬ (Step group t u)) → IsOver group t)
cancelled-ends group answers_asks m n s t before h after =
    let (still, few) = Run-left group h after in
    (
      omega (arith, left-le group s),
      stuck-IsOver group t still
          (Run-IsOrderly group after (Run-IsOrderly group before (inl refl))),
    )
