-- ===== src/Program/Lifetime.antt =====
-- The end of cmd/apicorex/main.go: the goroutines that it starts, and how they come to return. The
-- group that they run in (errgroup) is a parameter; the listeners are those of server/http.go and
-- server/ondemand.go, the loops those of internal/protection/health_monitor.go and of the sweep in
-- internal/dispatcher/dispatcher.go. Of net/http it is taken that ListenAndServe returns
-- ErrServerClosed once Shutdown is called.
pub mod Ends
pub mod Exit
use apicorex.Base.{ℕ, zero, suc, ◌≡◌, Bool, true, false, Option, none, some}
use apicorex.Text.{Bytes}

-- What a goroutine can return: context.Canceled, or another error.
pub data Failure : Type 0 where
  canceled : Failure
  other : Bytes → Failure

-- A group of goroutines with a context: what it does with the value that one of them returns, what
-- Wait gives, and whether its context is done. A signal cancels the context. The laws are those of
-- its documentation: the first error is kept and cancels the context, which stays cancelled.
pub record Group : Type 1 where
  pub G : Type 0
  pub fresh : G
  pub is_cancelled : G → Bool
  pub wait : G → Option Failure
  pub cancel : G → G
  pub finish : Option Failure → G → G
  pub fresh-wait : wait fresh ≡ none
  pub cancel-is_cancelled : (g : G) → is_cancelled (cancel g) ≡ true
  pub cancel-wait : (g : G) → wait (cancel g) ≡ wait g
  pub finish_none : (g : G) → finish none g ≡ g
  pub finish_some-is_cancelled : (e : Failure) (g : G) → is_cancelled (finish (some e) g) ≡ true
  pub finish_some-wait_first :
      (e : Failure) (g : G) → wait g ≡ none → wait (finish (some e) g) ≡ some e
  pub finish_some-wait_later :
      (e d : Failure) (g : G) → wait g ≡ some d → wait (finish (some e) g) ≡ some d

-- A goroutine that listens: in ListenAndServe, with Shutdown called, and returned.
pub data Listener : Type 0 where
  listening : Listener
  closing : Listener
  closed : Listener

-- One that loops until the context is done.
pub data Loop : Type 0 where
  looping : Loop
  returned : Loop

-- The one that shuts the server down: before the context is done, in Shutdown, and returned.
pub data Stopper : Type 0 where
  waiting : Stopper
  stopping : Stopper
  stopped : Stopper

-- Shutdown, on a server whose goroutine may have returned.
abbrev pub shut : Listener → Listener
shut listening = closing
shut closing = closing
shut closed = closed

-- RunOnDemandTLS returns nil at once if there is no listener to run.
abbrev pub start_asks : Bool → Listener
start_asks true = listening
start_asks false = closing

module _ (group : Group) where
  open group use {G, fresh, is_cancelled, wait, cancel, finish}

  pub record Life : Type 0 where
    pub state : G
    pub http : Listener
    pub asks : Listener
    pub health : Loop
    pub sweep : Loop
    pub stopper : Stopper

  -- Where main waits.
  abbrev pub begin : Bool → Life
  begin answers_asks = record {
    state = fresh;
    http = listening;
    asks = start_asks answers_asks;
    health = looping;
    sweep = looping;
    stopper = waiting;
  }

  pub data Step (s : Life) : Life → Type 0 where
    -- SIGINT or SIGTERM
    interrupted : is_cancelled s.state ≡ false → Step s (record s { state = cancel s.state })
    -- HTTPServer.Start
    http_fails :
        (e : Failure)
        → s.http ≡ listening
        → Step s (record s { http = closed; state = finish (some e) s.state })
    http_closes :
        s.http ≡ closing → Step s (record s { http = closed; state = finish none s.state })
    -- RunOnDemandTLS, with the goroutine in it that waits for the context
    asks_fail :
        (e : Failure)
        → s.asks ≡ listening
        → Step s (record s { asks = closed; state = finish (some e) s.state })
    asks_shut :
        s.asks ≡ listening → is_cancelled s.state ≡ true → Step s (record s { asks = closing })
    asks_close : s.asks ≡ closing → Step s (record s { asks = closed; state = finish none s.state })
    -- HealthMonitor.Run
    health_returns :
        s.health ≡ looping
        → is_cancelled s.state ≡ true
        → Step s (record s { health = returned; state = finish none s.state })
    -- RunTenantLimiterSweep
    sweep_returns :
        s.sweep ≡ looping
        → is_cancelled s.state ≡ true
        → Step s (record s { sweep = returned; state = finish none s.state })
    -- the last goroutine of main: Shutdown within ten seconds, which may run out
    stop :
        s.stopper ≡ waiting
        → is_cancelled s.state ≡ true
        → Step s (record s { stopper = stopping; http = shut s.http })
    stops :
        (result : Option Failure)
        → s.stopper ≡ stopping
        → Step s (record s { stopper = stopped; state = finish result s.state })

  -- A number of steps.
  pub data Run : ℕ → Life → Life → Type 0 where
    stay : {s : Life} → Run 0 s s
    further : {n : ℕ} {s t u : Life} → Run n s t → Step t u → Run (suc n) s u

  -- Whether every goroutine has returned, so that Wait does.
  pub record IsOver (s : Life) : Type 0 where
    pub http : s.http ≡ closed
    pub asks : s.asks ≡ closed
    pub health : s.health ≡ returned
    pub sweep : s.sweep ≡ returned
    pub stopper : s.stopper ≡ stopped

-- The exit status of main after Wait.
abbrev pub exit_status : Option Failure → ℕ
exit_status none = 0
exit_status (some canceled) = 0
exit_status (some (other e)) = 1
