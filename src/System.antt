-- ===== src/System.antt =====
-- The running program: what can happen to its state, one event after another. A request runs from
-- its arrival to its end; Interleaved has its requests interleaved.
pub mod Stays
pub mod Reachable
pub mod Interleaved
use apicorex.Base.{ℕ, Bool, true, false, Option, none, some, List, [], ◌∷◌, if◌then◌else◌}
use apicorex.Text.{Bytes}
use apicorex.Http.{Headers, Context}
use apicorex.Auth.Domain.{DomainResolver}
use apicorex.Protection.HealthMonitor.{check_all}
use apicorex.Dispatcher.Gateway.{Gateway, sweep_tenants}
use apicorex.ControlPlane.Handlers
use apicorex.ControlPlane.Handlers.{Call}
use apicorex.ControlPlane.Mount.{mounted}
use apicorex.Server.OnDemand.{ask}
use apicorex.Server.Chain
use apicorex.Server.Chain.{Server, identity_url, serve}
use apicorex.Program.{Program, tenant_max_idle}

pub record Env : Type 0 where
  pub chain : Chain.Env
  pub control : Handlers.Env

pub data Event : Type 0 where
  -- a request decided at an instant, whose answer is recorded at a later one
  request : ℕ → ℕ → Context → Event
  -- a call of the control plane with its headers, its instant and the same in seconds
  control : Headers → Call → ℕ → ℕ → Event
  -- a tick of the health monitor: what the probes answer, and when
  health_check : (Bytes → Option ℕ) → (Bytes → ℕ) → Event
  -- a tick of the sweep of the tenants' limiters
  limiter_sweep : ℕ → Event
  -- the reverse proxy asks for a hostname
  certificate_ask : ℕ → Bytes → Event

abbrev pub with_gateway : Server → Gateway → Server
with_gateway s g = record s { gateway = g }

-- checkAll, on the registry and the breaker that the gateway shares
abbrev pub check_health : (Bytes → Option ℕ) → (Bytes → ℕ) → Gateway → Gateway
check_health probe clock g =
    let (reg, cb) = check_all probe clock g.registry g.breaker in
    record g { registry = reg; breaker = cb }

module _ (env : Env) (program : Program) where
  abbrev asked : ℕ → Bytes → Server → Option DomainResolver → Server
  asked now domain s none = s
  asked now domain s (some d) = record s {
    resolver = some (ask env.chain.domain (identity_url s.gateway) now domain d).1;
  }

  unfoldable pub step : Event → Server → Server
  step (request now later c) s = (serve env.chain program.settings now later c s).1
  step (control headers call now second) s =
      with_gateway s (mounted env.control program.handlers headers call now second s.gateway).1
  step (health_check probe clock) s = with_gateway s (check_health probe clock s.gateway)
  step (limiter_sweep now) s = with_gateway s (sweep_tenants tenant_max_idle now s.gateway)
  step (certificate_ask now domain) s =
      let after = asked now domain s s.resolver in if program.answers_asks then after else s

  -- The states that the program can come to.
  pub data Reach : Server → Type 0 where
    start : Reach program.server
    next : (e : Event) (s : Server) → Reach s → Reach (step e s)
