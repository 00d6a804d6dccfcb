-- ===== src/System/Interleaved.antt =====
-- The running program with its requests interleaved lock region by lock region: a request arrives,
-- passes the middleware, and then takes the turns of Dispatcher.Regions one at a time; between any
-- two of them the other requests take theirs, operators act and health is checked. Plugins register
-- and leave only between the requests that read a route: the source does not wait for these.
pub mod Slots
pub mod Accounted
pub mod Past
pub mod Passed
pub mod Known
pub mod Mediated
use apicorex.Base.{ℕ, zero, suc, Bool, true, false, ◌&&◌, ◌||◌, List, [], ◌∷◌, if◌then◌else◌}
use apicorex.Http.{Context, Flow, next, abort}
use apicorex.Dispatcher.Gateway.{Gateway}
use apicorex.Dispatcher.Dispatch.{with_request_id}
use apicorex.Dispatcher.Regions.{Stage, begun, leaving, over, Outside, turn}
use apicorex.ControlPlane.Handlers.{call_register, call_deregister, call_admin_deregister}
use apicorex.Server.Chain.{Server, arrive}
use apicorex.Program.{Program}
use apicorex.System
use apicorex.System.{Env, control, with_gateway, step}

-- The state, and how far each request has come, the latest first.
pub record Running : Type 0 where
  pub server : Server
  pub stages : List Stage

pub data Event : Type 0 where
  -- a request arrives, and begins Dispatch unless the middleware answers it
  arrives : ℕ → Context → Event
  -- one of the requests, counted from the latest, takes its next turn
  turns_one : ℕ → Outside → Event
  -- anything else, but that a change of the route table does not come while a route is read
  meanwhile : System.Event → Event

-- Whether a request reads the route that match pointed to, from the search to the record of the
-- outcome. The deferred Release has its argument from before.
unfoldable pub is_reading : Stage → Bool
is_reading (begun c) = false
is_reading (leaving entry d answer) = false
is_reading (over d answer) = false
is_reading _ = true

unfoldable pub are_reading : List Stage → Bool
unfolding is_reading
are_reading [] = false
are_reading (t ∷ ts) = is_reading t || are_reading ts

-- Whether an event can change the route table.
unfoldable pub is_change : System.Event → Bool
is_change (control headers (call_register req) now second) = true
is_change (control headers (call_deregister req) now second) = true
is_change (control headers (call_admin_deregister id) now second) = true
is_change _ = false

module _ (env : Env) (program : Program) where
  abbrev pub taken_in : Flow × Server → List Stage → Running
  taken_in (abort r, s) ts = record { server = s; stages = ts }
  taken_in (next c, s) ts = record {
    server = s;
    stages = begun (with_request_id env.chain.proxy c) ∷ ts;
  }

  -- A turn of the k-th request; a number that no request has changes nothing.
  unfoldable pub turn_at : ℕ → Outside → List Stage → Gateway → List Stage × Gateway
  turn_at k o [] g = ([], g)
  turn_at zero o (t ∷ ts) g = let (t', g') = turn env.chain.proxy o t g in (t' ∷ ts, g')
  turn_at (suc k) o (t ∷ ts) g = let (ts', g') = turn_at k o ts g in (t ∷ ts', g')

  unfoldable pub move : Event → Running → Running
  unfolding turn_at is_change are_reading
  move (arrives now c) r = taken_in (arrive env.chain program.settings now c r.server) r.stages
  move (turns_one k o) r =
      let (ts, g) = turn_at k o r.stages r.server.gateway in
      record { server = with_gateway r.server g; stages = ts }
  move (meanwhile e) r =
      if is_change e && are_reading r.stages
      then r
      else record r { server = step env program e r.server }

  pub data Reach : Running → Type 0 where
    start : Reach (record { server = program.server; stages = [] })
    follows : (e : Event) (r : Running) → Reach r → Reach (move e r)
