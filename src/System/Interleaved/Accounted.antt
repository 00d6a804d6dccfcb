-- ===== src/System/Interleaved/Accounted.antt =====
-- The slots in use are the requests that hold one, whatever interleaves.
use apicorex.Base.{
  ◌&&◌, Bool-cases, inl, inr, ℕ, zero, suc, ◌+◌, ◌≤◌, ◌≡◌, refl, sym, subst, ◌∙◌, List, [], ◌∷◌,
  arith,
}
use apicorex.Text.{Bytes}
use apicorex.Http.{Flow, next, abort}
use apicorex.Protection.Bulkhead.{active_of, new_bulkhead}
use apicorex.Dispatcher.Gateway.{Gateway, new_gateway}
use apicorex.Dispatcher.Dispatch.Kept.{Keeps}
use apicorex.Dispatcher.Regions.{Stage, Outside}
use apicorex.Server.Chain.{Server, arrive}
use apicorex.Server.Chain.Mediated.{arrive-gateway}
use apicorex.Config.{Config}
use apicorex.Map.Laws.{get_or-empty}
use apicorex.Server.ProductHosts.{ok}
use apicorex.Program.{Program, boot, new_server}
use apicorex.System.{Env, step}
use apicorex.System.Stays.{Stays, step-Keeps}
use apicorex.System.Reachable.{boot-server}
use apicorex.System.Interleaved.{
  Running, Event, arrives, turns_one, meanwhile, taken_in, turn_at, is_change, are_reading, move,
  Reach, start, follows,
}
use apicorex.System.Interleaved.Slots.{holds, turn-IsFair}

-- How many of the requests hold a slot of a plugin.
unfoldable pub held : Bytes → List Stage → ℕ
held id [] = 0
held id (t ∷ ts) = holds id t + held id ts

-- The limit of the bulkhead is a given one, and the slots in use of every plugin are the requests
-- that hold one of it, at most as many as the limit.
pub record IsAccounted (max : ℕ) (g : Gateway) (ts : List Stage) : Type 0 where
  pub limit : g.bulkhead.max_conc ≡ max
  pub exact : (id : Bytes) → active_of id g.bulkhead ≡ held id ts
  pub bounded : (id : Bytes) → active_of id g.bulkhead ≤ max

-- What the turn of one among several requests does, the slots of the others included.
record AreFair (ts : List Stage) (g : Gateway) (p : List Stage × Gateway) : Type 0 where
  kept : Keeps g p.1
  moved :
      (id : Bytes)
      → held id ts ≤ active_of id g.bulkhead
      → active_of id p.1.bulkhead + held id ts ≡ active_of id g.bulkhead + held id p.0
  within :
      (id : Bytes)
      → active_of id g.bulkhead ≤ g.bulkhead.max_conc
      → active_of id p.1.bulkhead ≤ g.bulkhead.max_conc

module _ (env : Env) (program : Program) (max : ℕ) where
  turn_at-AreFair :
      (k : ℕ) (o : Outside) (ts : List Stage) (g : Gateway)
      → AreFair ts g (turn_at env program k o ts g)
  unfolding turn_at held
  turn_at-AreFair k o [] g = record {
    kept = (refl, refl, refl);
    moved = λ id used. omega arith;
    within = λ id few. few;
  }
  turn_at-AreFair zero o (t ∷ ts) g =
      let fair = turn-IsFair env.chain.proxy o t g in
      record {
        kept = fair.kept;
        moved = λ id used. omega (arith, fair.moved id (omega arith));
        within = fair.within;
      }
  turn_at-AreFair (suc k) o (t ∷ ts) g =
      let fair = turn_at-AreFair k o ts g in
      record {
        kept = fair.kept;
        moved = λ id used. omega (arith, fair.moved id (omega arith));
        within = fair.within;
      }

  -- The invariant speaks of the gateway alone.
  same-IsAccounted :
      (g g' : Gateway) (ts : List Stage) → Stays g g' → IsAccounted max g ts → IsAccounted max g' ts
  same-IsAccounted g g' ts stays i = record {
    limit = stays.limit ∙ i.limit;
    exact = λ id. stays.slots id ∙ i.exact id;
    bounded = λ id. omega (arith, stays.slots id, i.bounded id);
  }

  turn_at-IsAccounted :
      (k : ℕ) (o : Outside) (ts : List Stage) (g : Gateway)
      → IsAccounted max g ts
      → IsAccounted max (turn_at env program k o ts g).1 (turn_at env program k o ts g).0
  turn_at-IsAccounted k o ts g i =
      let fair = turn_at-AreFair k o ts g in
      record {
        limit = fair.kept.2 ∙ i.limit;
        exact = λ id. omega (arith, i.exact id, fair.moved id (omega (arith, i.exact id)));
        bounded =
            λ id. omega (arith, i.limit, fair.within id (omega (arith, i.limit, i.bounded id)));
      }

  taken_in-IsAccounted :
      (p : Flow × Server) (ts : List Stage)
      → IsAccounted max p.1.gateway ts
      → let r = taken_in env program p ts in IsAccounted max r.server.gateway r.stages
  unfolding held holds
  taken_in-IsAccounted (abort a, s) ts i = i
  taken_in-IsAccounted (next c, s) ts i = record {
    limit = i.limit;
    exact = λ id. omega (arith, i.exact id);
    bounded = i.bounded;
  }

  move-IsAccounted :
      (e : Event) (r : Running)
      → IsAccounted max r.server.gateway r.stages
      → IsAccounted max (move env program e r).server.gateway (move env program e r).stages
  unfolding move
  move-IsAccounted (arrives now c) r i =
      let p = arrive env.chain program.settings now c r.server in
      taken_in-IsAccounted p r.stages (
        subst (λ g. IsAccounted max g r.stages)
          (sym (arrive-gateway env.chain program.settings now c r.server)) i)
  move-IsAccounted (turns_one k o) r i = turn_at-IsAccounted k o r.stages r.server.gateway i
  move-IsAccounted (meanwhile e) r i = elim (Bool-cases (is_change e && are_reading r.stages)) [
    | inl waits ↦ simp waits i
    | inr free ↦ simp free (
        same-IsAccounted r.server.gateway (step env program e r.server).gateway r.stages
          (step-Keeps env program e r.server).0 i)
  ]

  Reach-IsAccounted :
      IsAccounted max program.server.gateway []
      → (r : Running) → Reach env program r
      → IsAccounted max r.server.gateway r.stages
  Reach-IsAccounted i _ start = i
  Reach-IsAccounted i _ (follows e r reach) = move-IsAccounted e r (Reach-IsAccounted i r reach)

-- In every state that the program comes to from its start, with its requests interleaved lock region
-- by lock region, with answers that break off, and with everything else that happens, but that no
-- plugin registers or leaves while a request reads its route: the slots in use of every plugin are
-- the requests that stand between Acquire and the deferred Release for it, and never more than the
-- default bulkhead_max, which is the limit of every plugin.
pub boot-IsAccounted :
    (env : Env) (getenv : Bytes → Bytes) (cfg : Config) (program : Program) (r : Running)
    → boot getenv cfg ≡ ok program
    → Reach env program r
    → IsAccounted cfg.default.bulkhead_max r.server.gateway r.stages
unfolding new_server new_gateway new_bulkhead held
boot-IsAccounted env getenv cfg program r booted reach =
    let first = boot-server getenv cfg program booted in
    Reach-IsAccounted env program cfg.default.bulkhead_max
      (subst (λ (s : Server). IsAccounted cfg.default.bulkhead_max s.gateway []) (sym first)
        (record {
          limit = refl;
          exact = λ id. get_or-empty 0 id;
          bounded = λ id. omega (arith, get_or-empty {V = ℕ} 0 id);
        }))
      r reach
