-- ===== src/System/Interleaved/Past.antt =====
-- The past of a state that the program comes to.
use apicorex.Base.{◌⊎◌, inl, inr}
use apicorex.Program.{Program}
use apicorex.System.{Env}
use apicorex.System.Interleaved.{Running, Event, move, Reach, start, follows}

module _ (env : Env) (program : Program) where
  -- Something holds at a state of the run, or held at an earlier one.
  abbrev pub Once :
      ((r : Running) → Reach env program r → Type 0) → (r : Running) → Reach env program r → Type 0
  Once P _ start = P _ start
  Once P _ (follows e r reach) = P (move env program e r) (follows e r reach) ⊎ Once P r reach

  pub Once-now :
      (P : (r : Running) → Reach env program r → Type 0) (r : Running) (reach : Reach env program r)
      → P r reach
      → Once P r reach
  Once-now P _ start h = h
  Once-now P _ (follows e r reach) h = inl h

  -- What is stable from one state to the next holds now if it held once.
  pub Once-stable :
      (P : (r : Running) → Reach env program r → Type 0)
      → ((e : Event) (r : Running) (reach : Reach env program r)
          → P r reach
          → P (move env program e r) (follows e r reach))
      → (r : Running) (reach : Reach env program r) → Once P r reach
      → P r reach
  Once-stable P keeps _ start h = h
  Once-stable P keeps _ (follows e r reach) (inl h) = h
  Once-stable P keeps _ (follows e r reach) (inr h) =
      keeps e r reach (Once-stable P keeps r reach h)
