-- ===== src/Protection/HealthMonitor.antt =====
-- internal/protection/health_monitor.go: one tick of Run. The HTTP client is a parameter: the
-- status of a GET, `none` for its errors. `clock` gives the instant at which a plugin is settled.
pub mod Round
pub mod OnFile
use apicorex.Base.{
  ℕ, Bool, true, false, Option, none, some, List, [], ◌∷◌, ◌++◌, nat_eq, if◌then◌else◌,
}
use apicorex.Text.{Bytes, lit}
use apicorex.Registry.{PluginEntry, Registry, list, heartbeat, mark_dead}
use apicorex.Protection.CircuitBreaker.{CircuitBreaker, force_open}

abbrev is_ok : Option ℕ → Bool
is_ok none = false
is_ok (some status) = nat_eq status 200

-- Heartbeat with its error ignored.
abbrev pub heard : Bytes → ℕ → Registry → Registry
heard id now r = elim (heartbeat id now r) [ none ↦ r | some r' ↦ r' ]

module _ (probe : Bytes → Option ℕ) (clock : Bytes → ℕ) where
  -- Whether the plugin's health endpoint answers with 200.
  abbrev pub is_healthy : PluginEntry → Bool
  is_healthy e = is_ok (probe (e.base_url ++ lit "/_apicorex/health"))

  -- The body of the loop.
  unfoldable pub check_one : PluginEntry → Registry → CircuitBreaker → Registry × CircuitBreaker
  check_one e r cb =
      let id = e.info.plugin_id in
      if is_healthy e
      then (heard id (clock id) r, cb)
      else (mark_dead id r, force_open id (clock id) cb)

  unfoldable pub check_entries :
      List PluginEntry → Registry → CircuitBreaker → Registry × CircuitBreaker
  check_entries [] r cb = (r, cb)
  check_entries (e ∷ es) r cb = let (r', cb') = check_one e r cb in check_entries es r' cb'

  -- checkAll
  unfoldable pub check_all : Registry → CircuitBreaker → Registry × CircuitBreaker
  check_all r cb = check_entries (list r) r cb
