-- ===== src/Protection/HealthMonitor/OnFile.antt =====
-- A round of checks drops no plugin from the registry.
use apicorex.Base.{ℕ, ◌≡◌, true, Option, List, [], ◌∷◌, Bool-cases, Option-cases, inl, inr}
use apicorex.Text.{Bytes}
use apicorex.Map.{lookup}
use apicorex.Registry.{PluginEntry, Registry, list, beat, heartbeat, kill, mark_dead}
use apicorex.Protection.CircuitBreaker.{CircuitBreaker}
use apicorex.Protection.HealthMonitor.{heard, is_healthy, check_one, check_entries, check_all}
use apicorex.ControlPlane.Handlers.Served.{is_registered, registered-insert}

heard-registered :
    (id j : Bytes) (now : ℕ) (r : Registry)
    → is_registered j r.plugins ≡ true
    → is_registered j (heard id now r).plugins ≡ true
unfolding heartbeat
heard-registered id j now r h = elim (Option-cases (lookup id r.plugins)) [
  | inl absent ↦ rw (absent, heartbeat, heard) h
  | inr (e, found) ↦ rw (found, heartbeat, heard) (registered-insert id j (beat now e) r.plugins h)
]

mark_dead-registered :
    (id j : Bytes) (r : Registry)
    → is_registered j r.plugins ≡ true
    → is_registered j (mark_dead id r).plugins ≡ true
unfolding mark_dead
mark_dead-registered id j r h = elim (Option-cases (lookup id r.plugins)) [
  | inl absent ↦ rw (absent, mark_dead) h
  | inr (e, found) ↦ rw (found, mark_dead) (registered-insert id j (kill e) r.plugins h)
]

module _ (probe : Bytes → Option ℕ) (clock : Bytes → ℕ) (j : Bytes) where
  check_one-registered :
      (e : PluginEntry) (r : Registry) (cb : CircuitBreaker)
      → is_registered j r.plugins ≡ true
      → is_registered j (check_one probe clock e r cb).0.plugins ≡ true
  unfolding check_one
  check_one-registered e r cb h =
      let id = e.info.plugin_id in
      elim (Bool-cases (is_healthy probe clock e)) [
        | inl well ↦ rw (well, check_one) (heard-registered id j (clock id) r h)
        | inr ill ↦ rw (ill, check_one) (mark_dead-registered id j r h)
      ]

  check_entries-registered :
      (es : List PluginEntry) (r : Registry) (cb : CircuitBreaker)
      → is_registered j r.plugins ≡ true
      → is_registered j (check_entries probe clock es r cb).0.plugins ≡ true
  unfolding check_entries
  check_entries-registered [] r cb h = h
  check_entries-registered (e ∷ es) r cb h =
      let next = check_one probe clock e r cb in
      check_entries-registered es next.0 next.1 (check_one-registered e r cb h)

  -- A plugin that is registered before a round of checks is registered after it.
  pub check_all-registered :
      (r : Registry) (cb : CircuitBreaker)
      → is_registered j r.plugins ≡ true
      → is_registered j (check_all probe clock r cb).0.plugins ≡ true
  unfolding check_all
  check_all-registered r cb h = check_entries-registered (list r) r cb h
