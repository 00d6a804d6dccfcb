-- ===== src/Protection/HealthMonitor/Round.antt =====
-- What one round of health checks leaves behind.
use apicorex.Base.{
  ℕ, ◌≡◌, refl, ◌∙◌, Bool, Option, none, some, [], ◌∷◌, arith, Bool-cases, Option-cases, inl, inr,
  if◌then◌else◌,
}
use apicorex.Text.{Bytes, ◌==◌}
use apicorex.Text.Laws.{==_iff}
use apicorex.Map.{Map, lookup}
use apicorex.Map.Laws.{lookup-insert, get_or-insert}
use apicorex.Map.Unique.{IsUnique}
use apicorex.Map.Entries.{AllEntries}
use apicorex.Registry.{PluginEntry, Registry, beat, kill, heartbeat, mark_dead, list, entries}
use apicorex.Registry.Laws.{IsFiled, IsValid}
use apicorex.Protection.CircuitBreaker.{CircuitBreaker, opened, state_of, force_open}
use apicorex.Protection.HealthMonitor.{heard, is_healthy, check_one, check_entries, check_all}

abbrev on_entry : (PluginEntry → PluginEntry) → Option PluginEntry → Option PluginEntry
on_entry f none = none
on_entry f (some e) = some (f e)

lookup-heard :
    (id other : Bytes) (now : ℕ) (r : Registry)
    → lookup other (heard id now r).plugins ≡ (
        if id == other
        then on_entry (beat now) (lookup other r.plugins)
        else lookup other r.plugins)
unfolding heartbeat
lookup-heard id other now r = elim (Option-cases (lookup id r.plugins)) [
  | inl absent ↦ rw (absent, heartbeat, heard) (ground (arith, ==_iff id other))
  | inr (e, found) ↦
      rw (found, heartbeat, heard) (simp lookup-insert (ground (arith, ==_iff id other)))
]

lookup-mark_dead :
    (id other : Bytes) (r : Registry)
    → lookup other (mark_dead id r).plugins
      ≡ (if id == other then on_entry kill (lookup other r.plugins) else lookup other r.plugins)
unfolding mark_dead
lookup-mark_dead id other r = elim (Option-cases (lookup id r.plugins)) [
  | inl absent ↦ rw (absent, mark_dead) (ground (arith, ==_iff id other))
  | inr (e, found) ↦ rw (found, mark_dead) (simp lookup-insert (ground (arith, ==_iff id other)))
]

module _ (probe : Bytes → Option ℕ) (clock : Bytes → ℕ) where
  -- What a check makes of an entry.
  abbrev pub settle : Bool → ℕ → PluginEntry → PluginEntry
  settle healthy now e = if healthy then beat now e else kill e

  lookup-check_one :
      (e : PluginEntry) (id : Bytes) (r : Registry) (cb : CircuitBreaker)
      → lookup id (check_one probe clock e r cb).0.plugins ≡ (
          if e.info.plugin_id == id
          then on_entry (settle (is_healthy probe clock e) (clock id)) (lookup id r.plugins)
          else lookup id r.plugins)
  unfolding check_one
  lookup-check_one e id r cb = elim (Bool-cases (is_healthy probe clock e)) [
    | inl up ↦ simp up (
        lookup-heard e.info.plugin_id id (clock e.info.plugin_id) r
        ∙ ground (arith, ==_iff e.info.plugin_id id))
    | inr down ↦ simp down (lookup-mark_dead e.info.plugin_id id r)
  ]

  lookup-check_entries :
      (m : Map PluginEntry) (id : Bytes) (r : Registry) (cb : CircuitBreaker)
      → IsUnique m
      → AllEntries IsFiled m
      → lookup id (check_entries probe clock (entries m) r cb).0.plugins ≡ elim (lookup id m) [
        | none ↦ lookup id r.plugins
        | some e ↦ on_entry (settle (is_healthy probe clock e) (clock id)) (lookup id r.plugins)
      ]
  unfolding check_entries entries lookup
  lookup-check_entries [] id r cb u f = refl
  lookup-check_entries ((j, e) ∷ m) id r cb (fresh, u) (here, f) =
      lookup-check_entries m id (check_one probe clock e r cb).0 (check_one probe clock e r cb).1 u
        f
      ∙ ground
          (arith, lookup-check_one e id r cb, here.filed, ==_iff e.info.plugin_id id, ==_iff j id)

  state-check_one :
      (e : PluginEntry) (id : Bytes) (r : Registry) (cb : CircuitBreaker)
      → state_of id (check_one probe clock e r cb).1 ≡ (
          if is_healthy probe clock e
          then state_of id cb
          else if e.info.plugin_id == id
          then opened
          else state_of id cb)
  unfolding check_one force_open
  state-check_one e id r cb = elim (Bool-cases (is_healthy probe clock e)) [
    | inl up ↦ simp up refl
    | inr down ↦ simp down (simp get_or-insert (ground (arith, ==_iff e.info.plugin_id id)))
  ]

  state-check_entries :
      (m : Map PluginEntry) (id : Bytes) (r : Registry) (cb : CircuitBreaker)
      → IsUnique m
      → AllEntries IsFiled m
      → state_of id (check_entries probe clock (entries m) r cb).1 ≡ elim (lookup id m) [
        | none ↦ state_of id cb
        | some e ↦ if is_healthy probe clock e then state_of id cb else opened
      ]
  unfolding check_entries entries lookup
  state-check_entries [] id r cb u f = refl
  state-check_entries ((j, e) ∷ m) id r cb (fresh, u) (here, f) =
      state-check_entries m id (check_one probe clock e r cb).0 (check_one probe clock e r cb).1 u f
      ∙ ground
          (arith, state-check_one e id r cb, here.filed, ==_iff e.info.plugin_id id, ==_iff j id)

  -- After a round over a valid registry, every plugin whose health endpoint answered with 200 is
  -- alive, with the instant of its check as its last heartbeat, and its circuit breaker is in the
  -- state that it was in; every other registered plugin is marked dead, with its breaker open; and
  -- an id that is not registered is still not registered, with its breaker as it was.
  pub check_all-settle :
      (id : Bytes) (r : Registry) (cb : CircuitBreaker)
      → IsValid r
      → (lookup id (check_all probe clock r cb).0.plugins ≡ elim (lookup id r.plugins) [
        | none ↦ none
        | some e ↦ some (settle (is_healthy probe clock e) (clock id) e)
      ])
        × (state_of id (check_all probe clock r cb).1 ≡ elim (lookup id r.plugins) [
          | none ↦ state_of id cb
          | some e ↦ if is_healthy probe clock e then state_of id cb else opened
        ])
  unfolding check_all list
  check_all-settle id r cb v = (
    lookup-check_entries r.plugins id r cb v.unique v.all_filed ∙ ground arith,
    state-check_entries r.plugins id r cb v.unique v.all_filed,
  )
