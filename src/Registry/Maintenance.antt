-- ===== src/Registry/Maintenance.antt =====
-- internal/registry/maintenance.go: a plugin that is up but must not be reached.
pub mod Windows
pub mod OnFile
use apicorex.Base.{
  ℕ, ◌+◌, ◌*◌, ◌^◌, Bool, true, false, Option, none, some, List, [], ◌∷◌, ltb, if◌then◌else◌, ◌||◌,
}
use apicorex.Base.Int.{ℤ, pos, negsuc}
use apicorex.Text.{Bytes}
use apicorex.Map.{Map, lookup, insert, delete}
use apicorex.Registry.{Registry, Window}

-- 15 minutes, in nanoseconds
abbrev pub max_maintenance : ℕ
max_maintenance = 15 * 60 * 10 ^ 9

-- The clamp of SetMaintenance: a duration that is not positive or too long is the longest one.
unfoldable pub clamp : ℤ → ℕ
clamp (pos d) =
    if ltb 0 d then if ltb max_maintenance d then max_maintenance else d else max_maintenance
clamp (negsuc d) = max_maintenance

-- Since of the window that is open already, if one is.
abbrev pub since_of : ℕ → Option Window → ℕ
since_of now none = now
since_of now (some prev) = if ltb now prev.until then prev.since else now

-- SetMaintenance; its two readings of the clock are one instant here.
unfoldable pub set_maintenance : Bytes → Bytes → ℤ → ℕ → Registry → Window × Registry
set_maintenance name reason d now r =
    let w : Window = record {
      reason = reason;
      since = since_of now (lookup name r.maint);
      until = now + clamp d;
    } in
    (w, record r { maint = insert name w r.maint })

-- ClearMaintenance
unfoldable pub clear_maintenance : Bytes → Registry → Registry
clear_maintenance name r = record r { maint = delete name r.maint }

-- MaintenanceFor
unfoldable pub maintenance_for : Bytes → ℕ → Registry → Option Window × Registry
maintenance_for name now r = elim (lookup name r.maint) [
  | none ↦ (none, r)
  | some w ↦ if ltb w.until now then (none, clear_maintenance name r) else (some w, r)
]

-- The second loop of Maintenances, over the names that the first one read.
unfoldable pub collect_windows : List (Bytes × Window) → ℕ → Registry → Map Window × Registry
collect_windows [] now r = ([], r)
collect_windows ((name, _) ∷ ns) now r =
    let (found, r') = maintenance_for name now r in
    let (rest, r'') = collect_windows ns now r' in
    (elim found [ none ↦ rest | some w ↦ insert name w rest ], r'')

-- Maintenances
unfoldable pub maintenances : ℕ → Registry → Map Window × Registry
maintenances now r = collect_windows r.maint now r
