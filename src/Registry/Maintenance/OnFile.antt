-- ===== src/Registry/Maintenance/OnFile.antt =====
-- Reading the windows drops none of the plugins.
use apicorex.Base.{ℕ, ◌≡◌, refl, ◌∙◌, List, [], ◌∷◌, ltb, Bool-cases, Option-cases, inl, inr}
use apicorex.Text.{Bytes}
use apicorex.Map.{lookup}
use apicorex.Registry.{Registry, Window}
use apicorex.Registry.Maintenance.{
  maintenance_for, clear_maintenance, collect_windows, maintenances,
}

pub maintenance_for-plugins :
    (name : Bytes) (now : ℕ) (r : Registry) → (maintenance_for name now r).1.plugins ≡ r.plugins
unfolding maintenance_for clear_maintenance
maintenance_for-plugins name now r = elim (Option-cases (lookup name r.maint)) [
  | inl absent ↦ rw (absent, maintenance_for) refl
  | inr (w, found) ↦ elim (Bool-cases (ltb w.until now)) [
    | inl over ↦ rw (found, maintenance_for) (rw over refl)
    | inr lasts ↦ rw (found, maintenance_for) (rw lasts refl)
  ]
]

collect_windows-plugins :
    (ns : List (Bytes × Window)) (now : ℕ) (r : Registry)
    → (collect_windows ns now r).1.plugins ≡ r.plugins
unfolding collect_windows
collect_windows-plugins [] now r = refl
collect_windows-plugins ((name, w) ∷ ns) now r =
    collect_windows-plugins ns now (maintenance_for name now r).1
    ∙ maintenance_for-plugins name now r

pub maintenances-plugins : (now : ℕ) (r : Registry) → (maintenances now r).1.plugins ≡ r.plugins
unfolding maintenances
maintenances-plugins now r = collect_windows-plugins r.maint now r
