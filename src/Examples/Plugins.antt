-- ===== src/Examples/Plugins.antt =====
-- The theorems on the registry, the maintenance windows and the schema names at concrete inputs.
use apicorex.Base.{◌+◌, ◌≡◌, ◌<◌, ◌≤◌, refl, some, none, ltb, if◌then◌else◌}
use apicorex.Base.Int.{pos}
use apicorex.Text.{lit, ◌==◌}
use apicorex.Map.{lookup}
use apicorex.Registry.Laws.{IsValid}
use apicorex.Registry.Maintenance.{max_maintenance, set_maintenance, maintenance_for}
use apicorex.Registry.Maintenance.Windows.{set-maintenance_for}
use apicorex.Examples.{billing, registry}

pub registry-IsValid : IsValid registry
unfolding lookup
registry-IsValid = record {
  unique = (refl, tt);
  all_filed = (record { filed = refl; address = refl; status = refl }, tt);
}

set-maintenance_for_example :
    ((maintenance_for billing 30 (set_maintenance billing (lit "upgrade") (pos 20) 10 registry).1).0
      ≡ (if billing == billing
          then (if ltb (set_maintenance billing (lit "upgrade") (pos 20) 10 registry).0.until 30
              then none
              else some (set_maintenance billing (lit "upgrade") (pos 20) 10 registry).0)
          else (maintenance_for billing 30 registry).0))
    × (10 < (set_maintenance billing (lit "upgrade") (pos 20) 10 registry).0.until)
    × ((set_maintenance billing (lit "upgrade") (pos 20) 10 registry).0.until
        ≤ 10 + max_maintenance)
set-maintenance_for_example =
    set-maintenance_for billing billing (lit "upgrade") (pos 20) 10 30 registry
