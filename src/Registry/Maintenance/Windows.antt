-- ===== src/Registry/Maintenance/Windows.antt =====
-- How long a window stays open, and what is listed.
use apicorex.Base.{
  ℕ, ◌+◌, ◌≤◌, ◌<◌, ◌≡◌, refl, ap, ◌∙◌, Option, none, some, [], ◌∷◌, arith, Option-cases, inl, inr,
  if◌then◌else◌, ltb,
}
use apicorex.Base.Int.{ℤ, pos, negsuc}
use apicorex.Text.{Bytes, ◌==◌}
use apicorex.Text.Laws.{==_iff}
use apicorex.Map.{Map, lookup, insert}
use apicorex.Map.Laws.{lookup-insert, lookup-delete}
use apicorex.Map.Unique.{IsUnique}
use apicorex.Registry.{Registry, Window}
use apicorex.Registry.Maintenance.{
  max_maintenance, clamp, since_of, set_maintenance, clear_maintenance, maintenance_for,
  collect_windows, maintenances,
}

pub clamp_bounds : (d : ℤ) → (0 < clamp d) × (clamp d ≤ max_maintenance)
unfolding clamp
clamp_bounds (pos d) = ground arith
clamp_bounds (negsuc d) = omega arith

-- The window that a request at `now` meets, if the one on file is `o`.
abbrev pub open_at : ℕ → Option Window → Option Window
open_at now none = none
open_at now (some w) = if ltb w.until now then none else some w

pub maintenance_for-open_at :
    (name : Bytes) (now : ℕ) (r : Registry)
    → (maintenance_for name now r).0 ≡ open_at now (lookup name r.maint)
unfolding maintenance_for
maintenance_for-open_at name now r = elim (Option-cases (lookup name r.maint)) [
  | inl absent ↦ rw (absent, maintenance_for) refl
  | inr (w, found) ↦ rw (found, maintenance_for) (ground arith)
]

-- After SetMaintenance at `now` the plugin is in the stored window exactly up to the window's end,
-- which lies after `now` and at most fifteen minutes later; the windows of other names are as
-- they were.
pub set-maintenance_for :
    (name other reason : Bytes) (d : ℤ) (now t : ℕ) (r : Registry)
    → ((maintenance_for other t (set_maintenance name reason d now r).1).0 ≡ (
        if name == other
        then (if ltb (set_maintenance name reason d now r).0.until t
            then none
            else some (set_maintenance name reason d now r).0)
        else (maintenance_for other t r).0))
      × (now < (set_maintenance name reason d now r).0.until)
      × ((set_maintenance name reason d now r).0.until ≤ now + max_maintenance)
unfolding set_maintenance
set-maintenance_for name other reason d now t r = (
  simp (maintenance_for-open_at, lookup-insert) (ground (arith, ==_iff name other)),
  omega (arith, clamp_bounds d),
  omega (arith, clamp_bounds d),
)

-- Extending a window that is still open keeps its beginning.
pub since-set_maintenance :
    (name reason : Bytes) (d : ℤ) (now : ℕ) (w : Window) (r : Registry)
    → lookup name r.maint ≡ some w
    → now < w.until
    → (set_maintenance name reason d now r).0.since ≡ w.since
unfolding set_maintenance
since-set_maintenance name reason d now w r found before = ap (since_of now) found ∙ ground arith

-- Dropping one expired window changes what no name meets at the same instant.
maintenance_for-maintenance_for :
    (name j : Bytes) (now : ℕ) (r : Registry)
    → (maintenance_for name now (maintenance_for j now r).1).0 ≡ (maintenance_for name now r).0
maintenance_for-maintenance_for name j now r = simp maintenance_for-open_at (
    unfold maintenance_for clear_maintenance in
    ground (arith, lookup-delete j name r.maint, ==_iff j name))

-- What a name that is on file, or not, has in the listing.
abbrev listed : Option Window → Option Window → Option Window
listed none found = none
listed (some _) found = found

add_found-lookup :
    (name j : Bytes) (found : Option Window) (rest : Map Window)
    → lookup name (elim found [ none ↦ rest | some w ↦ insert j w rest ]) ≡ elim found [
      | none ↦ lookup name rest
      | some w ↦ if j == name then some w else lookup name rest
    ]
add_found-lookup name j none rest = refl
add_found-lookup name j (some w) rest = lookup-insert j name w rest

collect_windows-lookup :
    (name : Bytes) (ns : Map Window) (now : ℕ) (r : Registry)
    → IsUnique ns
    → lookup name (collect_windows ns now r).0
      ≡ listed (lookup name ns) (maintenance_for name now r).0
unfolding collect_windows lookup
collect_windows-lookup name [] now r u = refl
collect_windows-lookup name ((j, w) ∷ ns) now r (fresh, u) =
    let (found, r') = maintenance_for j now r in
    add_found-lookup name j found (collect_windows ns now r').0
    ∙ ground (
      arith,
      collect_windows-lookup name ns now (maintenance_for j now r).1 u,
      maintenance_for-maintenance_for name j now r,
      ==_iff j name,
    )

-- If the windows on file hold every name once, the listing holds, for every plugin name, exactly
-- the window that a request would meet.
pub maintenances-lookup :
    (name : Bytes) (now : ℕ) (r : Registry)
    → IsUnique r.maint
    → lookup name (maintenances now r).0 ≡ (maintenance_for name now r).0
unfolding maintenances
maintenances-lookup name now r u =
    collect_windows-lookup name r.maint now r u ∙ rw maintenance_for-open_at (ground arith)
