-- ===== src/Examples/Registrations.antt =====
-- Registrations that are taken apart: the billing plugin registers twice at once.
use apicorex.Base.{◌≡◌, ◌≢◌, refl, false, none, [], ◌∷◌, In, inl}
use apicorex.Text.{lit, ◌==◌}
use apicorex.Text.Laws.{==_iff}
use apicorex.Registry
use apicorex.Registry.{ids_by_name}
use apicorex.Dispatcher.Routes.{new_route}
use apicorex.Dispatcher.Gateway.{Gateway}
use apicorex.ControlPlane.Handlers.{Env, new_id}
use apicorex.ControlPlane.Regions.{Stage, over}
use apicorex.ControlPlane.Regions.Overlapped.{answer, overlapped}
use apicorex.ControlPlane.Regions.Orphans.{overlapped-orphans}
use apicorex.Examples.{billing, billing_manifest, billing_target, invoices, gateway}
use apicorex.Examples.Calls.{handlers, env}

-- Nothing is registered yet.
abbrev vacant : Gateway
vacant = record gateway { registry = record { plugins = []; maint = [] }; routes = [] }

-- The second call draws another uuid.
abbrev other_env : Env
other_env = record env { fresh_uuid = lit "87654321-0" }

ids_test : (new_id env billing_manifest == new_id other_env billing_manifest) ≡ false
unfolding ◌==◌
ids_test = refl

ids_apart : new_id env billing_manifest ≢ new_id other_env billing_manifest
ids_apart e =
    let same = (==_iff (new_id env billing_manifest) (new_id other_env billing_manifest)).1 e in
    cc (same, ids_test)

abbrev both : Stage × Stage × Gateway
both = overlapped env other_env handlers (lit "http://billing:9000") 9 4 billing_manifest vacant

overlapped-orphans_example :
    (both.0 ≡ over (answer env handlers 4 billing_manifest))
    × (both.1 ≡ over (answer other_env handlers 4 billing_manifest))
    × (Registry.get (new_id env billing_manifest) both.2.registry ≡ none)
    × (ids_by_name billing both.2.registry ≡ new_id other_env billing_manifest ∷ [])
    × In (new_route (new_id env billing_manifest) billing invoices) both.2.routes
unfolding ids_by_name
overlapped-orphans_example =
    overlapped-orphans env other_env handlers (lit "http://billing:9000") 9 4 billing_manifest
      billing_target vacant invoices refl refl refl refl ids_apart (inl refl)
