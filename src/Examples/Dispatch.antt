-- ===== src/Examples/Dispatch.antt =====
-- The theorems on the dispatcher at concrete inputs.
use apicorex.Base.{
  some, length, List, ◌++◌, ◌≡◌, ◌⊎◌, ◌↔◌, refl, true, false, none, [], ◌∷◌, In, All,
}
use apicorex.Text.{lit, ◌==◌, has_prefix, to_upper, upper, split, trim, trim_suffix, cut}
use apicorex.Map.{lookup, insert, delete, get_or}
use apicorex.Registry.Maintenance.{maintenance_for, clear_maintenance}
use apicorex.Middleware.Authz.{permission_allowed, perm_match}
use apicorex.Protection.Firewall.{is_route_blocked}
use apicorex.Protection.CircuitBreaker.{new_circuit_breaker, allow}
use apicorex.Protection.RateLimiter
use apicorex.Protection.RateLimiter.{new_rate_limiter, refilled}
use apicorex.Protection.Bulkhead.{new_bulkhead, acquire, release}
use apicorex.Dispatcher.Routes.InPlace.{
  read_cell, write_cell, filter_cells, remove_in_place, cells_from, remove_in_place_lem,
}
use apicorex.Dispatcher.Routes.{
  remove_routes, RouteEntry, pattern_match, wildcard_match, segments, segments_match, exact, loose,
  first, match,
}
use apicorex.Dispatcher.Routes.Match.{match_first, Fits, pattern_match_iff}
use apicorex.Dispatcher.Nav.{nav_entry, build_nav}
use apicorex.Dispatcher.Nav.Visible.{IsVisible, build_nav_iff}
use apicorex.Dispatcher.Dispatch.{
  Env, forward, admit, pass_authorization, authorized, pass_registry, pass_maintenance,
  pass_breaker, pass_bulkhead, pass_limits,
}
use apicorex.Dispatcher.Dispatch.Mediation.{IsAdmitted}
use apicorex.Dispatcher.Dispatch.Admission.{admit-forward_iff}
use apicorex.Examples.{billing_entry, invoices_item, route_entry, context, gateway}

-- The caller's request is forwarded by this gateway.
admit_test : (admit 5 context gateway).0 ≡ forward route_entry billing_entry
unfolding admit is_route_blocked match first ◌==◌ to_upper pattern_match split trim segments_match
    pass_authorization authorized permission_allowed perm_match cut pass_registry lookup
    pass_maintenance pass_breaker pass_bulkhead pass_limits wildcard_match delete get_or insert
    acquire release allow RateLimiter.allow refilled clear_maintenance maintenance_for has_prefix
    trim_suffix upper new_circuit_breaker new_bulkhead new_rate_limiter
admit_test = refl

admit-forward_iff_example :
    ((admit 5 context gateway).0 ≡ forward route_entry billing_entry)
    ↔ IsAdmitted 5 context gateway route_entry billing_entry
admit-forward_iff_example = admit-forward_iff 5 context gateway route_entry billing_entry

abbrev pub env : Env
env = record {
  fresh_id = lit "r1";
  sha256_hex = λ s. lit "0123456789abcdef";
  encode = λ es. none;
  inject_trace = λ h. h;
  serve = λ pe r. 502;
}

match_first_example :
    (before : List RouteEntry) × (after : List RouteEntry) × (gateway.routes
      ≡ before ++ (route_entry ∷ after))
    × ((All (λ s. exact (lit "GET") (lit "/billing/7") s ≡ false) before
          × (exact (lit "GET") (lit "/billing/7") route_entry ≡ true))
        ⊎ (All (λ s. exact (lit "GET") (lit "/billing/7") s ≡ false) gateway.routes
            × All (λ s. loose (lit "GET") (lit "/billing/7") s ≡ false) before
            × (loose (lit "GET") (lit "/billing/7") route_entry ≡ true)))
unfolding match first ◌==◌ to_upper pattern_match split trim segments_match has_prefix
match_first_example = match_first (lit "GET") (lit "/billing/7") gateway.routes route_entry refl

pattern_match_iff_example :
    (pattern_match (lit "/billing/:id") (lit "/billing/7") ≡ true)
    ↔ Fits (segments (lit "/billing/:id")) (segments (lit "/billing/7"))
pattern_match_iff_example = pattern_match_iff (lit "/billing/:id") (lit "/billing/7")

build_nav_iff_example :
    In
      (nav_entry billing_entry invoices_item)
      (build_nav (billing_entry ∷ []) (lit "billing:*" ∷ []) [])
    ↔ IsVisible
        (lit "billing:*" ∷ [])
        []
        (billing_entry ∷ [])
        (nav_entry billing_entry invoices_item)
build_nav_iff_example =
    build_nav_iff (lit "billing:*" ∷ []) [] (billing_entry ∷ [])
      (nav_entry billing_entry invoices_item)

-- The route of another plugin in front of the billing plugin's.
abbrev cells : List RouteEntry
cells = record route_entry { plugin_id = lit "blog-1" } ∷ route_entry ∷ []

remove_in_place_lem_example : remove_in_place (lit "blog-1") cells ≡ (
  remove_routes (lit "blog-1") cells
      ++ cells_from (length (remove_routes (lit "blog-1") cells)) cells,
  length (remove_routes (lit "blog-1") cells),
)
remove_in_place_lem_example = remove_in_place_lem (lit "blog-1") cells

-- A pointer to the route that is removed reads the billing plugin's then.
pointer_test : read_cell 0 (remove_in_place (lit "blog-1") cells).0 ≡ some route_entry
unfolding read_cell remove_in_place filter_cells write_cell ◌==◌
pointer_test = refl
