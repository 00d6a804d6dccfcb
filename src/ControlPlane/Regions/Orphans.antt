-- ===== src/ControlPlane/Regions/Orphans.antt =====
-- What two overlapping registrations of one plugin leave behind.
use apicorex.Base.{
  ℕ, ◌≡◌, ◌≢◌, refl, sym, ap, subst, ◌∙◌, false, none, some, [], ◌∷◌, In, Bool-cases, inl, inr,
}
use apicorex.Text.{Bytes, ◌==◌}
use apicorex.Text.Laws.{==_iff, ==_refl}
use apicorex.Map.Laws.{lookup-insert, lookup-delete}
use apicorex.Manifest.{Route, Manifest}
use apicorex.Registry
use apicorex.Registry.{Target, Registry, new_entry, ids_by_name}
use apicorex.Registry.Names.{ids_by_name-insert, ids_by_name-deregister}
use apicorex.Dispatcher.Routes.{new_route}
use apicorex.Dispatcher.Routes.Kept.{add_routes-own, add_routes-other}
use apicorex.Dispatcher.Gateway.{Gateway, add_plugin, remove_plugin}
use apicorex.ControlPlane.Handlers.{Handlers, Env, is_unlisted, new_id}
use apicorex.ControlPlane.Regions.{Stage, over}
use apicorex.ControlPlane.Regions.Overlapped.{
  answer, overlapped, overlapped_lem, served_by, replaced,
}

==-apart : (s t : Bytes) → s ≢ t → (s == t) ≡ false
==-apart s t apart = elim (Bool-cases (s == t)) [
  | inl same ↦ absurd (apart ((==_iff s t).0 same))
  | inr distinct ↦ distinct
]

module _ (first second : Env) (h : Handlers) (base_url : Bytes) (now at : ℕ) (m : Manifest) where
  module _ (target : Target) (g : Gateway) where
    abbrev final : Gateway
    final = served_by first second h base_url now at m target g second (
        served_by first second h base_url now at m target g first
          (replaced first second h base_url now at m target g))

    get-final :
        new_id first m ≢ new_id second m → Registry.get (new_id first m) final.registry ≡ none
    unfolding add_plugin remove_plugin Registry.deregister
    get-final apart =
        simp
          (
            lookup-insert,
            lookup-delete,
            ==-apart (new_id second m) (new_id first m) (λ e. apart (sym e)),
            ==_refl (new_id first m),
          )
          refl

    ids-final :
        ids_by_name m.name g.registry ≡ []
        → ids_by_name m.name final.registry ≡ new_id second m ∷ []
    unfolding add_plugin remove_plugin
    ids-final unfiled =
        ids_by_name-insert (new_id second m)
          (new_entry (new_id second m) m.name base_url m.version m target now) _
          (ids_by_name-deregister (new_id first m)
            (new_entry (new_id first m) m.name base_url m.version m target now) g.registry unfiled)

    routes-final :
        (r : Route)
        → In r m.routes
        → new_id first m ≢ new_id second m
        → In (new_route (new_id first m) m.name r) final.routes
    unfolding add_plugin
    routes-final r listed apart =
        add_routes-other (new_id second m) m.name (new_route (new_id first m) m.name r) m.routes _
          (==-apart (new_id first m) (new_id second m) apart)
          (add_routes-own (new_id first m) m.name r m.routes _ listed)

-- Two registrations of one plugin that is admitted, at an address that parses, the second of which
-- evicts the first between its Register and its AddRoutes, are both answered with a token. If no
-- plugin of its name was there and their ids are distinct, the registry then has no plugin of the
-- first id, IDsByName gives the second id alone, and every route of the manifest is in the table
-- for the first id.
pub overlapped-orphans :
    (first second : Env) (h : Handlers) (base_url : Bytes) (now at : ℕ) (m : Manifest)
    (target : Target) (g : Gateway) (r : Route)
    → is_unlisted h m.name ≡ false
    → ids_by_name m.name g.registry ≡ []
    → first.parse_url base_url ≡ some target
    → second.parse_url base_url ≡ some target
    → new_id first m ≢ new_id second m
    → In r m.routes
    → ((overlapped first second h base_url now at m g).0 ≡ over (answer first h at m))
      × ((overlapped first second h base_url now at m g).1 ≡ over (answer second h at m))
      × (Registry.get (new_id first m) (overlapped first second h base_url now at m g).2.registry
          ≡ none)
      × (ids_by_name m.name (overlapped first second h base_url now at m g).2.registry
          ≡ new_id second m ∷ [])
      × In
          (new_route (new_id first m) m.name r)
          (overlapped first second h base_url now at m g).2.routes
overlapped-orphans first second h base_url now at m target g r allowed unfiled parsed parsed' apart
      listed =
    let e =
      overlapped_lem first second h base_url now at m target g allowed unfiled parsed parsed' in
    (
      ap (λ (p : Stage × Stage × Gateway). p.0) e,
      ap (λ (p : Stage × Stage × Gateway). p.1) e,
      ap (λ (p : Stage × Stage × Gateway). Registry.get (new_id first m) p.2.registry) e
          ∙ get-final first second h base_url now at m target g apart,
      ap (λ (p : Stage × Stage × Gateway). ids_by_name m.name p.2.registry) e
          ∙ ids-final first second h base_url now at m target g unfiled,
      subst (λ (p : Stage × Stage × Gateway). In (new_route (new_id first m) m.name r) p.2.routes)
          (sym e) (routes-final first second h base_url now at m target g r listed apart),
    )
