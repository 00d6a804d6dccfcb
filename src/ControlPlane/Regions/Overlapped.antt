-- ===== src/ControlPlane/Regions/Overlapped.antt =====
-- Two registrations of one plugin that overlap.
use apicorex.Base.{ℕ, ◌≡◌, refl, ap, ◌∙◌, false, some, List, [], ◌∷◌}
use apicorex.Text.{Bytes}
use apicorex.Map.{insert}
use apicorex.Manifest.{Manifest}
use apicorex.Registry
use apicorex.Registry.{Target, PluginEntry, Registry, new_entry, ids_by_name}
use apicorex.Registry.Names.{ids_by_name-insert}
use apicorex.Openapi.{add_spec}
use apicorex.Dispatcher.Gateway.{Gateway, add_plugin}
use apicorex.ControlPlane.PluginToken.{issue}
use apicorex.ControlPlane.Handlers.{Handlers, Reply, registered, Env, is_unlisted, new_id, evict}
use apicorex.ControlPlane.Regions.{
  Stage, listing, evicting, removing, filed, over, on_register, turn, turns,
}
use apicorex.ControlPlane.Regions.Alone.{first_turn}

-- What a registration answers.
abbrev pub answer : Env → Handlers → ℕ → Manifest → Reply
answer env h second m = registered (new_id env m) (issue env.codec h.signer (new_id env m) second)

module _ (env : Env) (h : Handlers) (base_url : Bytes) (now second : ℕ) where
  -- A registry with the plugin on file.
  abbrev with_new : Manifest → Target → Registry → Registry
  with_new m target r = record r {
    plugins =
        insert (new_id env m) (new_entry (new_id env m) m.name base_url m.version m target now)
          r.plugins;
  }

  abbrev with_filed : Manifest → Target → Gateway → Gateway
  with_filed m target g = record g { registry = with_new m target g.registry }

  register-some :
      (m : Manifest) (target : Target) (r : Registry)
      → env.parse_url base_url ≡ some target
      → Registry.register env.parse_url (new_id env m) m.name base_url m.version m now r
        ≡ some (with_new m target r)
  unfolding Registry.register
  register-some m target r e = rw (e, Registry.register) refl

  turns-evicting :
      (m : Manifest) (target : Target) (g : Gateway)
      → env.parse_url base_url ≡ some target
      → turns env h base_url now second 1 (evicting m [], g) ≡ (filed m, with_filed m target g)
  unfolding turns turn
  turns-evicting m target g e = ap (on_register m g) (register-some m target g.registry e)

  turn-listing :
      (m : Manifest) (ids : List Bytes) (g : Gateway)
      → is_unlisted h m.name ≡ false
      → ids_by_name m.name g.registry ≡ ids
      → turn env h base_url now second (listing m) g ≡ (evicting m ids, g)
  unfolding turn
  turn-listing m ids g allowed e = simp (allowed, e) refl

module _ (first second : Env) (h : Handlers) (base_url : Bytes) (now at : ℕ) (m : Manifest) where
  -- Both calls pull the same manifest; the second begins when the first has its plugin on file, and
  -- the first goes on when the second has too.
  abbrev begun : Gateway → Stage × Gateway
  begun g = turns first h base_url now at 2 (listing m, g)

  abbrev joined : Stage × Gateway → Stage × Stage × Gateway
  joined (s, g) = let (t, g') = turns second h base_url now at 4 (listing m, g) in (s, t, g')

  abbrev resumed : Stage × Stage × Gateway → Stage × Stage × Gateway
  resumed (s, t, g) = let (s', g') = turns first h base_url now at 2 (s, g) in (s', t, g')

  abbrev ended : Stage × Stage × Gateway → Stage × Stage × Gateway
  ended (s, t, g) = let (t', g') = turns second h base_url now at 2 (t, g) in (s, t', g')

  abbrev pub overlapped : Gateway → Stage × Stage × Gateway
  overlapped g = ended (resumed (joined (begun g)))

  module _ (target : Target) (g : Gateway) where
    abbrev filed_first : Gateway
    filed_first = with_filed first h base_url now at m target g

    abbrev pub replaced : Gateway
    replaced = with_filed second h base_url now at m target (evict (new_id first m) filed_first)

    -- What is left of a registration that has its plugin on file.
    abbrev pub served_by : Env → Gateway → Gateway
    served_by env g = record (add_plugin (new_id env m) m.name m.plugin_type m.routes g) {
      docs =
          add_spec m.name m.openapi_spec
            (add_plugin (new_id env m) m.name m.plugin_type m.routes g).docs;
    }

    begun_lem :
        is_unlisted h m.name ≡ false
        → ids_by_name m.name g.registry ≡ []
        → first.parse_url base_url ≡ some target
        → begun g ≡ (filed m, filed_first)
    begun_lem allowed unfiled parsed =
        first_turn first h base_url now at 1 (listing m) g (evicting m [], g)
          (turn-listing first h base_url now at m [] g allowed unfiled)
        ∙ turns-evicting first h base_url now at m target g parsed

    joined_lem :
        is_unlisted h m.name ≡ false
        → ids_by_name m.name g.registry ≡ []
        → second.parse_url base_url ≡ some target
        → turns second h base_url now at 4 (listing m, filed_first) ≡ (filed m, replaced)
    unfolding turn
    joined_lem allowed unfiled parsed =
        let id = new_id first m in
        let entry = new_entry id m.name base_url m.version m target now in
        let go = first_turn second h base_url now at in
        go 3 (listing m) filed_first (evicting m (id ∷ []), filed_first)
          (turn-listing second h base_url now at m (id ∷ []) filed_first allowed
            (ids_by_name-insert id entry g.registry unfiled))
        ∙ go 2 (evicting m (id ∷ [])) filed_first
            (
              removing m id [],
              record filed_first { registry = Registry.deregister id filed_first.registry },
            )
            refl
        ∙ go 1 (removing m id [])
            (record filed_first { registry = Registry.deregister id filed_first.registry })
            (evicting m [], evict id filed_first) refl
        ∙ turns-evicting second h base_url now at m target (evict id filed_first) parsed

    pub overlapped_lem :
        is_unlisted h m.name ≡ false
        → ids_by_name m.name g.registry ≡ []
        → first.parse_url base_url ≡ some target
        → second.parse_url base_url ≡ some target
        → overlapped g ≡ (
          over (answer first h at m),
          over (answer second h at m),
          served_by second (served_by first replaced),
        )
    unfolding turns turn
    overlapped_lem allowed unfiled parsed parsed' =
        ap (λ p. ended (resumed (joined p))) (begun_lem allowed unfiled parsed)
        ∙ ap (λ (p : Stage × Gateway). ended (resumed (filed m, p.0, p.1)))
            (joined_lem allowed unfiled parsed')
