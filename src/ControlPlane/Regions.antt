-- ===== src/ControlPlane/Regions.antt =====
-- register of internal/controlplane/handlers.go again, as the goroutine of one call, from the pulled
-- manifest on: one turn for each region in which it holds a lock of the shared state. Between two
-- turns anything can happen to the gateway, since the handler holds no lock of its own.
pub mod Alone
pub mod Overlapped
pub mod Orphans
use apicorex.Base.{
  ℕ, zero, suc, Bool, true, false, Option, none, some, List, [], ◌∷◌, if◌then◌else◌,
}
use apicorex.Text.{Bytes, lit}
use apicorex.Manifest.{Manifest}
use apicorex.Registry
use apicorex.Registry.{Registry, ids_by_name}
use apicorex.Openapi.{add_spec}
use apicorex.ControlPlane.PluginToken
use apicorex.Dispatcher.Gateway.{Gateway, add_plugin, remove_plugin}
use apicorex.ControlPlane.Handlers.{Handlers, Reply, refused, registered, Env, is_unlisted, new_id}

-- What register has come to.
pub data Stage : Type 0 where
  -- before IDsByName
  listing : Manifest → Stage
  -- before Deregister of the first stale id, or before Register if none is left
  evicting : Manifest → List Bytes → Stage
  -- before RemoveRoutes of an id, with those after it
  removing : Manifest → Bytes → List Bytes → Stage
  -- before AddRoutes of the dispatcher
  filed : Manifest → Stage
  -- before AddRoutes of the injector, with the answer after it
  routed : Manifest → Stage
  over : Reply → Stage

-- After Register of the registry.
abbrev pub on_register : Manifest → Gateway → Option Registry → Stage × Gateway
on_register m g none = (over (refused 500 (lit "invalid base_url")), g)
on_register m g (some r) = (filed m, record g { registry = r })

-- A call, with what it takes from outside: each has a fresh uuid.
module _ (env : Env) (h : Handlers) (base_url : Bytes) (now second : ℕ) where
  unfoldable pub turn : Stage → Gateway → Stage × Gateway
  turn (listing m) g =
      if is_unlisted h m.name
      then (over (refused 403 (lit "not in allowlist")), g)
      else (evicting m (ids_by_name m.name g.registry), g)
  turn (evicting m []) g =
      on_register m g
        (Registry.register env.parse_url (new_id env m) m.name base_url m.version m now g.registry)
  turn (evicting m (id ∷ ids)) g =
      (removing m id ids, record g { registry = Registry.deregister id g.registry })
  turn (removing m id ids) g = (evicting m ids, remove_plugin id g)
  turn (filed m) g = (routed m, add_plugin (new_id env m) m.name m.plugin_type m.routes g)
  turn (routed m) g = (
    over (registered (new_id env m) (PluginToken.issue env.codec h.signer (new_id env m) second)),
    record g { docs = add_spec m.name m.openapi_spec g.docs },
  )
  turn (over r) g = (over r, g)

  -- Some turns with nothing in between.
  unfoldable pub turns : ℕ → Stage × Gateway → Stage × Gateway
  unfolding turn
  turns zero p = p
  turns (suc n) (s, g) = turns n (turn s g)
