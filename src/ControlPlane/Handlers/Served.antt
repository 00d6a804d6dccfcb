-- ===== src/ControlPlane/Handlers/Served.antt =====
-- The route table names only plugins that are registered.
use apicorex.Base.{
  ℕ, ◌≡◌, refl, sym, subst, ap, ◌∙◌, Bool, true, false, Option, none, some, List, [], ◌∷◌, map,
  arith, All, All-append, Bool-cases, Option-cases, inl, inr,
}
use apicorex.Text.{Bytes, ◌==◌, is_empty}
use apicorex.Text.Laws.{==_iff, ==_refl}
use apicorex.Map.{Map, lookup, insert, delete}
use apicorex.Map.Laws.{lookup-insert, lookup-delete}
use apicorex.Manifest.{Route, Manifest}
use apicorex.Registry
use apicorex.Registry.{PluginEntry, Registry, ids_by_name}
use apicorex.Registry.Maintenance.{set_maintenance, clear_maintenance}
use apicorex.Registry.Maintenance.OnFile.{maintenances-plugins}
use apicorex.Dispatcher.Routes.{RouteEntry, new_route, remove_routes, add_routes}
use apicorex.Dispatcher.Gateway.{Gateway, add_plugin, remove_plugin}
use apicorex.ControlPlane.Handlers.{
  Handlers, RegisterReq, TokenReq, MaintenanceReq, Env, evict, evict_all, admin_deregister,
  reset_breaker, maintain, Call, call_register, call_heartbeat, call_deregister,
  call_admin_deregister, call_reset, call_maintenance, call_list_maintenance, call_manifest,
  list_maintenance, handle, pull_manifest, new_id, admit_plugin, register_manifest, register,
  verify_token, heartbeat, deregister, is_unlisted, is_wrong_key,
}

abbrev pub on_file : Option PluginEntry → Bool
on_file none = false
on_file (some _) = true

abbrev pub is_registered : Bytes → Map PluginEntry → Bool
is_registered id m = on_file (lookup id m)

registered-delete :
    (id j : Bytes) (m : Map PluginEntry)
    → (j == id) ≡ false
    → is_registered j m ≡ true
    → is_registered j (delete id m) ≡ true
registered-delete id j m apart h =
    ap on_file (lookup-delete id j m) ∙ ground (arith, ==_iff j id, ==_iff id j)

pub registered-insert :
    (id j : Bytes) (e : PluginEntry) (m : Map PluginEntry)
    → is_registered j m ≡ true
    → is_registered j (insert id e m) ≡ true
registered-insert id j e m h = ap on_file (lookup-insert id j e m) ∙ ground arith

-- Every route belongs to a plugin that is on file under the route's id.
abbrev pub AllServed : List RouteEntry → Map PluginEntry → Type 0
AllServed routes m = All (λ (r : RouteEntry). is_registered r.plugin_id m ≡ true) routes

abbrev pub IsServed : Gateway → Type 0
IsServed g = AllServed g.routes g.registry.plugins

delete-AllServed :
    (id : Bytes) (routes : List RouteEntry) (m : Map PluginEntry)
    → AllServed routes m
    → AllServed (remove_routes id routes) (delete id m)
unfolding remove_routes
delete-AllServed id [] m s = tt
delete-AllServed id (r ∷ rs) m (h, s) = elim (Bool-cases (r.plugin_id == id)) [
  | inl gone ↦ rw gone (delete-AllServed id rs m s)
  | inr kept ↦ rw kept (registered-delete id r.plugin_id m kept h, delete-AllServed id rs m s)
]

insert-AllServed :
    (id : Bytes) (e : PluginEntry) (routes : List RouteEntry) (m : Map PluginEntry)
    → AllServed routes m
    → AllServed routes (insert id e m)
insert-AllServed id e [] m s = tt
insert-AllServed id e (r ∷ rs) m (h, s) =
    (registered-insert id r.plugin_id e m h, insert-AllServed id e rs m s)

remove-AllServed :
    (id : Bytes) (routes : List RouteEntry) (m : Map PluginEntry)
    → AllServed routes m
    → AllServed (remove_routes id routes) m
unfolding remove_routes
remove-AllServed id [] m s = tt
remove-AllServed id (r ∷ rs) m (h, s) = elim (Bool-cases (r.plugin_id == id)) [
  | inl gone ↦ rw gone (remove-AllServed id rs m s)
  | inr kept ↦ rw kept (h, remove-AllServed id rs m s)
]

new-AllServed :
    (id name : Bytes) (e : PluginEntry) (routes : List Route) (m : Map PluginEntry)
    → AllServed (map (new_route id name) routes) (insert id e m)
new-AllServed id name e [] m = tt
new-AllServed id name e (r ∷ rs) m =
    (ap on_file (lookup-insert id id e m) ∙ rw ==_refl refl, new-AllServed id name e rs m)

pub evict-IsServed : (id : Bytes) (g : Gateway) → IsServed g → IsServed (evict id g)
unfolding remove_plugin Registry.deregister
evict-IsServed id g s = delete-AllServed id g.routes g.registry.plugins s

evict_all-IsServed : (ids : List Bytes) (g : Gateway) → IsServed g → IsServed (evict_all ids g)
unfolding evict_all
evict_all-IsServed [] g s = s
evict_all-IsServed (id ∷ ids) g s = evict_all-IsServed ids (evict id g) (evict-IsServed id g s)

heartbeat-IsServed :
    (env : Env) (h : Handlers) (req : Option TokenReq) (now second : ℕ) (g : Gateway)
    → IsServed g
    → IsServed (heartbeat env h req now second g).1
unfolding heartbeat Registry.heartbeat
heartbeat-IsServed env h none now second g s = s
heartbeat-IsServed env h (some req) now second g s =
    elim (Bool-cases (verify_token env h second req.plugin_token req.plugin_id)) [
      | inr bad ↦ rw bad s
      | inl good ↦ rw good (elim (Option-cases (lookup req.plugin_id g.registry.plugins)) [
        | inl absent ↦ rw (absent, Registry.heartbeat) s
        | inr (e, found) ↦
            rw (found, Registry.heartbeat)
              (insert-AllServed req.plugin_id (Registry.beat now e) g.routes g.registry.plugins s)
      ])
    ]

admin_deregister-IsServed :
    (id : Bytes) (g : Gateway) → IsServed g → IsServed (admin_deregister id g).1
unfolding admin_deregister
admin_deregister-IsServed id g s = elim (Option-cases (Registry.get id g.registry)) [
  | inl absent ↦ rw (absent, admin_deregister) s
  | inr (e, found) ↦ rw (found, admin_deregister) (evict-IsServed id g s)
]

deregister-IsServed :
    (env : Env) (h : Handlers) (req : Option TokenReq) (second : ℕ) (g : Gateway)
    → IsServed g
    → IsServed (deregister env h req second g).1
unfolding deregister
deregister-IsServed env h none second g s = s
deregister-IsServed env h (some req) second g s =
    elim (Bool-cases (verify_token env h second req.plugin_token req.plugin_id)) [
      | inr bad ↦ rw bad s
      | inl good ↦ rw good (admin_deregister-IsServed req.plugin_id g s)
    ]

admit_plugin-IsServed :
    (env : Env) (h : Handlers) (base_url : Bytes) (m : Manifest) (now second : ℕ) (g : Gateway)
    → IsServed g
    → IsServed (admit_plugin env h base_url m now second g).1
unfolding admit_plugin Registry.register add_plugin add_routes
admit_plugin-IsServed env h base_url m now second g s =
    elim (Option-cases (env.parse_url base_url)) [
      | inl bad ↦ rw (bad, admit_plugin, Registry.register) s
      | inr (target, good) ↦
          let id = new_id env m in
          let e = Registry.new_entry id m.name base_url m.version m target now in
          rw (good, admit_plugin, Registry.register)
            (All-append
              (λ (r : RouteEntry).
                is_registered r.plugin_id (insert id e g.registry.plugins) ≡ true)
              (remove_routes id g.routes) (map (new_route id m.name) m.routes)
              (insert-AllServed id e (remove_routes id g.routes) g.registry.plugins
                (remove-AllServed id g.routes g.registry.plugins s))
              (new-AllServed id m.name e m.routes g.registry.plugins))
    ]

register_manifest-IsServed :
    (env : Env) (h : Handlers) (base_url : Bytes) (m : Manifest) (now second : ℕ) (g : Gateway)
    → IsServed g
    → IsServed (register_manifest env h base_url m now second g).1
unfolding register_manifest
register_manifest-IsServed env h base_url m now second g s =
    elim (Bool-cases (is_unlisted h m.name)) [
      | inl unlisted ↦ rw unlisted s
      | inr listed ↦ rw listed (
          admit_plugin-IsServed env h base_url m now second
            (evict_all (ids_by_name m.name g.registry) g)
            (evict_all-IsServed (ids_by_name m.name g.registry) g s))
    ]

register-IsServed :
    (env : Env) (h : Handlers) (req : Option RegisterReq) (now second : ℕ) (g : Gateway)
    → IsServed g
    → IsServed (register env h req now second g).1
unfolding register
register-IsServed env h none now second g s = s
register-IsServed env h (some req) now second g s = elim (Bool-cases (is_wrong_key h req.api_key)) [
  | inl wrong ↦ simp wrong s
  | inr right ↦ elim (Bool-cases (is_empty req.base_url)) [
    | inl missing ↦ simp (right, missing) s
    | inr given ↦
        simp (right, given)
          (elim (Option-cases (pull_manifest env req.base_url)) [
            | inl failed ↦ rw failed s
            | inr (m, pulled) ↦
                rw pulled (register_manifest-IsServed env h req.base_url m now second g s)
          ])
  ]
]

maintain-IsServed :
    (h : Handlers) (req : Option MaintenanceReq) (now : ℕ) (g : Gateway)
    → IsServed g
    → IsServed (maintain h req now g).1
unfolding maintain set_maintenance clear_maintenance
maintain-IsServed h none now g s = s
maintain-IsServed h (some req) now g s = elim (Bool-cases (is_wrong_key h req.api_key)) [
  | inl wrong ↦ simp wrong s
  | inr right ↦ elim (Bool-cases (is_empty req.plugin)) [
    | inl missing ↦ simp (right, missing) s
    | inr given ↦ elim (Bool-cases req.on) [
      | inl opens ↦ simp (right, given, opens) s
      | inr closes ↦ simp (right, given, closes) s
    ]
  ]
]

reset_breaker-IsServed : (id : Bytes) (g : Gateway) → IsServed g → IsServed (reset_breaker id g).1
unfolding reset_breaker
reset_breaker-IsServed id g s = elim (Option-cases (Registry.get id g.registry)) [
  | inl absent ↦ rw (absent, reset_breaker) s
  | inr (e, found) ↦ rw (found, reset_breaker) s
]

-- If every route of the table belongs to a registered plugin, the same holds after any call of the
-- control plane: a registration, a heartbeat, a deregistration by the plugin or by an operator, a
-- reset of a breaker, a change or a list of the maintenance windows or a question for a manifest,
-- whether it succeeds or is refused.
pub handle-IsServed :
    (env : Env) (h : Handlers) (call : Call) (now second : ℕ) (g : Gateway)
    → IsServed g
    → IsServed (handle env h call now second g).1
unfolding handle list_maintenance
handle-IsServed env h (call_register req) now second g s =
    register-IsServed env h req now second g s
handle-IsServed env h (call_heartbeat req) now second g s =
    heartbeat-IsServed env h req now second g s
handle-IsServed env h (call_deregister req) now second g s =
    deregister-IsServed env h req second g s
handle-IsServed env h (call_admin_deregister id) now second g s = admin_deregister-IsServed id g s
handle-IsServed env h (call_reset id) now second g s = reset_breaker-IsServed id g s
handle-IsServed env h (call_maintenance req) now second g s = maintain-IsServed h req now g s
handle-IsServed env h call_list_maintenance now second g s =
    subst (λ m. AllServed g.routes m) (sym (maintenances-plugins now g.registry)) s
handle-IsServed env h (call_manifest name) now second g s = s
