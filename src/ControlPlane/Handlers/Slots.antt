-- ===== src/ControlPlane/Handlers/Slots.antt =====
-- No call of the control plane touches the slots of the bulkhead.
use apicorex.Base.{
  ℕ, ◌≡◌, refl, ◌∙◌, Option, none, some, List, [], ◌∷◌, Bool-cases, Option-cases, inl, inr,
}
use apicorex.Text.{Bytes, is_empty}
use apicorex.Manifest.{Manifest}
use apicorex.Registry
use apicorex.Registry.{ids_by_name}
use apicorex.Dispatcher.Gateway.{Gateway, add_plugin, remove_plugin}
use apicorex.ControlPlane.Handlers.{
  Handlers, RegisterReq, TokenReq, MaintenanceReq, Env, evict, evict_all, admin_deregister,
  reset_breaker, maintain, Call, call_register, call_heartbeat, call_deregister,
  call_admin_deregister, call_reset, call_maintenance, call_list_maintenance, call_manifest,
  list_maintenance, handle, pull_manifest, admit_plugin, register_manifest, register, verify_token,
  heartbeat, deregister, is_unlisted, is_wrong_key,
}

evict_all-bulkhead : (ids : List Bytes) (g : Gateway) → (evict_all ids g).bulkhead ≡ g.bulkhead
unfolding evict_all remove_plugin
evict_all-bulkhead [] g = refl
evict_all-bulkhead (id ∷ ids) g = evict_all-bulkhead ids (evict id g)

admin_deregister-bulkhead :
    (id : Bytes) (g : Gateway) → (admin_deregister id g).1.bulkhead ≡ g.bulkhead
unfolding admin_deregister remove_plugin
admin_deregister-bulkhead id g = elim (Option-cases (Registry.get id g.registry)) [
  | inl absent ↦ rw (absent, admin_deregister) refl
  | inr (e, found) ↦ rw (found, admin_deregister) refl
]

reset_breaker-bulkhead : (id : Bytes) (g : Gateway) → (reset_breaker id g).1.bulkhead ≡ g.bulkhead
unfolding reset_breaker
reset_breaker-bulkhead id g = elim (Option-cases (Registry.get id g.registry)) [
  | inl absent ↦ rw (absent, reset_breaker) refl
  | inr (e, found) ↦ rw (found, reset_breaker) refl
]

maintain-bulkhead :
    (h : Handlers) (req : Option MaintenanceReq) (now : ℕ) (g : Gateway)
    → (maintain h req now g).1.bulkhead ≡ g.bulkhead
unfolding maintain
maintain-bulkhead h none now g = refl
maintain-bulkhead h (some req) now g = elim (Bool-cases (is_wrong_key h req.api_key)) [
  | inl wrong ↦ simp wrong refl
  | inr right ↦ elim (Bool-cases (is_empty req.plugin)) [
    | inl missing ↦ simp (right, missing) refl
    | inr given ↦ elim (Bool-cases req.on) [
      | inl opens ↦ simp (right, given, opens) refl
      | inr closes ↦ simp (right, given, closes) refl
    ]
  ]
]

module _ (env : Env) (h : Handlers) (now second : ℕ) where
  heartbeat-bulkhead :
      (req : Option TokenReq) (g : Gateway)
      → (heartbeat env h req now second g).1.bulkhead ≡ g.bulkhead
  unfolding heartbeat
  heartbeat-bulkhead none g = refl
  heartbeat-bulkhead (some req) g =
      elim (Bool-cases (verify_token env h second req.plugin_token req.plugin_id)) [
        | inr bad ↦ rw bad refl
        | inl good ↦
            rw good (elim (Option-cases (Registry.heartbeat req.plugin_id now g.registry)) [
              | inl absent ↦ rw absent refl
              | inr (r, found) ↦ rw found refl
            ])
      ]

  deregister-bulkhead :
      (req : Option TokenReq) (g : Gateway)
      → (deregister env h req second g).1.bulkhead ≡ g.bulkhead
  unfolding deregister
  deregister-bulkhead none g = refl
  deregister-bulkhead (some req) g =
      elim (Bool-cases (verify_token env h second req.plugin_token req.plugin_id)) [
        | inr bad ↦ rw bad refl
        | inl good ↦ rw good (admin_deregister-bulkhead req.plugin_id g)
      ]

  admit_plugin-bulkhead :
      (base_url : Bytes) (m : Manifest) (g : Gateway)
      → (admit_plugin env h base_url m now second g).1.bulkhead ≡ g.bulkhead
  unfolding admit_plugin Registry.register add_plugin
  admit_plugin-bulkhead base_url m g = elim (Option-cases (env.parse_url base_url)) [
    | inl bad ↦ rw (bad, admit_plugin, Registry.register) refl
    | inr (target, good) ↦ rw (good, admit_plugin, Registry.register) refl
  ]

  register_manifest-bulkhead :
      (base_url : Bytes) (m : Manifest) (g : Gateway)
      → (register_manifest env h base_url m now second g).1.bulkhead ≡ g.bulkhead
  unfolding register_manifest
  register_manifest-bulkhead base_url m g = elim (Bool-cases (is_unlisted h m.name)) [
    | inl unlisted ↦ rw unlisted refl
    | inr listed ↦
        let ids = ids_by_name m.name g.registry in
        rw listed (admit_plugin-bulkhead base_url m (evict_all ids g) ∙ evict_all-bulkhead ids g)
  ]

  register-bulkhead :
      (req : Option RegisterReq) (g : Gateway)
      → (register env h req now second g).1.bulkhead ≡ g.bulkhead
  unfolding register
  register-bulkhead none g = refl
  register-bulkhead (some req) g = elim (Bool-cases (is_wrong_key h req.api_key)) [
    | inl wrong ↦ simp wrong refl
    | inr right ↦ elim (Bool-cases (is_empty req.base_url)) [
      | inl missing ↦ simp (right, missing) refl
      | inr given ↦
          simp (right, given)
            (elim (Option-cases (pull_manifest env req.base_url)) [
              | inl failed ↦ rw failed refl
              | inr (m, pulled) ↦ rw pulled (register_manifest-bulkhead req.base_url m g)
            ])
    ]
  ]

  -- A call of the control plane leaves the bulkhead as it is.
  pub handle-bulkhead :
      (call : Call) (g : Gateway) → (handle env h call now second g).1.bulkhead ≡ g.bulkhead
  unfolding handle list_maintenance
  handle-bulkhead (call_register req) g = register-bulkhead req g
  handle-bulkhead (call_heartbeat req) g = heartbeat-bulkhead req g
  handle-bulkhead (call_deregister req) g = deregister-bulkhead req g
  handle-bulkhead (call_admin_deregister id) g = admin_deregister-bulkhead id g
  handle-bulkhead (call_reset id) g = reset_breaker-bulkhead id g
  handle-bulkhead (call_maintenance req) g = maintain-bulkhead h req now g
  handle-bulkhead call_list_maintenance g = refl
  handle-bulkhead (call_manifest name) g = refl
