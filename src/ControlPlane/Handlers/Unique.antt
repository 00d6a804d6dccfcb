-- ===== src/ControlPlane/Handlers/Unique.antt =====
-- Registering a plugin again replaces it.
use apicorex.Base.{
  ℕ, ◌≡◌, ◌≢◌, sym, ◌∙◌, some, List, [], ◌∷◌, In, Bool-cases, Option-cases, inl, inr,
}
use apicorex.Text.{Bytes, ◌==◌}
use apicorex.Text.Laws.{==_iff}
use apicorex.Map.{lookup}
use apicorex.Map.Laws.{lookup-insert, lookup-delete}
use apicorex.Manifest.{Manifest}
use apicorex.Registry
use apicorex.Registry.{PluginEntry, Registry, ids_by_name}
use apicorex.Registry.Laws.{IsValid, ids_by_name_iff}
use apicorex.Dispatcher.Gateway.{Gateway, add_plugin, remove_plugin}
use apicorex.ControlPlane.Handlers.{
  Handlers, registered, Env, evict, evict_all, new_id, admit_plugin, register_manifest, is_unlisted,
}

evict-lookup :
    (id x : Bytes) (e : PluginEntry) (g : Gateway)
    → lookup x (evict id g).registry.plugins ≡ some e
    → (lookup x g.registry.plugins ≡ some e) × (id ≢ x)
unfolding remove_plugin Registry.deregister
evict-lookup id x e g h =
    let h' = sym (lookup-delete id x g.registry.plugins) ∙ h in
    elim (Bool-cases (id == x)) [
      | inl same ↦ cc (rw same at h')
      | inr apart ↦ (rw apart at h', λ q. cc (apart, (==_iff id x).1 q))
    ]

evict_all-lookup :
    (ids : List Bytes) (x : Bytes) (e : PluginEntry) (g : Gateway)
    → lookup x (evict_all ids g).registry.plugins ≡ some e
    → (lookup x g.registry.plugins ≡ some e) × (In x ids → ⊥)
unfolding evict_all
evict_all-lookup [] x e g h = (h, λ m. elim m [ ])
evict_all-lookup (id ∷ ids) x e g h =
    let (found, outside) = evict_all-lookup ids x e (evict id g) h in
    let (before, apart) = evict-lookup id x e g found in
    (before, λ m. elim m [ inl q ↦ apart q | inr n ↦ outside n ])

admit_plugin-lookup :
    (env : Env) (h : Handlers) (base_url : Bytes) (m : Manifest) (now second : ℕ) (g : Gateway)
    (id token x : Bytes) (e : PluginEntry)
    → (admit_plugin env h base_url m now second g).0 ≡ registered id token
    → lookup x (admit_plugin env h base_url m now second g).1.registry.plugins ≡ some e
    → (x ≢ id → lookup x g.registry.plugins ≡ some e)
unfolding admit_plugin Registry.register add_plugin
admit_plugin-lookup env h base_url m now second g id token x e answer found apart =
    elim (Option-cases (env.parse_url base_url)) [
      | inl bad ↦ cc (rw (bad, admit_plugin, Registry.register) at answer)
      | inr (target, good) ↦
          let answer' = rw (good, admit_plugin, Registry.register) at answer in
          let found' = rw (good, admit_plugin, Registry.register) at found in
          let entry = Registry.new_entry (new_id env m) m.name base_url m.version m target now in
          let same : new_id env m ≡ id = cc answer' in
          let here = sym (lookup-insert (new_id env m) x entry g.registry.plugins) ∙ found' in
          elim (Bool-cases (new_id env m == x)) [
            | inl hit ↦ absurd (apart (sym ((==_iff _ _).0 hit) ∙ same))
            | inr miss ↦ rw miss at here
          ]
    ]

-- When a manifest is registered with success, from a valid registry, whatever is on file under the
-- manifest's name afterwards is on file under the id that the answer gives: every earlier plugin
-- of the name is gone.
pub register_manifest_unique :
    (env : Env) (h : Handlers) (base_url : Bytes) (m : Manifest) (now second : ℕ) (g : Gateway)
    (id token x : Bytes) (e : PluginEntry)
    → IsValid g.registry
    → (register_manifest env h base_url m now second g).0 ≡ registered id token
    → lookup x (register_manifest env h base_url m now second g).1.registry.plugins ≡ some e
    → e.info.plugin_name ≡ m.name
    → x ≡ id
unfolding register_manifest
register_manifest_unique env h base_url m now second g id token x e v answer found named =
    elim (Bool-cases (is_unlisted h m.name)) [
      | inl unlisted ↦ cc (rw unlisted at answer)
      | inr listed ↦ elim (Bool-cases (x == id)) [
        | inl same ↦ (==_iff x id).0 same
        | inr apart ↦
            let ids = ids_by_name m.name g.registry in
            let left =
              admit_plugin-lookup env h base_url m now second (evict_all ids g) id token x e
                (rw listed at answer) (rw listed at found) (λ q. cc (apart, (==_iff x id).1 q)) in
            let (before, outside) = evict_all-lookup ids x e g left in
            absurd (outside ((ids_by_name_iff m.name x g.registry v).1 (e, before, named)))
      ]
    ]
