-- ===== src/ControlPlane/Handlers/Docs.antt =====
-- The plugins' documents follow the registrations.
use apicorex.Base.{
  ℕ, ◌≡◌, refl, ap, ◌∙◌, none, some, List, [], ◌∷◌, Bool-cases, Option-cases, inl, inr,
  if◌then◌else◌,
}
use apicorex.Text.{Bytes, ◌==◌, is_empty}
use apicorex.Text.Laws.{==_refl}
use apicorex.Map.{lookup}
use apicorex.Map.Laws.{lookup-insert, lookup-delete}
use apicorex.Manifest.{Manifest}
use apicorex.Registry
use apicorex.Registry.{PluginEntry, ids_by_name}
use apicorex.Openapi.{Injector, add_spec, remove_spec}
use apicorex.Dispatcher.Gateway.{Gateway, add_plugin, remove_plugin}
use apicorex.ControlPlane.Handlers.{
  Handlers, registered, Env, evict, evict_all, admin_deregister, admit_plugin, register_manifest,
  is_unlisted,
}

evict_all-docs : (ids : List Bytes) (g : Gateway) → (evict_all ids g).docs ≡ g.docs
unfolding evict_all remove_plugin
evict_all-docs [] g = refl
evict_all-docs (id ∷ ids) g = evict_all-docs ids (evict id g)

-- What a registration makes of the document under a name.
add_spec-lookup :
    (name other spec : Bytes) (inj : Injector)
    → lookup other (add_spec name spec inj).specs ≡ (
        if is_empty spec
        then lookup other inj.specs
        else if name == other
        then some spec
        else lookup other inj.specs)
unfolding add_spec
add_spec-lookup name other [] inj = refl
add_spec-lookup name other (c ∷ spec) inj = lookup-insert name other (c ∷ spec) inj.specs

admit_plugin-docs :
    (env : Env) (h : Handlers) (base_url : Bytes) (m : Manifest) (now second : ℕ) (g : Gateway)
    (id token : Bytes)
    → (admit_plugin env h base_url m now second g).0 ≡ registered id token
    → (admit_plugin env h base_url m now second g).1.docs ≡ add_spec m.name m.openapi_spec g.docs
unfolding admit_plugin Registry.register add_plugin
admit_plugin-docs env h base_url m now second g id token answer =
    elim (Option-cases (env.parse_url base_url)) [
      | inl bad ↦ cc (rw (bad, admit_plugin, Registry.register) at answer)
      | inr (target, good) ↦ rw (good, admit_plugin, Registry.register) refl
    ]

-- After a registration that succeeds, the document under the manifest's name is the manifest's,
-- except that a manifest without a document leaves the one of the plugin that it replaces; the
-- documents under all other names are as before.
pub register_manifest-docs :
    (env : Env) (h : Handlers) (base_url : Bytes) (m : Manifest) (now second : ℕ) (g : Gateway)
    (id token other : Bytes)
    → (register_manifest env h base_url m now second g).0 ≡ registered id token
    → lookup other (register_manifest env h base_url m now second g).1.docs.specs ≡ (
        if is_empty m.openapi_spec
        then lookup other g.docs.specs
        else if m.name == other
        then some m.openapi_spec
        else lookup other g.docs.specs)
unfolding register_manifest
register_manifest-docs env h base_url m now second g id token other answer =
    elim (Bool-cases (is_unlisted h m.name)) [
      | inl unlisted ↦ cc (rw unlisted at answer)
      | inr listed ↦
          let ids = ids_by_name m.name g.registry in
          let new =
            admit_plugin-docs env h base_url m now second (evict_all ids g) id token
              (rw listed at answer) in
          rw listed (
            ap (λ (j : Injector). lookup other j.specs)
              (new ∙ ap (add_spec m.name m.openapi_spec) (evict_all-docs ids g))
            ∙ add_spec-lookup m.name other m.openapi_spec g.docs)
    ]

-- A plugin that is deregistered leaves the registry, and its document goes with it; the documents
-- under all other names are as before.
pub admin_deregister-docs :
    (id other : Bytes) (e : PluginEntry) (g : Gateway)
    → Registry.get id g.registry ≡ some e
    → (Registry.get id (admin_deregister id g).1.registry ≡ none)
      × (lookup other (admin_deregister id g).1.docs.specs
          ≡ (if e.info.plugin_name == other then none else lookup other g.docs.specs))
unfolding admin_deregister remove_plugin Registry.deregister remove_spec
admin_deregister-docs id other e g found =
    rw (found, admin_deregister)
      (
        lookup-delete id id g.registry.plugins ∙ rw ==_refl refl,
        lookup-delete e.info.plugin_name other g.docs.specs,
      )
