-- ===== src/Registry/Names.antt =====
-- What IDsByName gives after a plugin came or left.
use apicorex.Base.{◌≡◌, refl, [], ◌∷◌, Bool-cases, inl, inr}
use apicorex.Text.{Bytes, ◌==◌}
use apicorex.Text.Laws.{==_refl}
use apicorex.Map.{Map, delete, insert}
use apicorex.Registry
use apicorex.Registry.{PluginEntry, Registry, named_ids, ids_by_name}

named_ids-delete :
    (name id : Bytes) (m : Map PluginEntry)
    → named_ids name m ≡ []
    → named_ids name (delete id m) ≡ []
unfolding named_ids delete
named_ids-delete name id [] h = refl
named_ids-delete name id ((j, e) ∷ m) h = elim (Bool-cases (e.info.plugin_name == name)) [
  | inl same ↦ cc (rw same at h)
  | inr apart ↦ elim (Bool-cases (j == id)) [
    | inl gone ↦ rw gone (named_ids-delete name id m (rw apart at h))
    | inr kept ↦ rw kept (rw apart (named_ids-delete name id m (rw apart at h)))
  ]
]

-- A new plugin is the only one of a name that had none.
pub ids_by_name-insert :
    (id : Bytes) (e : PluginEntry) (r : Registry)
    → ids_by_name e.info.plugin_name r ≡ []
    → ids_by_name e.info.plugin_name (record r { plugins = insert id e r.plugins }) ≡ id ∷ []
unfolding ids_by_name named_ids insert
ids_by_name-insert id e r h =
    simp (==_refl, named_ids-delete e.info.plugin_name id r.plugins h) refl

-- A name that had no plugin has none again after one came and left.
pub ids_by_name-deregister :
    (id : Bytes) (e : PluginEntry) (r : Registry)
    → ids_by_name e.info.plugin_name r ≡ []
    → ids_by_name e.info.plugin_name
        (Registry.deregister id (record r { plugins = insert id e r.plugins }))
      ≡ []
unfolding ids_by_name named_ids insert delete Registry.deregister
ids_by_name-deregister id e r h =
    let gone = named_ids-delete e.info.plugin_name id r.plugins h in
    simp (==_refl, named_ids-delete e.info.plugin_name id (delete id r.plugins) gone) refl
