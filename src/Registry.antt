-- ===== src/Registry.antt =====
-- internal/registry/registry.go: the plugins that are registered, and the maintenance windows.
-- Instants are numbers of nanoseconds; `now` stands for time.Now(). A method that takes a lock is
-- one step on the state.
pub mod Maintenance
pub mod Laws
pub mod Names
use apicorex.Base.{
  ℕ, Bool, true, false, ◌&&◌, Option, none, some, List, [], ◌∷◌, length, if◌then◌else◌,
}
use apicorex.Text.{Bytes, ◌==◌}
use apicorex.Map.{Map, lookup, insert, delete}
use apicorex.Manifest.{Manifest, DomainSurface}

pub data Status : Type 0 where
  healthy unhealthy : Status

pub record PluginInfo : Type 0 where
  pub plugin_id : Bytes
  pub plugin_name : Bytes
  pub version : Bytes
  pub base_url : Bytes
  pub status : Status
  pub routes : ℕ

-- What the proxy reads of a parsed URL.
pub record Target : Type 0 where
  pub scheme : Bytes
  pub host : Bytes

-- The reverse proxy of an entry is made from its target alone and is not kept.
pub record PluginEntry : Type 0 where
  pub info : PluginInfo
  pub manifest : Manifest
  pub base_url : Bytes
  pub target : Target
  pub registered_at : ℕ
  pub last_heartbeat : ℕ
  pub alive : Bool

-- One open window of maintenance.go.
pub record Window : Type 0 where
  pub reason : Bytes
  pub since : ℕ
  pub until : ℕ

pub record Registry : Type 0 where
  pub plugins : Map PluginEntry
  pub maint : Map Window

-- New
abbrev pub new_registry : Registry
new_registry = record { plugins = []; maint = [] }

abbrev pub new_entry : Bytes → Bytes → Bytes → Bytes → Manifest → Target → ℕ → PluginEntry
new_entry id name base_url version m target now = record {
  info = record {
    plugin_id = id;
    plugin_name = name;
    version = version;
    base_url = base_url;
    status = healthy;
    routes = length m.routes;
  };
  manifest = m;
  base_url = base_url;
  target = target;
  registered_at = now;
  last_heartbeat = now;
  alive = true;
}

-- Register, where `parse_url` is url.Parse; `none` is its error.
unfoldable pub register :
    (parse_url : Bytes → Option Target)
    → Bytes
    → Bytes
    → Bytes
    → Bytes
    → Manifest
    → ℕ
    → Registry
    → Option Registry
register parse_url id name base_url version m now r = elim (parse_url base_url) [
  | none ↦ none
  | some target ↦
      some (record r {
        plugins = insert id (new_entry id name base_url version m target now) r.plugins;
      })
]

abbrev pub beat : ℕ → PluginEntry → PluginEntry
beat now e = record e {
  last_heartbeat = now;
  alive = true;
  info = record (e.info) { status = healthy };
}

-- Heartbeat; `none` is the error for a plugin that is not registered.
unfoldable pub heartbeat : Bytes → ℕ → Registry → Option Registry
heartbeat id now r = elim (lookup id r.plugins) [
  | none ↦ none
  | some e ↦ some (record r { plugins = insert id (beat now e) r.plugins })
]

-- Deregister
unfoldable pub deregister : Bytes → Registry → Registry
deregister id r = record r { plugins = delete id r.plugins }

abbrev pub kill : PluginEntry → PluginEntry
kill e = record e { alive = false; info = record (e.info) { status = unhealthy } }

-- MarkDead
unfoldable pub mark_dead : Bytes → Registry → Registry
mark_dead id r = elim (lookup id r.plugins) [
  | none ↦ r
  | some e ↦ record r { plugins = insert id (kill e) r.plugins }
]

-- Get
abbrev pub get : Bytes → Registry → Option PluginEntry
get id r = lookup id r.plugins

unfoldable pub entries : Map PluginEntry → List PluginEntry
entries [] = []
entries ((id, e) ∷ m) = e ∷ entries m

-- List
unfoldable pub list : Registry → List PluginEntry
unfolding entries
list r = entries r.plugins

find_named : Bytes → Map PluginEntry → Option PluginEntry
find_named name [] = none
find_named name ((id, e) ∷ m) =
    if e.info.plugin_name == name && e.alive then some e else find_named name m

-- FindByName
unfoldable pub find_by_name : Bytes → Registry → Option PluginEntry
unfolding find_named
find_by_name name r = find_named name r.plugins

named_ids : Bytes → Map PluginEntry → List Bytes
named_ids name [] = []
named_ids name ((id, e) ∷ m) =
    let rest = named_ids name m in if e.info.plugin_name == name then id ∷ rest else rest

-- IDsByName
unfoldable pub ids_by_name : Bytes → Registry → List Bytes
unfolding named_ids
ids_by_name name r = named_ids name r.plugins

-- GetBaseURL
unfoldable pub get_base_url : Bytes → Registry → Option Bytes
get_base_url name r = elim (find_by_name name r) [ none ↦ none | some e ↦ some e.base_url ]

-- GetManifest
unfoldable pub get_manifest : Bytes → Registry → Option Manifest
get_manifest name r = elim (find_by_name name r) [ none ↦ none | some e ↦ some e.manifest ]

find_surface : Bytes → List DomainSurface → Option DomainSurface
find_surface surface [] = none
find_surface surface (s ∷ ss) = if s.surface == surface then some s else find_surface surface ss

find_surface_in : Bytes → Map PluginEntry → Option (PluginEntry × DomainSurface)
find_surface_in surface [] = none
find_surface_in surface ((id, e) ∷ m) =
    let rest = find_surface_in surface m in
    if e.alive
    then elim (find_surface surface e.manifest.domain_surfaces) [
      | none ↦ rest
      | some s ↦ some (e, s)
    ]
    else rest

-- FindByDomainSurface
unfoldable pub find_by_domain_surface : Bytes → Registry → Option (PluginEntry × DomainSurface)
unfolding find_surface_in find_surface
find_by_domain_surface surface r = find_surface_in surface r.plugins
