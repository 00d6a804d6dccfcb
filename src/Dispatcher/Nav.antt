-- ===== src/Dispatcher/Nav.antt =====
-- internal/dispatcher/nav.go: the menu that is merged from every plugin's entries. The JSON encoder
-- and base64 are a parameter.
pub mod Visible
pub mod Order
use apicorex.Base.{
  ℕ, ◌*◌, Bool, true, false, not, ◌&&◌, ◌||◌, Option, none, some, List, [], ◌∷◌, ◌++◌, ltb, leb,
  nat_eq, length, if◌then◌else◌,
}
use apicorex.Base.Int.{ℤ, pos, ltb_ℤ, eq_ℤ}
use apicorex.Text.{Bytes, lit, ◌==◌, is_empty, contains}
use apicorex.Map.{Map}
use apicorex.Manifest.{NavItem}
use apicorex.Registry.{PluginEntry}
use apicorex.Middleware.Authz.{permission_allowed}

-- 6 KB
abbrev pub max_nav_header_bytes : ℕ
max_nav_header_bytes = 6 * 1024

pub record NavEntry : Type 0 where
  pub plugin : Bytes
  pub key : Bytes
  pub labels : Map Bytes
  pub icon : Bytes
  pub href : Bytes
  pub group : Bytes
  pub group_labels : Map Bytes
  pub group_sort : ℤ

-- qualify
unfoldable pub qualify : Bytes → Bytes → Bytes
qualify plugin_name feature =
    if contains feature (lit ":") then feature else plugin_name ++ (lit ":" ++ feature)

-- featureSet[k], the set being setOf of the features
unfoldable pub in_set : Bytes → List Bytes → Bool
in_set k [] = false
in_set k (v ∷ vs) = (not (is_empty v) && v == k) || in_set k vs

-- The tests of buildNav on one item; an item that fails one is skipped.
unfoldable pub shown : List Bytes → List Bytes → PluginEntry → NavItem → Bool
shown perms features p item =
    if is_empty item.href || is_empty item.key
    then false
    else if not (permission_allowed perms item.permission)
    then false
    else not (
        not (is_empty item.feature)
        && not (in_set (qualify p.info.plugin_name item.feature) features))

abbrev pub nav_entry : PluginEntry → NavItem → NavEntry
nav_entry p item = record {
  plugin = p.info.plugin_name;
  key = item.key;
  labels = item.labels;
  icon = item.icon;
  href = item.href;
  group = item.group;
  group_labels = item.group_labels;
  group_sort = item.group_sort;
}

-- The inner loop of buildNav.
unfoldable pub collect_items : List Bytes → List Bytes → PluginEntry → List NavItem → List NavEntry
collect_items perms features p [] = []
collect_items perms features p (item ∷ items) =
    let rest = collect_items perms features p items in
    if shown perms features p item then nav_entry p item ∷ rest else rest

-- The outer loop; the registry holds no nil entry.
unfoldable pub collect : List Bytes → List Bytes → List PluginEntry → List NavEntry
collect perms features [] = []
collect perms features (p ∷ ps) =
    let rest = collect perms features ps in
    if p.alive then collect_items perms features p p.manifest.nav ++ rest else rest

sort_in : Bytes → List NavItem → Option ℤ
sort_in key [] = none
sort_in key (item ∷ items) = if item.key == key then some item.sort else sort_in key items

-- sortOf
unfoldable pub sort_of : List PluginEntry → NavEntry → ℤ
unfolding sort_in
sort_of [] e = pos 0
sort_of (p ∷ ps) e =
    let rest = sort_of ps e in
    if p.info.plugin_name == e.plugin
    then elim (sort_in e.key p.manifest.nav) [ none ↦ rest | some s ↦ s ]
    else rest

-- a < b on strings
unfoldable pub ltb_bytes : Bytes → Bytes → Bool
ltb_bytes [] [] = false
ltb_bytes [] (_ ∷ _) = true
ltb_bytes (_ ∷ _) [] = false
ltb_bytes (a ∷ s) (b ∷ t) = if ltb a b then true else if ltb b a then false else ltb_bytes s t

-- The order of the entries in the menu.
unfoldable pub less : List PluginEntry → NavEntry → NavEntry → Bool
less plugins a b =
    if not (eq_ℤ a.group_sort b.group_sort)
    then ltb_ℤ a.group_sort b.group_sort
    else if not (a.group == b.group)
    then ltb_bytes a.group b.group
    else if not (eq_ℤ (sort_of plugins a) (sort_of plugins b))
    then ltb_ℤ (sort_of plugins a) (sort_of plugins b)
    else ltb_bytes a.plugin b.plugin

-- sort.SliceStable: an entry goes behind what is less than it and before what is equal and came
-- later.
unfoldable pub put : List PluginEntry → NavEntry → List NavEntry → List NavEntry
put plugins a [] = a ∷ []
put plugins a (b ∷ bs) =
    let rest = put plugins a bs in if less plugins b a then b ∷ rest else a ∷ b ∷ bs

unfoldable pub sort_stable : List PluginEntry → List NavEntry → List NavEntry
sort_stable plugins [] = []
sort_stable plugins (a ∷ as') = put plugins a (sort_stable plugins as')

-- buildNav
unfoldable pub build_nav : List PluginEntry → List Bytes → List Bytes → List NavEntry
build_nav plugins perms features = sort_stable plugins (collect perms features plugins)

-- encodeNav, where `encode` is json.Marshal and base64; `none` is an error of the first.
unfoldable pub encode_nav : (List NavEntry → Option Bytes) → List NavEntry → Bytes
encode_nav encode [] = []
encode_nav encode (e ∷ es) = elim (encode (e ∷ es)) [
  | none ↦ []
  | some encoded ↦ if ltb max_nav_header_bytes (length encoded) then [] else encoded
]
