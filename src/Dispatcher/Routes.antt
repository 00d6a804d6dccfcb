-- ===== src/Dispatcher/Routes.antt =====
-- The route table of internal/dispatcher/dispatcher.go and the search in it.
pub mod Match
pub mod Kept
pub mod InPlace
use apicorex.Base.{
  ℕ, Bool, true, false, not, ◌&&◌, ◌||◌, Option, none, some, List, [], ◌∷◌, ◌++◌, nat_eq,
  if◌then◌else◌, length, map,
}
use apicorex.Text.{Bytes, lit, ◌==◌, has_prefix, trim_suffix, trim, is_slash, split, to_upper}
use apicorex.Manifest.{Route}

pub record RouteEntry : Type 0 where
  pub plugin_id : Bytes
  pub plugin_name : Bytes
  pub method : Bytes
  pub pattern : Bytes
  pub is_public : Bool
  pub permission : Bytes

-- The entries that AddRoutes appends.
abbrev pub new_route : Bytes → Bytes → Route → RouteEntry
new_route plugin_id plugin_name r = record {
  plugin_id = plugin_id;
  plugin_name = plugin_name;
  method = to_upper r.method;
  pattern = r.path;
  is_public = r.is_public;
  permission = r.permission;
}

-- removeRoutes
unfoldable pub remove_routes : Bytes → List RouteEntry → List RouteEntry
remove_routes plugin_id [] = []
remove_routes plugin_id (r ∷ rs) =
    let rest = remove_routes plugin_id rs in if r.plugin_id == plugin_id then rest else r ∷ rest

-- The part of AddRoutes that changes the table.
unfoldable pub add_routes : Bytes → Bytes → List Route → List RouteEntry → List RouteEntry
add_routes plugin_id plugin_name routes table =
    remove_routes plugin_id table ++ map (new_route plugin_id plugin_name) routes

-- methodMatch
abbrev pub method_match : Bytes → Bytes → Bool
method_match pattern method = pattern == lit "*" || pattern == method

-- The loop of patternMatch over the segments, after the test that there are equally many.
unfoldable pub segments_match : List Bytes → List Bytes → Bool
segments_match [] [] = true
segments_match (p ∷ ps) (c ∷ cs) =
    (if has_prefix p (lit ":") then true else p == c) && segments_match ps cs
segments_match _ _ = false

abbrev pub segments : Bytes → List Bytes
segments s = split b'/' (trim is_slash s)

-- patternMatch
unfoldable pub pattern_match : Bytes → Bytes → Bool
pattern_match pattern path =
    if nat_eq (length (segments pattern)) (length (segments path))
    then segments_match (segments pattern) (segments path)
    else false

-- The last test of match, for patterns that end in "/*".
unfoldable pub wildcard_match : Bytes → Bytes → Bool
wildcard_match pattern path =
    let prefix = trim_suffix pattern (lit "/*") in not (prefix == pattern) && has_prefix path prefix

abbrev pub exact : Bytes → Bytes → RouteEntry → Bool
exact method path r = method_match r.method method && r.pattern == path

abbrev pub loose : Bytes → Bytes → RouteEntry → Bool
loose method path r =
    method_match r.method method && (pattern_match r.pattern path || wildcard_match r.pattern path)

-- A loop of match: the first entry that passes a test.
unfoldable pub first : (RouteEntry → Bool) → List RouteEntry → Option RouteEntry
first p [] = none
first p (r ∷ rs) = if p r then some r else first p rs

-- match
unfoldable pub match : Bytes → Bytes → List RouteEntry → Option RouteEntry
match method path table = elim (first (exact method path) table) [
  | some r ↦ some r
  | none ↦ first (loose method path) table
]

abbrev pub public_entry : Option RouteEntry → Bool
public_entry none = false
public_entry (some r) = r.is_public

-- IsPublic
abbrev pub is_public_route : Bytes → Bytes → List RouteEntry → Bool
is_public_route method path table = public_entry (match method path table)

-- IsRoutable
unfoldable pub is_routable : Bytes → Bytes → List RouteEntry → Bool
is_routable method path table = elim (match method path table) [ none ↦ false | some _ ↦ true ]
