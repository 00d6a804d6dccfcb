-- ===== src/Openapi.antt =====
-- internal/openapi/injector.go: the documents of the plugins, merged into the one of the server. A
-- `range` over a map visits it in the order of the list that stands for it; about the order of the
-- plugins nothing is assumed.
pub mod Document
pub mod Merged
pub mod Security
use apicorex.Base.{Bool, true, false, ◌||◌, ◌++◌, Option, none, some, List, [], ◌∷◌, if◌then◌else◌}
use apicorex.Text.{Bytes, lit, ◌==◌, is_empty}
use apicorex.Map.{Map, lookup, insert, delete}
use apicorex.Openapi.Document.{
  Json, array, object, items, of_items, fields, of_fields, as_array, as_object,
}

-- Injector, without its lock
pub record Injector : Type 0 where
  pub specs : Map Bytes

-- NewInjector
abbrev pub new_injector : Injector
new_injector = record { specs = [] }

-- AddRoutes of a plugin's document
unfoldable pub add_spec : Bytes → Bytes → Injector → Injector
add_spec name spec inj =
    if is_empty spec then inj else record inj { specs = insert name spec inj.specs }

-- RemoveRoutes
unfoldable pub remove_spec : Bytes → Injector → Injector
remove_spec name inj = record inj { specs = delete name inj.specs }

-- json.Unmarshal into a map of a document that is not "null", and json.Marshal; `none` is an error.
pub record Codec : Type 0 where
  pub unmarshal : Bytes → Option (Map Json)
  pub marshal : Json → Option Bytes

-- for k, v := range from { into[k] = v }
unfoldable pub insert_all : {A : Type 0} → Map A → Map A → Map A
insert_all [] into = into
insert_all ((k, v) ∷ from) into = insert k v (insert_all from into)

-- existing, ok := m[k].(map[string]interface{}), and a new map if it is not one
abbrev pub object_or_new : Option Json → Map Json
object_or_new none = []
object_or_new (some j) = elim (as_object j) [ none ↦ [] | some m ↦ m ]

abbrev pub array_or_nil : Option Json → List Json
array_or_nil none = []
array_or_nil (some j) = elim (as_array j) [ none ↦ [] | some js ↦ js ]

unfoldable pub seen : Bytes → List Bytes → Bool
seen key [] = false
seen key (k ∷ ks) = k == key || seen key ks

-- What MergedSpec builds up.
pub record Merge : Type 0 where
  pub paths : Map Json
  pub components : Map Json
  pub security : List Json

-- One section of a document's components.
abbrev pub merge_section : Bytes → Json → Map Json → Map Json
merge_section section defs components =
    let existing = object_or_new (lookup section components) in
    let merged = insert_all (object_or_new (some defs)) existing in
    insert section (object (of_fields merged)) components

unfoldable pub merge_components : Map Json → Map Json → Map Json
merge_components [] components = components
merge_components ((section, defs) ∷ more) components =
    merge_section section defs (merge_components more components)

-- The document that the server starts from.
abbrev pub base_merge : Map Json → Merge
base_merge base = record {
  paths = object_or_new (lookup (lit "paths") base);
  components = object_or_new (lookup (lit "components") base);
  security = array_or_nil (lookup (lit "security") base);
}

-- The three members are put back.
unfoldable pub write_merge : Merge → Map Json → Map Json
write_merge m base =
    let doc =
      insert (lit "components") (object (of_fields m.components))
        (insert (lit "paths") (object (of_fields m.paths)) base) in
    elim m.security [
      | [] ↦ doc
      | ◌∷◌ req reqs ↦ insert (lit "security") (array (of_items (req ∷ reqs))) doc
    ]

module _ (codec : Codec) where
  -- The inner loop of mergeSecurityRequirements: the keys that were seen, and what is appended.
  unfoldable pub unseen : List Json → List Bytes → List Json
  unseen [] keys = []
  unseen (req ∷ reqs) keys = elim (codec.marshal req) [
    | none ↦ unseen reqs keys
    | some key ↦
        let rest = unseen reqs keys in
        let rest' = unseen reqs (key ∷ keys) in if seen key keys then rest else req ∷ rest'
  ]

  -- mergeSecurityRequirements: both of the arrays, one after the other
  unfoldable pub merge_security_requirements : List Json → List Json → List Json
  merge_security_requirements base add = unseen (base ++ add) []

  -- The body of the loop over the plugins, for a document that was parsed.
  unfoldable pub merge_doc : Map Json → Merge → Merge
  merge_doc doc m = record {
    paths = insert_all (object_or_new (lookup (lit "paths") doc)) m.paths;
    components = merge_components (object_or_new (lookup (lit "components") doc)) m.components;
    security = elim (lookup (lit "security") doc) [
      | none ↦ m.security
      | some j ↦ elim (as_array j) [
        | none ↦ m.security
        | some sec ↦ merge_security_requirements m.security sec
      ]
    ];
  }

  -- The loop over the plugins.
  unfoldable pub merge_docs : List Bytes → Merge → Merge
  merge_docs [] m = m
  merge_docs (raw ∷ raws) m = elim (codec.unmarshal raw) [
    | none ↦ merge_docs raws m
    | some doc ↦ merge_docs raws (merge_doc doc m)
  ]

  -- The merged document.
  unfoldable pub merge_document : List Bytes → Map Json → Map Json
  merge_document raws base = write_merge (merge_docs raws (base_merge base)) base

  abbrev or_base : Bytes → Option Bytes → Bytes
  or_base base none = base
  or_base base (some out) = out

  abbrev pub raw_specs : Map Bytes → List Bytes
  raw_specs [] = []
  raw_specs ((name, spec) ∷ m) = spec ∷ raw_specs m

  -- MergedSpec
  unfoldable pub merged_spec : Bytes → Injector → Bytes
  merged_spec base_spec inj = elim inj.specs [
    | [] ↦ base_spec
    | ◌∷◌ spec specs ↦ elim (codec.unmarshal base_spec) [
      | none ↦ base_spec
      | some base ↦
          or_base base_spec
            (codec.marshal (object (of_fields (merge_document (raw_specs inj.specs) base))))
    ]
  ]
