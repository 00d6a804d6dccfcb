-- ===== src/Openapi/Merged.antt =====
-- What the merged document has.
use apicorex.Base.{
  or_else, or_else_assoc, ◌≡◌, refl, sym, ap, subst, ◌∙◌, false, Option, none, some, List, [], ◌∷◌,
  Bool-cases, Option-cases, List-cases, inl, inr,
}
use apicorex.Text.{Bytes, lit, ◌==◌}
use apicorex.Text.Laws.{==_iff, ==_refl}
use apicorex.Map.{Map, lookup, insert}
use apicorex.Map.Unique.{IsUnique}
use apicorex.Map.Laws.{lookup-insert}
use apicorex.Openapi.Document.{Json, object, of_fields, fields-of_fields}
use apicorex.Openapi.{
  Codec, insert_all, object_or_new, Merge, merge_section, merge_components, merge_doc, merge_docs,
  base_merge, write_merge, merge_document,
}

pub lookup-insert_all :
    {A : Type 0} (k : Bytes) (from into : Map A)
    → lookup k (insert_all from into) ≡ or_else (lookup k from) (lookup k into)
unfolding insert_all lookup
lookup-insert_all k [] into = refl
lookup-insert_all k ((j, v) ∷ from) into = elim (Bool-cases (j == k)) [
  | inl hit ↦ lookup-insert j k v (insert_all from into) ∙ rw hit refl
  | inr miss ↦ lookup-insert j k v (insert_all from into) ∙ rw miss (lookup-insert_all k from into)
]

-- A path of a document.
abbrev pub path_in : Bytes → Map Json → Option Json
path_in path doc = lookup path (object_or_new (lookup (lit "paths") doc))

-- A definition of a section of a document's components, such as a schema.
abbrev pub defined_in : Bytes → Bytes → Map Json → Option Json
defined_in section name components = lookup name (object_or_new (lookup section components))

abbrev pub component_in : Bytes → Bytes → Map Json → Option Json
component_in section name doc =
    defined_in section name (object_or_new (lookup (lit "components") doc))

section-same :
    (section name : Bytes) (defs : Json) (components : Map Json)
    → defined_in section name (merge_section section defs components)
      ≡ or_else (lookup name (object_or_new (some defs))) (defined_in section name components)
section-same section name defs components =
    let existing = object_or_new (lookup section components) in
    let merged = insert_all (object_or_new (some defs)) existing in
    let found : lookup section (merge_section section defs components)
        ≡ some (object (of_fields merged)) =
      lookup-insert section section _ components ∙ rw ==_refl refl in
    ap (λ o. lookup name (object_or_new o)) found
    ∙ ap (lookup name) (fields-of_fields merged)
    ∙ lookup-insert_all name (object_or_new (some defs)) existing

section-other :
    (section other name : Bytes) (defs : Json) (components : Map Json)
    → (other == section) ≡ false
    → defined_in section name (merge_section other defs components)
      ≡ defined_in section name components
section-other section other name defs components apart =
    let kept : lookup section (merge_section other defs components) ≡ lookup section components =
      lookup-insert other section _ components ∙ rw apart refl in
    ap (λ o. lookup name (object_or_new o)) kept

-- A section that a document does not have is left as it is.
section-missing :
    (section name : Bytes) (from components : Map Json)
    → lookup section from ≡ none
    → defined_in section name (merge_components from components)
      ≡ defined_in section name components
unfolding merge_components lookup
section-missing section name [] components h = refl
section-missing section name ((other, defs) ∷ from) components h =
    elim (Bool-cases (other == section)) [
      | inl hit ↦ cc (rw hit at h)
      | inr miss ↦
          section-other section other name defs (merge_components from components) miss
          ∙ section-missing section name from components (rw miss at h)
    ]

defined-merge_components :
    (section name : Bytes) (from components : Map Json)
    → IsUnique from
    → defined_in section name (merge_components from components)
      ≡ or_else (defined_in section name from) (defined_in section name components)
unfolding merge_components lookup
defined-merge_components section name [] components u = refl
defined-merge_components section name ((other, defs) ∷ from) components (fresh, u) =
    elim (Bool-cases (other == section)) [
      | inl hit ↦
          let same = (==_iff other section).0 hit in
          let fresh' = subst (λ k. lookup k from ≡ none) same fresh in
          rw hit (
            subst
              (λ k.
                defined_in section name (merge_section k defs (merge_components from components))
                ≡ or_else (lookup name (object_or_new (some defs)))
                    (defined_in section name components))
              (sym same)
              (section-same section name defs (merge_components from components)
                ∙ ap (or_else (lookup name (object_or_new (some defs))))
                    (section-missing section name from components fresh')))
      | inr miss ↦ rw miss (
          section-other section other name defs (merge_components from components) miss
          ∙ defined-merge_components section name from components u)
    ]

module _ (codec : Codec) where
  -- What the last of the documents that have it says.
  unfoldable pub declared : (Map Json → Option Json) → List Bytes → Option Json
  declared f [] = none
  declared f (raw ∷ raws) = elim (codec.unmarshal raw) [
    | none ↦ declared f raws
    | some doc ↦ or_else (declared f raws) (f doc)
  ]

  -- The decoder gives every key of an object once.
  abbrev pub IsDecoder : Type 0
  IsDecoder =
      (raw : Bytes) (doc : Map Json)
      → codec.unmarshal raw ≡ some doc
      → IsUnique (object_or_new (lookup (lit "components") doc))

  -- What a measure of the merge becomes over the loop, if every document adds its own to it.
  merge_docs-declared :
      (f : Map Json → Option Json) (measure : Merge → Option Json)
      → ((raw : Bytes) (doc : Map Json) (m : Merge)
          → codec.unmarshal raw ≡ some doc
          → measure (merge_doc codec doc m) ≡ or_else (f doc) (measure m))
      → (raws : List Bytes) (m : Merge)
      → measure (merge_docs codec raws m) ≡ or_else (declared f raws) (measure m)
  unfolding merge_docs declared
  merge_docs-declared f measure step [] m = refl
  merge_docs-declared f measure step (raw ∷ raws) m = elim (Option-cases (codec.unmarshal raw)) [
    | inl broken ↦ rw (broken, merge_docs, declared) (merge_docs-declared f measure step raws m)
    | inr (doc, parsed) ↦
        rw (parsed, merge_docs, declared)
          (merge_docs-declared f measure step raws (merge_doc codec doc m)
            ∙ ap (or_else (declared f raws)) (step raw doc m parsed)
            ∙ or_else_assoc (declared f raws) (f doc) (measure m))
  ]

  write_merge-members :
      (m : Merge) (base : Map Json)
      → (object_or_new (lookup (lit "paths") (write_merge m base)) ≡ m.paths)
        × (object_or_new (lookup (lit "components") (write_merge m base)) ≡ m.components)
  unfolding write_merge lookup insert ◌==◌
  write_merge-members m base = elim (List-cases m.security) [
    | inl empty ↦ rw (empty, write_merge) (fields-of_fields m.paths, fields-of_fields m.components)
    | inr (req, reqs, given) ↦
        rw (given, write_merge) (fields-of_fields m.paths, fields-of_fields m.components)
  ]

  -- In the merged document every path has what the last of the plugins' documents that have it
  -- says, and what the server's own says if none has it; the same holds of every definition of
  -- every section of the components.
  pub merge_document-declared :
      (raws : List Bytes) (base : Map Json) (path section name : Bytes)
      → IsDecoder
      → (path_in path (merge_document codec raws base)
          ≡ or_else (declared (path_in path) raws) (path_in path base))
        × (component_in section name (merge_document codec raws base)
            ≡ or_else (declared (component_in section name) raws) (component_in section name base))
  unfolding merge_document merge_doc
  merge_document-declared raws base path section name decoder =
      let m = merge_docs codec raws (base_merge base) in
      let (paths, components) = write_merge-members m base in
      (
        ap (lookup path) paths
            ∙ merge_docs-declared (path_in path) (λ m. lookup path m.paths)
                (λ raw doc m parsed.
                  lookup-insert_all path (object_or_new (lookup (lit "paths") doc)) m.paths)
                raws (base_merge base),
        ap (defined_in section name) components
            ∙ merge_docs-declared (component_in section name)
                (λ m. defined_in section name m.components)
                (λ raw doc m parsed.
                  defined-merge_components section name
                    (object_or_new (lookup (lit "components") doc)) m.components
                    (decoder raw doc parsed))
                raws (base_merge base),
      )
