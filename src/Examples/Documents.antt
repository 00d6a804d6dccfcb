-- ===== src/Examples/Documents.antt =====
-- The theorems on the merged document: a plugin adds a path and a schema to the server's own.
use apicorex.Base.{
  or_else, ◌≡◌, refl, subst, none, some, List, [], ◌∷◌, Bool-cases, inl, inr, if◌then◌else◌,
}
use apicorex.Text.{lit, ◌==◌}
use apicorex.Map.{Map, lookup}
use apicorex.Map.Unique.{IsUnique}
use apicorex.Openapi.Document.{Json, text, object, of_fields}
use apicorex.Openapi.{Codec, object_or_new, merge_document}
use apicorex.Openapi.Merged.{path_in, component_in, declared, IsDecoder, merge_document-declared}

abbrev plugin_doc : Map Json
plugin_doc =
    (lit "paths", object (of_fields ((lit "/billing", text (lit "list")) ∷ [])))
    ∷ (
      lit "components",
      object (
          of_fields
            ((lit "schemas", object (of_fields ((lit "Invoice", text (lit "object")) ∷ []))) ∷ [])),
    )
    ∷ []

abbrev own_doc : Map Json
own_doc = (lit "paths", object (of_fields ((lit "/health", text (lit "check")) ∷ []))) ∷ []

-- Texts are written as they are, and one document is known.
abbrev codec : Codec
codec = record {
  unmarshal = λ raw. if raw == lit "doc" then some plugin_doc else none;
  marshal = λ j. elim j [ text s ↦ some s | _ ↦ none ];
}

codec-IsDecoder : IsDecoder codec
unfolding lookup ◌==◌
codec-IsDecoder raw doc h = elim (Bool-cases (raw == lit "doc")) [
  | inl known ↦
      let same : plugin_doc ≡ doc = cc (rw known at h) in
      subst (λ (d : Map Json). IsUnique (object_or_new (lookup (lit "components") d))) same
        (refl, tt)
  | inr other ↦ cc (rw other at h)
]

merge_document-declared_example :
    (path_in (lit "/billing") (merge_document codec (lit "doc" ∷ []) own_doc)
      ≡ or_else
          (declared codec (path_in (lit "/billing")) (lit "doc" ∷ []))
          (path_in (lit "/billing") own_doc))
    × (component_in (lit "schemas") (lit "Invoice") (merge_document codec (lit "doc" ∷ []) own_doc)
        ≡ or_else
            (declared codec (component_in (lit "schemas") (lit "Invoice")) (lit "doc" ∷ []))
            (component_in (lit "schemas") (lit "Invoice") own_doc))
merge_document-declared_example =
    merge_document-declared codec (lit "doc" ∷ []) own_doc (lit "/billing") (lit "schemas")
      (lit "Invoice") codec-IsDecoder

abbrev bearer_auth : List Json
bearer_auth = text (lit "bearerAuth") ∷ []
