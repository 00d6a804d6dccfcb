-- ===== src/Openapi/Document.antt =====
-- What encoding/json makes of a document: a value of type interface{}, with the type assertions
-- that the injector uses.
use apicorex.Base.{Bool, ◌≡◌, refl, ap, Option, none, some, List, [], ◌∷◌}
use apicorex.Text.{Bytes}
use apicorex.Map.{Map}

mutual
  pub data Json : Type 0 where
    null : Json
    bool : Bool → Json
    number : Bytes → Json
    text : Bytes → Json
    array : Items → Json
    object : Fields → Json

  pub data Items : Type 0 where
    end_items : Items
    item : Json → Items → Items

  pub data Fields : Type 0 where
    end_fields : Fields
    field : Bytes → Json → Fields → Fields

abbrev pub items : Items → List Json
items end_items = []
items (item j js) = j ∷ items js

abbrev pub of_items : List Json → Items
of_items [] = end_items
of_items (j ∷ js) = item j (of_items js)

abbrev pub fields : Fields → Map Json
fields end_fields = []
fields (field k j fs) = (k, j) ∷ fields fs

abbrev pub of_fields : Map Json → Fields
of_fields [] = end_fields
of_fields ((k, j) ∷ m) = field k j (of_fields m)

-- v.([]interface{}), with the comma form
abbrev pub as_array : Json → Option (List Json)
as_array (array js) = some (items js)
as_array _ = none

-- v.(map[string]interface{}), with the comma form
abbrev pub as_object : Json → Option (Map Json)
as_object (object fs) = some (fields fs)
as_object _ = none

pub fields-of_fields : (m : Map Json) → fields (of_fields m) ≡ m
fields-of_fields [] = refl
fields-of_fields ((k, j) ∷ m) = ap (λ fs. (k, j) ∷ fs) (fields-of_fields m)
