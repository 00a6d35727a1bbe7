-- ===== src/Tools/Schema/Tests.antt =====
-- The validator on concrete schemas and values.
use eidolon_agent.Base.{◌≡◌, ◌↔◌, refl, true, false, none, some, [], ◌∷◌}
use eidolon_agent.Base.Json.{Json, str, int, array, object, field, no_fields, item, no_items}
use eidolon_agent.Tools.Schema.{
  Schema, schema, no_props, prop, any_items, each_item, key, index, expected, missing, unexpected,
  validate, validate_props, validate_items, check_type, check_required, check_closed, check_items,
  has_type, sorted_keys, insert_sorted,
}
use eidolon_agent.Tools.Schema.Sound.{Conforms, validate-Conforms}

abbrev pub text : Schema
text = schema (some "string") [] no_props false any_items

-- An object with a required name, a list of tags, and nothing else.
abbrev pub named : Schema
named =
    schema (some "object") ("name" ∷ [])
      (prop "name" text
        (prop "tags" (schema (some "array") [] no_props false (each_item text)) no_props))
      true any_items

abbrev ann : Json
ann = object (field "name" (str "Ann") (field "tags" (array (item (str "x") no_items)) no_fields))

reports :
    (validate named ann [] ≡ none)
    × (validate named (object no_fields) [] ≡ some (missing [] ("name" ∷ [])))
    × (validate named (object (field "name" (int 3) no_fields)) []
        ≡ some (expected (key "name" ∷ []) "string"))
    × (validate named (object (field "name" (str "Ann") (field "age" (int 3) no_fields))) []
        ≡ some (unexpected [] ("age" ∷ [])))
    × (validate named
          (object (field "name" (str "") (field "tags" (array (item (int 1) no_items)) no_fields)))
          []
        ≡ some (expected (key "tags" ∷ index 0 ∷ []) "string"))
unfolding validate validate_props validate_items check_type check_required check_closed check_items
    has_type sorted_keys insert_sorted
reports = (refl, refl, refl, refl, refl)

validate-Conforms_example : (validate named ann [] ≡ none) ↔ Conforms named ann
validate-Conforms_example = validate-Conforms named ann []
