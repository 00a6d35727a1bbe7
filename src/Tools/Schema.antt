-- ===== src/Tools/Schema.antt =====
-- `_validate_json_schema` of eidolon_agent/domain/tools/dispatcher.py. A schema stands by the five
-- keywords that the validator reads, and an error by its kind, its place and the keys it lists.
pub mod Sound
mod Tests
use Prim.Native.Nat.{Ordering}
use Prim.Native.String.{compare}
use eidolon_agent.Base.{
  ℕ, suc, ◌+◌, ◌≡◌, Bool, true, false, not, ◌&&◌, ◌||◌, Option, none, some, List, [], ◌∷◌, ◌++◌,
  String, str_eq, str_mem, if◌then◌else◌, keep_if, is_some,
}
use eidolon_agent.Base.Json.{
  Json, Items, Fields, null, bool, int, negative_int, float, str, array, object, no_items, item,
  no_fields, field, lookup_field, keys_of,
}

mutual
  -- `type`, `required`, `properties`, `additionalProperties is False`, `items`.
  pub data Schema : Type 0 where
    schema : Option String → List String → Props → Bool → ItemSchema → Schema

  pub data Props : Type 0 where
    no_props : Props
    prop : String → Schema → Props → Props

  pub data ItemSchema : Type 0 where
    any_items : ItemSchema
    each_item : Schema → ItemSchema

-- A step of the path that an error names: `.key` or `[idx]`.
pub data Segment : Type 0 where
  key : String → Segment
  index : ℕ → Segment

pub data SchemaError : Type 0 where
  expected : List Segment → String → SchemaError
  missing : List Segment → List String → SchemaError
  unexpected : List Segment → List String → SchemaError

-- The table of `isinstance` tests; a bool is no number, and an unknown type admits all.
pub has_type : String → Json → Bool
has_type t (object fs) =
    not (str_mem t ("string" ∷ "integer" ∷ "number" ∷ "boolean" ∷ "array" ∷ []))
has_type t (str s) = not (str_mem t ("object" ∷ "integer" ∷ "number" ∷ "boolean" ∷ "array" ∷ []))
has_type t (int n) = not (str_mem t ("object" ∷ "string" ∷ "boolean" ∷ "array" ∷ []))
has_type t (negative_int n) = not (str_mem t ("object" ∷ "string" ∷ "boolean" ∷ "array" ∷ []))
has_type t (float s) = not (str_mem t ("object" ∷ "string" ∷ "integer" ∷ "boolean" ∷ "array" ∷ []))
has_type t (bool b) = not (str_mem t ("object" ∷ "string" ∷ "integer" ∷ "number" ∷ "array" ∷ []))
has_type t (array xs) =
    not (str_mem t ("object" ∷ "string" ∷ "integer" ∷ "number" ∷ "boolean" ∷ []))
has_type t null =
    not (str_mem t ("object" ∷ "string" ∷ "integer" ∷ "number" ∷ "boolean" ∷ "array" ∷ []))

-- `sorted` of a set of keys.
pub insert_sorted : String → List String → List String
insert_sorted k [] = k ∷ []
insert_sorted k (j ∷ ks) = elim (compare k j) [
  | Ordering.lt ↦ k ∷ j ∷ ks
  | Ordering.eq ↦ j ∷ ks
  | Ordering.gt ↦ j ∷ insert_sorted k ks
]

pub sorted_keys : List String → List String
unfolding insert_sorted
sorted_keys [] = []
sorted_keys (k ∷ ks) = insert_sorted k (sorted_keys ks)

abbrev pub has_prop : String → Props → Bool
has_prop k no_props = false
has_prop k (prop j s ps) = str_eq j k || has_prop k ps

abbrev pub report : (List String → SchemaError) → List String → Option SchemaError
report e [] = none
report e (k ∷ ks) = some (e (k ∷ ks))

abbrev pub is_type : String → Option String → Bool
is_type t none = false
is_type t (some u) = str_eq u t

abbrev pub missing_keys : List String → Fields → List String
missing_keys required fs = keep_if (λ k. not (is_some (lookup_field k fs))) required

abbrev pub extra_keys : Props → Fields → List String
extra_keys props fs = keep_if (λ k. not (has_prop k props)) (keys_of fs)

-- The first of two checks that reports something.
abbrev pub first_error : Option SchemaError → Option SchemaError → Option SchemaError
first_error none f = f
first_error (some e) f = some e

unfoldable pub check_type : Option String → Json → List Segment → Option SchemaError
unfolding has_type
check_type none v path = none
check_type (some t) v path = if has_type t v then none else some (expected path t)

pub check_required : List String → Fields → List Segment → Option SchemaError
unfolding sorted_keys
check_required required fs path = report (missing path) (sorted_keys (missing_keys required fs))

pub check_closed : Bool → Props → Fields → List Segment → Option SchemaError
unfolding sorted_keys
check_closed closed props fs path =
    if closed then report (unexpected path) (sorted_keys (extra_keys props fs)) else none

pub check_items :
    (Json → List Segment → Option SchemaError) → ℕ → Items → List Segment → Option SchemaError
check_items check idx no_items path = none
check_items check idx (item x xs) path =
    first_error (check x (path ++ index idx ∷ [])) (check_items check (suc idx) xs path)

abbrev pub in_object : (Fields → Option SchemaError) → Option String → Json → Option SchemaError
in_object check t (object fs) = if is_type "object" t then check fs else none
in_object check t _ = none

abbrev pub in_array : (Items → Option SchemaError) → Option String → Json → Option SchemaError
in_array check t (array xs) = if is_type "array" t then check xs else none
in_array check t _ = none

-- `if key in value`
abbrev pub check_present : Option Json → (Json → Option SchemaError) → Option SchemaError
check_present none check = none
check_present (some x) check = check x

unfoldable mutual
  unfolding check_type check_required check_closed check_items

  pub validate : Schema → Json → List Segment → Option SchemaError
  validate (schema t required props closed items) v path = first_error (check_type t v path) (
      first_error
        (in_object
          (λ fs.
            first_error (check_required required fs path)
              (first_error (check_closed closed props fs path) (validate_props props fs path)))
          t v)
        (in_array (λ xs. validate_items items xs path) t v))

  pub validate_props : Props → Fields → List Segment → Option SchemaError
  validate_props no_props fs path = none
  validate_props (prop k s ps) fs path =
      first_error (check_present (lookup_field k fs) (λ x. validate s x (path ++ key k ∷ [])))
        (validate_props ps fs path)

  pub validate_items : ItemSchema → Items → List Segment → Option SchemaError
  validate_items any_items xs path = none
  validate_items (each_item s) xs path = check_items (validate s) 0 xs path
