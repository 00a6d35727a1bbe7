-- ===== src/Base/Json.antt =====
-- JSON values, as Python's `json` reads and writes them. A float stands by its literal.
use eidolon_agent.Base.{ℕ, Bool, Option, none, some, List, [], ◌∷◌, String, str_eq, if◌then◌else◌}

mutual
  pub data Json : Type 0 where
    null : Json
    bool : Bool → Json
    int : ℕ → Json
    negative_int : ℕ → Json
    float : String → Json
    str : String → Json
    array : Items → Json
    object : Fields → Json

  pub data Items : Type 0 where
    no_items : Items
    item : Json → Items → Items

  pub data Fields : Type 0 where
    no_fields : Fields
    field : String → Json → Fields → Fields

abbrev pub lookup_field : String → Fields → Option Json
lookup_field k no_fields = none
lookup_field k (field j v fs) = if str_eq j k then some v else lookup_field k fs

abbrev pub keys_of : Fields → List String
keys_of no_fields = []
keys_of (field k v fs) = k ∷ keys_of fs
