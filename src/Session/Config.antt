-- ===== src/Session/Config.antt =====
-- `CompanionRuntimeConfig.from_authority` of eidolon_agent/core/types/companion_runtime.py. A
-- temperature stands by the JSON number that it is read from; a ValueError is `none`.
pub mod Accepted
use eidolon_agent.Base.{
  ℕ, zero, suc, ◌≡◌, Bool, true, false, Option, none, some, List, [], ◌∷◌, String, str_eq, str_mem,
  if◌then◌else◌, strip,
}
use eidolon_agent.Base.Json.{
  Json, Items, Fields, null, bool, int, negative_int, float, str, array, object, no_items, item,
  no_fields, field, lookup_field,
}

pub record Config : Type 0 where
  pub model : Option String
  pub temperature : Json
  pub tool_allow : List String
  pub tool_deny : List String
  pub allow_body_control : Bool
  pub max_tool_iters : Option ℕ
  pub max_output_tokens : Option ℕ

infixl 5 ◌>>=◌
abbrev pub ◌>>=◌ {ℓ κ} : {A : Type ℓ} {B : Type κ} → Option A → (A → Option B) → Option B
none >>= f = none
some a >>= f = f a

-- `model.strip() or None`; no model, or JSON null, is None.
unfoldable pub read_model : Option Json → Option (Option String)
read_model none = some none
read_model (some null) = some none
read_model (some (str s)) = let m = strip s in some (if str_eq m "" then none else some m)
read_model (some _) = none

unfoldable pub read_temperature : Option Json → Option Json
read_temperature none = some (float "0.7")
read_temperature (some (int n)) = some (int n)
read_temperature (some (negative_int n)) = some (negative_int n)
read_temperature (some (float s)) = some (float s)
read_temperature (some _) = none

unfoldable pub read_tools : Option Json → Option Fields
read_tools none = some no_fields
read_tools (some (object fs)) = some fs
read_tools (some _) = none

-- The entries of `_identifier_set`, as a list.
unfoldable pub read_identifiers : Items → Option (List String)
read_identifiers no_items = some []
read_identifiers (item (str s) xs) = do
  rest ← read_identifiers xs
  if str_eq (strip s) "" then none else some (strip s ∷ rest)
read_identifiers (item _ xs) = none

unfoldable pub identifier_set : Option Json → Option (List String)
unfolding read_identifiers
identifier_set none = some []
identifier_set (some null) = some []
identifier_set (some (array xs)) = read_identifiers xs
identifier_set (some _) = none

unfoldable pub read_flag : Option Json → Option Bool
read_flag none = some true
read_flag (some (bool b)) = some b
read_flag (some _) = none

-- `max_tool_iters` and `max_output_tokens`: nothing, or an integer above 0.
unfoldable pub read_limit : Option Json → Option (Option ℕ)
read_limit none = some none
read_limit (some null) = some none
read_limit (some (int n)) = elim n [ zero ↦ none | suc m ↦ some (some (suc m)) ]
read_limit (some _) = none

unfoldable pub read_config : Fields → Option Config
read_config raw = do
  model ← read_model (lookup_field "model" raw)
  temperature ← read_temperature (lookup_field "temperature" raw)
  tools ← read_tools (lookup_field "tools" raw)
  allow ← identifier_set (lookup_field "allow" tools)
  deny ← identifier_set (lookup_field "deny" tools)
  flag ← read_flag (lookup_field "allow_body_control" tools)
  iters ← read_limit (lookup_field "max_tool_iters" raw)
  tokens ← read_limit (lookup_field "max_output_tokens" raw)
  some (record {
    model = model;
    temperature = temperature;
    tool_allow = allow;
    tool_deny = deny;
    allow_body_control = flag;
    max_tool_iters = iters;
    max_output_tokens = tokens;
  })

-- `from_authority`
unfoldable pub from_authority : Json → Option Config
unfolding read_config
from_authority (object raw) = read_config raw
from_authority _ = none
