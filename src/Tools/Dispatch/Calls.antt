-- ===== src/Tools/Dispatch/Calls.antt =====
-- The tools, calls and results of eidolon_agent/core/types/tool.py, the state of `ToolDispatcher` of
-- eidolon_agent/domain/tools/dispatcher.py, and what it makes of an outcome and of a cached result.
use eidolon_agent.Base.{
  ℕ, zero, suc, Bool, true, false, Option, none, some, List, String, str_eq, any,
}
use eidolon_agent.Base.Dict.{Dict}
use eidolon_agent.Base.Json.{Json, null, bool, str, object, field, no_fields, lookup_field}
use eidolon_agent.Kv.{Kv}
use eidolon_agent.Tools.Schema.{Schema}

pub data Permission : Type 0 where
  memory_read memory_write network filesystem system user_data : Permission

abbrev permission_code : Permission → ℕ
permission_code memory_read = 0
permission_code memory_write = 1
permission_code network = 2
permission_code filesystem = 3
permission_code system = 4
permission_code user_data = 5

pub record ToolSchema : Type 0 where
  pub name : String
  pub json_schema : Schema
  pub permissions : List Permission
  pub side_effect : Bool
  pub idempotency_key_template : Option String

pub record ToolCall : Type 0 where
  pub id : String
  pub name : String
  pub arguments : Json

pub record ToolResult : Type 0 where
  pub call_id : String
  pub name : String
  pub is_ok : Bool
  pub content : Json
  pub error_code : Option String
  pub idempotent_cache : Bool

-- How `wait_for(tool.invoke(…))` ends; an exception shows its `code`, if it has one.
pub data Outcome : Type 0 where
  returned : ToolResult → Outcome
  timed_out : Outcome
  raised : Option String → Outcome

-- What the idempotency key is made of, beside the call.
pub record TurnFacts : Type 0 where
  pub owner_id : String
  pub companion_id : String
  pub memory_realm_id : String
  pub turn_id : String
  pub trace_id : Option String
  pub request_id : Option String

abbrev pub failed : ToolCall → String → ToolResult
failed call code = record {
  call_id = call.id;
  name = call.name;
  is_ok = false;
  content = null;
  error_code = some code;
  idempotent_cache = false;
}

module _ (World : Type 0) where
  pub record Tool : Type 0 where
    pub schema : ToolSchema
    pub invoke : ToolCall → World → Outcome × World

  -- `ToolInvocationContext`
  pub record Context : Type 0 where
    pub denied_tools : List String
    pub extra_tools : Dict Tool
    pub turn : TurnFacts

  -- `ToolRegistry`: tools by name, then by alias.
  pub record Registry : Type 0 where
    pub tools : Dict Tool
    pub aliases : Dict Tool

  pub record Dispatcher : Type 0 where
    pub registry : Registry
    pub has_store : Bool
    pub allowed : Option (List Permission)
    pub schema_strict : Bool
    pub require_idempotency : Bool

-- What a dispatch can change: the world, by the tools, and the idempotency store.
pub record State (World : Type 0) : Type 0 where
  pub world : World
  pub idemp : Kv

-- What the standard library does for the idempotency key and the cached result: `Template`
-- substitution with the digest, which may raise, and `json`'s text of a value.
pub record Codec : Type 0 where
  pub render : String → ToolCall → TurnFacts → Option String
  pub dumps : Json → String
  pub loads : String → Option Json

abbrev same_code : ℕ → ℕ → Bool
same_code zero zero = true
same_code (suc a) (suc b) = same_code a b
same_code _ _ = false

abbrev pub permits : List Permission → Permission → Bool
permits allowed p = any (λ q. same_code (permission_code q) (permission_code p)) allowed

-- A cached `ok` of another type than a bool counts as true.
abbrev pub as_ok : Option Json → Bool
as_ok (some (bool b)) = b
as_ok _ = true

abbrev pub or_null : Option Json → Json
or_null none = null
or_null (some v) = v

abbrev pub as_text : Option Json → Option String
as_text (some (str s)) = some s
as_text _ = none

-- The cached payload as a result; one that is no object raises.
abbrev pub cached_result : ToolCall → Option Json → Outcome
cached_result call (some (object fs)) = returned (record {
  call_id = call.id;
  name = call.name;
  is_ok = as_ok (lookup_field "ok" fs);
  content = or_null (lookup_field "content" fs);
  error_code = as_text (lookup_field "error_code" fs);
  idempotent_cache = true;
})
cached_result call _ = raised none

-- What is stored of a result.
abbrev pub stored : Json → Json
stored content = object (field "ok" (bool true) (field "content" content no_fields))

-- `not tool.schema.idempotency_key_template`
abbrev pub no_template : Option String → Bool
no_template none = true
no_template (some t) = str_eq t ""

-- `except Exception` of `_dispatch_one`.
abbrev pub settle : ToolCall → Outcome → ToolResult
settle call (returned r) = r
settle call timed_out = failed call "eidolon.tool_timeout"
settle call (raised none) = failed call "eidolon.tool"
settle call (raised (some code)) = failed call code
