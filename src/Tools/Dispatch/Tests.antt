-- ===== src/Tools/Dispatch/Tests.antt =====
-- Dispatches of concrete calls; the world is a counter.
use eidolon_agent.Base.{
  ℕ, suc, ◌≡◌, ◌≢◌, ◌&&◌, refl, Bool, true, false, Option, none, some, [], ◌∷◌, String, str_mem,
}
use eidolon_agent.Base.Dict.{lookup, insert, erase}
use eidolon_agent.Base.Json.{str, object, no_fields}
use eidolon_agent.Kv.{init, expired, current_rev, notify, notify_all, get, put}
use eidolon_agent.Tools.Schema.{schema, no_props, any_items, validate}
use eidolon_agent.Tools.Schema.Sound.{When, Conforms}
use eidolon_agent.Tools.Dispatch.{
  network, ToolCall, ToolResult, returned, Tool, Context, Dispatcher, State, Codec, stored,
  no_template, resolve_tool, permitted, idemp_key, remember, invoke_fresh, invoke_cached,
  invoke_one, dispatch_tool, dispatch_one,
}
use eidolon_agent.Tools.Dispatch.Guards.{world_changes_only_guarded}
use eidolon_agent.Tools.Dispatch.Replay.{replay_is_cached}

abbrev good : ToolCall → ToolResult
good call = record {
  call_id = call.id;
  name = call.name;
  is_ok = true;
  content = str "done";
  error_code = none;
  idempotent_cache = false;
}

-- A tool that counts its runs.
abbrev tool_named : String → Bool → Option String → Tool ℕ
tool_named name effect template = record {
  schema = record {
    name = name;
    json_schema = schema (some "object") [] no_props false any_items;
    permissions = network ∷ [];
    side_effect = effect;
    idempotency_key_template = template;
  };
  invoke = λ call w. (returned (good call), suc w);
}

abbrev dispatcher : Dispatcher ℕ
dispatcher = record {
  registry = record {
    tools =
        ("send", tool_named "send" true (some "k")) ∷ ("look", tool_named "look" false none) ∷ [];
    aliases = ("mail", tool_named "send" true (some "k")) ∷ [];
  };
  has_store = true;
  allowed = some (network ∷ []);
  schema_strict = true;
  require_idempotency = true;
}

abbrev context : Context ℕ
context = record {
  denied_tools = "emit_event" ∷ [];
  extra_tools = [];
  turn = record {
    owner_id = "o";
    companion_id = "c";
    memory_realm_id = "r";
    turn_id = "t";
    trace_id = none;
    request_id = none;
  };
}

abbrev call_of : String → ToolCall
call_of name = record { id = "1"; name = name; arguments = object no_fields }

-- One text stands for the one value that is stored here.
abbrev one_text : Codec
one_text = record {
  render = λ t call turn. some t;
  dumps = λ v. "stored";
  loads = λ s. some (stored (str "done"));
}

abbrev fresh : State ℕ
fresh = record { world = 0; idemp = init }

-- The second call is answered from the store: the world counts one run.
once :
    (dispatch_one one_text dispatcher context 2
      (call_of "send")
      (dispatch_one one_text dispatcher context 1 (call_of "send") fresh).1).1.world
    ≡ 1
unfolding dispatch_one dispatch_tool invoke_one invoke_cached invoke_fresh remember permitted
    resolve_tool idemp_key get put expired current_rev notify notify_all validate lookup insert
    erase
once = refl

denied : (dispatch_one one_text dispatcher context 1 (call_of "emit_event") fresh).0.is_ok ≡ false
unfolding dispatch_one resolve_tool
denied = refl

changed : (dispatch_one one_text dispatcher context 1 (call_of "send") fresh).1.world ≢ fresh.world
unfolding dispatch_one dispatch_tool invoke_one invoke_cached invoke_fresh remember permitted
    resolve_tool idemp_key get put expired current_rev notify notify_all validate lookup insert
    erase
changed h = cc h

world_changes_only_guarded_example :
    (tool : Tool ℕ) × (resolve_tool dispatcher context "send" ≡ some tool)
    × (str_mem "send" context.denied_tools ≡ false)
    × (permitted dispatcher context tool ≡ true)
    × When dispatcher.schema_strict (Conforms tool.schema.json_schema (object no_fields))
    × (dispatcher.require_idempotency
          && tool.schema.side_effect
          && no_template tool.schema.idempotency_key_template
        ≡ false)
world_changes_only_guarded_example =
    world_changes_only_guarded one_text dispatcher context 1 (call_of "send") fresh changed

replay_is_cached_example :
    ((dispatch_one one_text dispatcher context 2
        (call_of "send")
        (dispatch_one one_text dispatcher context 1 (call_of "send") fresh).1).0.is_ok
      ≡ true)
    × ((dispatch_one one_text dispatcher context 2
          (call_of "send")
          (dispatch_one one_text dispatcher context 1 (call_of "send") fresh).1).0.content
        ≡ (dispatch_one one_text dispatcher context 1 (call_of "send") fresh).0.content)
    × ((dispatch_one one_text dispatcher context 2
          (call_of "send")
          (dispatch_one one_text dispatcher context 1 (call_of "send") fresh).1).0.idempotent_cache
        ≡ true)
    × ((dispatch_one one_text dispatcher context 2
          (call_of "send")
          (dispatch_one one_text dispatcher context 1 (call_of "send") fresh).1).1.world
        ≡ (dispatch_one one_text dispatcher context 1 (call_of "send") fresh).1.world)
unfolding dispatch_one dispatch_tool invoke_one invoke_cached invoke_fresh remember permitted
    resolve_tool idemp_key get put expired current_rev notify notify_all validate lookup insert
    erase
replay_is_cached_example =
    replay_is_cached one_text dispatcher context (tool_named "send" true (some "k"))
      (call_of "send") "k" 1 2 fresh refl refl refl refl refl
