-- ===== src/Tools/Dispatch.antt =====
-- `ToolDispatcher` of eidolon_agent/domain/tools/dispatcher.py over the tools of
-- eidolon_agent/core/types/tool.py. A tool's `invoke` acts on a world that the model does not look
-- into; the idempotency store is the key-value store of Kv. `latency_ms`, `metadata` beyond its
-- cache mark, the message texts, the logging and the dispatch of a batch, which runs its readonly
-- calls at the same time, are not modelled.
pub mod Calls
pub mod Guards
pub mod Replay
mod Tests
use eidolon_agent.Base.{
  ℕ, zero, suc, ◌+◌, ◌≡◌, Bool, true, false, not, ◌&&◌, ◌||◌, Option, none, some, List, [], ◌∷◌,
  ◌++◌, String, str_eq, str_mem, if◌then◌else◌, is_some, all, any, length,
}
use eidolon_agent.Base.Dict.{Dict, lookup}
use eidolon_agent.Base.Json.{Json, null, bool, str, object, field, no_fields, Fields, lookup_field}
use eidolon_agent.Kv.{Kv, get, put}
use eidolon_agent.Tools.Schema.{Schema, validate}
pub use eidolon_agent.Tools.Dispatch.Calls.{
  Permission, ToolSchema, ToolCall, ToolResult, Outcome, TurnFacts, failed, Tool, Context, Registry,
  Dispatcher, State, Codec, permits, as_ok, or_null, as_text, cached_result, stored, no_template,
  settle, memory_read, memory_write, network, filesystem, system, user_data, returned, timed_out,
  raised,
}

module _ {World : Type 0} (d : Dispatcher World) (ctx : Context World) where
  -- `_resolve_tool`
  pub resolve_tool : String → Option (Tool World)
  resolve_tool name =
      if str_mem name ctx.denied_tools then none else elim (lookup name ctx.extra_tools) [
        | some tool ↦ some tool
        | none ↦ elim (lookup name d.registry.tools) [
          | some tool ↦ some tool
          | none ↦ lookup name d.registry.aliases
        ]
      ]

  -- `_check_permissions`
  pub permitted : Tool World → Bool
  permitted tool = elim d.allowed [
    | none ↦ true
    | some allowed ↦ all (permits allowed) tool.schema.permissions
  ]

  -- `_maybe_idemp_key`, where there is a store.
  pub idemp_key : Codec → Tool World → ToolCall → Option String
  idemp_key codec tool call =
      if d.has_store
      then elim tool.schema.idempotency_key_template [
        | none ↦ none
        | some t ↦ if str_eq t "" then none else codec.render t call ctx.turn
      ]
      else none

module _ {World : Type 0} (codec : Codec) (d : Dispatcher World) (ctx : Context World)
    (now : ℕ) where
  -- The end of `_invoke_one`: a good result is stored.
  pub remember : Option String → Outcome → State World → State World
  remember (some key) (returned r) s =
      if r.is_ok
      then record s { idemp = (put key (codec.dumps (stored r.content)) none now s.idemp).1 }
      else s
  remember _ _ s = s

  pub invoke_fresh : Tool World → ToolCall → Option String → State World → Outcome × State World
  invoke_fresh tool call key s =
      let (outcome, w) = tool.invoke call s.world in
      (outcome, remember key outcome (record s { world = w }))

  pub invoke_cached : Tool World → ToolCall → Option String → State World → Outcome × State World
  invoke_cached tool call none s = invoke_fresh tool call none s
  invoke_cached tool call (some key) s =
      let (hit, kv) = get key now s.idemp in
      elim hit [
        | some text ↦ (cached_result call (codec.loads text), record s { idemp = kv })
        | none ↦ invoke_fresh tool call (some key) (record s { idemp = kv })
      ]

  -- `_invoke_one`
  pub invoke_one : Tool World → ToolCall → State World → Outcome × State World
  invoke_one tool call s =
      if d.require_idempotency
        && tool.schema.side_effect
        && no_template tool.schema.idempotency_key_template
      then (returned (failed call "tool_requires_idempotency"), s)
      else invoke_cached tool call (idemp_key d ctx codec tool call) s

  -- `_dispatch_one`, once the tool is known.
  pub dispatch_tool : Tool World → ToolCall → State World → ToolResult × State World
  dispatch_tool tool call s =
      if not (permitted d ctx tool)
      then (failed call "eidolon.tool_permission_denied", s)
      else if d.schema_strict && is_some (validate tool.schema.json_schema call.arguments [])
      then (failed call "invalid_tool_arguments", s)
      else let (outcome, s') = invoke_one tool call s in (settle call outcome, s')

  unfoldable pub dispatch_one : ToolCall → State World → ToolResult × State World
  dispatch_one call s = elim (resolve_tool d ctx call.name) [
    | none ↦ (failed call "tool_not_found", s)
    | some tool ↦ dispatch_tool tool call s
  ]
