-- ===== src/Tools/Dispatch/Guards.antt =====
-- What stands between a tool call and its tool.
use eidolon_agent.Base.{
  ℕ, ◌≡◌, ◌≢◌, refl, ap, Bool, true, false, not, ◌&&◌, none, some, [], arith, str_mem, is_some,
  Bool-cases, Option-cases, inl, inr,
}
use eidolon_agent.Tools.Schema.{validate}
use eidolon_agent.Tools.Schema.Sound.{When, Conforms, validate-Conforms}
use eidolon_agent.Tools.Dispatch.{
  Tool, ToolCall, Context, Dispatcher, State, Codec, settle, no_template, resolve_tool, permitted,
  idemp_key, invoke_cached, invoke_one, dispatch_tool, dispatch_one,
}

-- The three guards of a tool that was found.
pub guarded : {World : Type 0} → Dispatcher World → Context World → Tool World → ToolCall → Bool
guarded d ctx tool call =
    permitted d ctx tool
    && not (d.schema_strict && is_some (validate tool.schema.json_schema call.arguments []))
    && not (
        d.require_idempotency
        && tool.schema.side_effect
        && no_template tool.schema.idempotency_key_template)

module _ {World : Type 0} (codec : Codec) (d : Dispatcher World) (ctx : Context World) (now : ℕ)
    (call : ToolCall) where
  pub dispatch_guarded :
      (tool : Tool World) (s : State World)
      → resolve_tool d ctx call.name ≡ some tool
      → guarded d ctx tool call ≡ true
      → dispatch_one codec d ctx now call s ≡ (
          let (o, s') =
            invoke_cached codec d ctx now tool call (idemp_key d ctx codec tool call) s in
          (settle call o, s'))
  unfolding dispatch_one dispatch_tool invoke_one guarded
  dispatch_guarded tool s found g = rw (found, dispatch_one) (ground (arith, g))

  pub dispatch_refused :
      (tool : Tool World) (s : State World)
      → resolve_tool d ctx call.name ≡ some tool
      → guarded d ctx tool call ≡ false
      → ((dispatch_one codec d ctx now call s).0.is_ok ≡ false)
        × ((dispatch_one codec d ctx now call s).1 ≡ s)
  unfolding dispatch_one dispatch_tool invoke_one guarded
  dispatch_refused tool s found g = rw (found, dispatch_one) (ground (arith, g))

  pub unknown_unchanged :
      (s : State World)
      → resolve_tool d ctx call.name ≡ none
      → (dispatch_one codec d ctx now call s).1 ≡ s
  unfolding dispatch_one
  unknown_unchanged s missing = rw (missing, dispatch_one) refl

  found_not_denied :
      (tool : Tool World)
      → resolve_tool d ctx call.name ≡ some tool
      → str_mem call.name ctx.denied_tools ≡ false
  unfolding resolve_tool
  found_not_denied tool found = ground (arith, found)

  guarded-permitted :
      (tool : Tool World) → guarded d ctx tool call ≡ true → permitted d ctx tool ≡ true
  unfolding guarded
  guarded-permitted tool g = ground (arith, g)

  guarded-Conforms :
      (tool : Tool World)
      → guarded d ctx tool call ≡ true
      → When d.schema_strict (Conforms tool.schema.json_schema call.arguments)
  unfolding guarded
  guarded-Conforms tool g = elim (Bool-cases d.schema_strict) [
    | inl strict ↦ rw strict (
        (validate-Conforms tool.schema.json_schema call.arguments []).0 (ground (arith, g, strict)))
    | inr lax ↦ rw lax tt
  ]

  guarded_template :
      (tool : Tool World)
      → guarded d ctx tool call ≡ true
      → d.require_idempotency
          && tool.schema.side_effect
          && no_template tool.schema.idempotency_key_template
        ≡ false
  unfolding guarded
  guarded_template tool g = ground (arith, g)

  -- A call that changes the world has passed every guard: its tool is not denied to the companion
  -- and is registered, the dispatcher grants all its permissions, its arguments conform to the
  -- schema where the dispatcher is strict, and a side effect has an idempotency key template where
  -- that is required.
  pub world_changes_only_guarded :
      (s : State World)
      → (dispatch_one codec d ctx now call s).1.world ≢ s.world
      → (tool : Tool World) × (resolve_tool d ctx call.name ≡ some tool)
        × (str_mem call.name ctx.denied_tools ≡ false)
        × (permitted d ctx tool ≡ true)
        × When d.schema_strict (Conforms tool.schema.json_schema call.arguments)
        × (d.require_idempotency
              && tool.schema.side_effect
              && no_template tool.schema.idempotency_key_template
            ≡ false)
  world_changes_only_guarded s changed = elim (Option-cases (resolve_tool d ctx call.name)) [
    | inl missing ↦
        absurd (changed (ap (λ (t : State World). t.world) (unknown_unchanged s missing)))
    | inr (tool, found) ↦ elim (Bool-cases (guarded d ctx tool call)) [
      | inr refused ↦
          absurd
            (changed (ap (λ (t : State World). t.world) (dispatch_refused tool s found refused).1))
      | inl g ↦ (
        tool,
        found,
        found_not_denied tool found,
        guarded-permitted tool g,
        guarded-Conforms tool g,
        guarded_template tool g,
      )
    ]
  ]
