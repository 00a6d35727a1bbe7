-- ===== src/Tools/Dispatch/Replay.antt =====
-- The idempotency store: a call that succeeded under a key is answered from the store.
use eidolon_agent.Base.{
  ℕ, ◌≡◌, refl, sym, ◌∙◌, subst, true, none, some, String, eq_refl, Bool-cases, inl, inr,
}
use eidolon_agent.Base.Json.{Json}
use eidolon_agent.Kv.{get}
use eidolon_agent.Kv.Laws.{get-put}
use eidolon_agent.Tools.Dispatch.{
  Tool, ToolCall, ToolResult, Outcome, returned, timed_out, raised, Context, Dispatcher, State,
  Codec, settle, stored, cached_result, resolve_tool, idemp_key, remember, invoke_fresh,
  invoke_cached, dispatch_one,
}
use eidolon_agent.Tools.Dispatch.Guards.{guarded, dispatch_guarded, dispatch_refused}

settle_ok :
    (call : ToolCall) (o : Outcome)
    → (settle call o).is_ok ≡ true
    → (r : ToolResult) × (o ≡ returned r) × (r.is_ok ≡ true)
settle_ok call (returned r) h = (r, refl, h)
settle_ok call timed_out h = cc h
settle_ok call (raised none) h = cc h
settle_ok call (raised (some code)) h = cc h

module _ {World : Type 0} (codec : Codec) (d : Dispatcher World) (ctx : Context World)
    (tool : Tool World) (call : ToolCall) (key : String) where
  invoke_miss :
      (now : ℕ) (s : State World)
      → (get key now s.idemp).0 ≡ none
      → invoke_cached codec d ctx now tool call (some key) s
        ≡ invoke_fresh codec d ctx now tool call
            (some key)
            (record s { idemp = (get key now s.idemp).1 })
  unfolding invoke_cached
  invoke_miss now s miss = rw (miss, invoke_cached) refl

  invoke_hit :
      (now : ℕ) (s : State World) (text : String)
      → (get key now s.idemp).0 ≡ some text
      → invoke_cached codec d ctx now tool call (some key) s
        ≡ (cached_result call (codec.loads text), record s { idemp = (get key now s.idemp).1 })
  unfolding invoke_cached
  invoke_hit now s text hit = rw (hit, invoke_cached) refl

  -- A good fresh result leaves its text in the store, for any later time.
  fresh_stored :
      (now later : ℕ) (s : State World) (r : ToolResult)
      → (invoke_fresh codec d ctx now tool call (some key) s).0 ≡ returned r
      → r.is_ok ≡ true
      → (get key later (invoke_fresh codec d ctx now tool call (some key) s).1.idemp).0
        ≡ some (codec.dumps (stored r.content))
  unfolding invoke_fresh remember
  fresh_stored now later s r e good =
      rw (e, good)
        (get-put key key (codec.dumps (stored r.content)) none now later s.idemp
          ∙ rw (eq_refl key) refl)

  module _ (found : resolve_tool d ctx call.name ≡ some tool)
      (keyed : idemp_key d ctx codec tool call ≡ some key)
      (g : guarded d ctx tool call ≡ true) where
    dispatch_keyed :
        (now : ℕ) (s : State World)
        → dispatch_one codec d ctx now call s ≡ (
            let (o, s') = invoke_cached codec d ctx now tool call (some key) s in
            (settle call o, s'))
    dispatch_keyed now s = rw keyed at (dispatch_guarded codec d ctx now call tool s found g)

    second_hit :
        (later : ℕ) (s : State World) (content : Json)
        → codec.loads (codec.dumps (stored content)) ≡ some (stored content)
        → (get key later s.idemp).0 ≡ some (codec.dumps (stored content))
        → let (again, s') = dispatch_one codec d ctx later call s in
          (again.is_ok ≡ true)
          × (again.content ≡ content)
          × (again.idempotent_cache ≡ true)
          × (s'.world ≡ s.world)
    second_hit later s content json hit = rw (dispatch_keyed later s) (
        rw (invoke_hit later s (codec.dumps (stored content)) hit)
          (rw json (refl, refl, refl, refl)))

-- A call that succeeded under an idempotency key that the store did not hold is, when it comes
-- again at any later time, answered with success and the same content from the store: its tool is
-- not invoked, and the world stays as it is. `json` is assumed to read back what it stored here.
pub replay_is_cached :
    {World : Type 0} (codec : Codec) (d : Dispatcher World) (ctx : Context World)
    (tool : Tool World) (call : ToolCall) (key : String) (now later : ℕ) (s : State World)
    → resolve_tool d ctx call.name ≡ some tool
    → idemp_key d ctx codec tool call ≡ some key
    → (get key now s.idemp).0 ≡ none
    → (dispatch_one codec d ctx now call s).0.is_ok ≡ true
    → codec.loads (codec.dumps (stored (dispatch_one codec d ctx now call s).0.content))
      ≡ some (stored (dispatch_one codec d ctx now call s).0.content)
    → let (r, s') = dispatch_one codec d ctx now call s in
      let (again, s'') = dispatch_one codec d ctx later call s' in
      (again.is_ok ≡ true)
      × (again.content ≡ r.content)
      × (again.idempotent_cache ≡ true)
      × (s''.world ≡ s'.world)
replay_is_cached {World} codec d ctx tool call key now later s found keyed miss good json =
    elim (Bool-cases (guarded d ctx tool call)) [
      | inr refused ↦ cc (sym good ∙ (dispatch_refused codec d ctx now call tool s found refused).0)
      | inl g ↦
          let s₀ : State World = record s { idemp = (get key now s.idemp).1 } in
          let fresh = invoke_fresh codec d ctx now tool call (some key) s₀ in
          let first : dispatch_one codec d ctx now call s ≡ (settle call fresh.0, fresh.1) =
            rw (invoke_miss codec d ctx tool call key now s miss) at
              (dispatch_keyed codec d ctx tool call key found keyed g now s) in
          let (r, returns, r_ok) = settle_ok call fresh.0 (rw first at good) in
          let content : r.content ≡ (settle call fresh.0).content = rw returns refl in
          rw first (
            second_hit codec d ctx tool call key found keyed g later fresh.1
              (settle call fresh.0).content (rw first at json)
              (subst (λ c. (get key later fresh.1.idemp).0 ≡ some (codec.dumps (stored c))) content
                (fresh_stored codec d ctx tool call key now later s₀ r returns r_ok)))
    ]
