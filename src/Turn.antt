-- ===== src/Turn.antt =====
-- The model and tool loop of `TurnEngine.run` and the end of a turn, of
-- eidolon_agent/domain/agent/turn.py, for a turn without structured presentation. The language model,
-- the dispatcher, the slow-tool timer, the output guardrail and Python's `str` of a result are
-- parameters; clocks, latencies and traces are not modelled.
pub mod State
pub mod Rounds
pub mod Numbered
pub mod Failures
pub mod Suppressed
mod Tests
use eidolon_agent.Base.{
  ℕ, zero, suc, ◌+◌, Bool, true, false, not, ◌&&◌, ◌||◌, Option, none, some, List, [], ◌∷◌, ◌++◌,
  String, map, leb, ltb, if◌then◌else◌, or_else, is_some, str_eq, str_mem, any, keep_if, join,
}
use Prim.Native.String.{◌++◌ as ◌+++◌}
use eidolon_agent.Base.Dict.{Dict, lookup, insert, erase}
use eidolon_agent.Base.Json.{
  Json, null, bool, int, str, array, no_items, object, no_fields, lookup_field,
}
use eidolon_agent.Tools.Dispatch.{ToolCall, ToolResult}
pub use eidolon_agent.Turn.State.{
  FinishReason, Delta, EventKind, TurnEvent, LoopMessage, LoopState, Streamed, Engine,
  coworker_tool, suppressed_tool_result, and_result, has_failed, count_result, dispatched_calls,
  suppressed_calls, handoff_from_tool_result, count_calls, stop, tool_calls, length, other_finish,
  progress, delta, hint, called, used, answered, handoff, error, done, context_message,
  assistant_calls, tool_message,
}
unfoldable pub use eidolon_agent.Turn.State.{result_for, merge_tool_results, count_results}

pub data LoopEnd : Type 0 where
  broke : LoopEnd
  refused : LoopEnd

module _ {World : Type 0} where
  -- A yield of an event with the next number.
  unfoldable pub emit : EventKind → LoopState World → LoopState World
  emit kind s = record s {
    next_seq = suc s.next_seq;
    events = s.events ++ (record { seq = s.next_seq; kind = kind } ∷ []);
  }

  abbrev pub emit_some : Option EventKind → LoopState World → LoopState World
  emit_some none s = s
  emit_some (some kind) s = emit kind s

  -- Text that is part of the answer.
  abbrev pub say : String → LoopState World → LoopState World
  say text s = emit (delta text) (record s { texts = s.texts ++ (text ∷ []) })

  module _ (engine : Engine World) where
    -- `_tool_answer_announcement`
    abbrev pub tool_answer_announcement : ToolCall → String
    tool_answer_announcement call =
        if str_eq call.name coworker_tool then engine.coworker_phrase else ""

    abbrev pub on_text : Option String → LoopState World → LoopState World
    on_text none s = s
    on_text (some text) s = if str_eq text "" then s else say text s

    abbrev pub announce_tool : String → LoopState World → LoopState World
    announce_tool text s =
        if str_eq text "" || str_mem text s.announced
        then s
        else say text (record s { announced = text ∷ s.announced })

    abbrev pub on_call : Option ToolCall → LoopState World → LoopState World
    on_call none s = s
    on_call (some call) s = emit (called call) (announce_tool (tool_answer_announcement call) s)

    abbrev pub on_usage : Option (ℕ × ℕ) → LoopState World → LoopState World
    on_usage none s = s
    on_usage (some (i, o)) s =
        emit (used i o) (record s { tokens_in = s.tokens_in + i; tokens_out = s.tokens_out + o })

    abbrev activity_event : Option String → Option EventKind
    activity_event none = none
    activity_event (some kind) = some (progress kind)

    -- The body of the `async for` over the stream.
    unfoldable pub on_delta : Delta → LoopState World → LoopState World
    unfolding emit
    on_delta d s =
        on_usage d.usage
          (on_call d.tool_call (on_text d.text_delta (emit_some (activity_event d.activity) s)))

    unfoldable pub on_deltas : List Delta → LoopState World → LoopState World
    unfolding on_delta
    on_deltas [] s = s
    on_deltas (d ∷ ds) s = on_deltas ds (on_delta d s)

    abbrev given_call : Option ToolCall → List ToolCall → List ToolCall
    given_call none cs = cs
    given_call (some c) cs = c ∷ cs

    abbrev later_reason : Option FinishReason → Option FinishReason → Option FinishReason
    later_reason none earlier = earlier
    later_reason (some r) earlier = some r

    -- `tool_calls` and `finish_reason` after the stream.
    abbrev pub streamed : List Delta → Streamed
    streamed [] = record { calls = []; reason = none }
    streamed (d ∷ ds) =
        let rest = streamed ds in
        record {
          calls = given_call d.tool_call rest.calls;
          reason = later_reason rest.reason d.finish;
        }

    abbrev pub hint_if : Bool → LoopState World → LoopState World
    hint_if true s = emit (hint engine.slow_hint_text) (record s { hint_emitted = true })
    hint_if false s = s

    -- The hint, where the dispatcher has not answered in time.
    abbrev pub slow_hint : List ToolCall → LoopState World → LoopState World
    slow_hint calls s =
        hint_if
          (not s.hint_emitted
            && any (λ (c : ToolCall). not (str_eq c.name coworker_tool)) calls
            && engine.hint_is_due calls)
          s

    -- The calls are awaited, if there are any.
    abbrev pub dispatched : List ToolCall → World → List ToolResult × World
    dispatched [] w = ([], w)
    dispatched (c ∷ cs) w = engine.run_batch (c ∷ cs) w

    abbrev pub batch_of : List ToolCall → List (List ToolCall)
    batch_of [] = []
    batch_of (c ∷ cs) = (c ∷ cs) ∷ []

    -- The events of the results, with a handoff behind a delegation.
    unfoldable pub on_results : List ToolResult → LoopState World → LoopState World
    unfolding emit
    on_results [] s = s
    on_results (r ∷ rs) s =
        on_results rs (emit_some (handoff_from_tool_result r) (emit (answered r) s))

    abbrev tool_messages : List ToolResult → List LoopMessage
    tool_messages = map (λ (r : ToolResult). tool_message r.call_id r.name (engine.content_text r))

    -- What a round makes of the results of its calls.
    abbrev pub take_results : List ToolCall → List ToolResult → LoopState World → LoopState World
    take_results calls results s = on_results results (record s {
      failure_counts = count_results s.failure_counts results;
      messages = s.messages ++ (assistant_calls calls ∷ tool_messages results);
    })

    -- The dispatcher's answer to the calls that are let through.
    abbrev pub answer_of : List ToolCall → LoopState World → List ToolResult × World
    answer_of calls s = dispatched (dispatched_calls s.failure_counts calls) s.world

    -- The results of all calls of the round, in the order of the calls.
    abbrev pub results_of : List ToolCall → LoopState World → List ToolResult
    results_of calls s =
        let held = suppressed_calls s.failure_counts calls in
        merge_tool_results calls ((answer_of calls s).0 ++ map suppressed_tool_result held)

    -- A tool round: suppress, dispatch, merge, count, and feed back.
    unfoldable pub tool_round : List ToolCall → LoopState World → LoopState World
    unfolding on_results count_results merge_tool_results
    tool_round calls s =
        let go = dispatched_calls s.failure_counts calls in
        let hinted = slow_hint go s in
        take_results calls (results_of calls s) (record hinted {
          world = (answer_of calls s).1;
          tool_iters = suc s.tool_iters;
          suppressed_count =
              s.suppressed_count + count_calls (suppressed_calls s.failure_counts calls);
          batches = s.batches ++ batch_of go;
        })

    abbrev is_tool_calls : Option FinishReason → Bool
    is_tool_calls (some tool_calls) = true
    is_tool_calls _ = false

    abbrev is_length : Option FinishReason → Bool
    is_length (some length) = true
    is_length _ = false

    abbrev pub wants_tools : Streamed → Bool
    wants_tools t = is_tool_calls t.reason && ltb 0 (count_calls t.calls)

    -- The state after the stream of a round.
    abbrev pub after_stream : List Delta → LoopState World → LoopState World
    after_stream ds s =
        let t = streamed ds in
        let s' = on_deltas ds s in
        if is_length t.reason then record s' { output_truncated = true } else s'

    -- The while loop; none if the fuel is used up.
    unfoldable pub tool_loop : ℕ → LoopState World → Option (LoopEnd × LoopState World)
    unfolding on_deltas tool_round
    tool_loop zero s = none
    tool_loop (suc fuel) s =
        let ds = engine.stream s.tool_iters s.messages in
        let t = streamed ds in
        let s' = after_stream ds s in
        let next = tool_loop fuel (tool_round t.calls s') in
        if not (wants_tools t)
        then some (broke, s')
        else (if engine.is_coordinated
            then some (refused, s')
            else (if leb engine.max_tool_iters s'.tool_iters
                then some (broke, emit (error "tool_loop_exceeded" "exceeded max_tool_iters") s')
                else next))

  -- The end of a turn: the output guardrail with the softening phrase, if it asks for one, and DONE;
  -- or the error of a coordinated turn that calls tools.
  unfoldable pub finish_turn : Option String → LoopEnd → LoopState World → LoopState World
  unfolding emit
  finish_turn soften refused s =
      emit (error "internal" "coordinated replies do not authorize tool actions") s
  finish_turn none broke s = emit done s
  finish_turn (some prefix) broke s = emit done (emit (delta prefix) s)

  abbrev pub end_turn :
      (String → Option String) → Option (LoopEnd × LoopState World) → Option (LoopState World)
  end_turn soften none = none
  end_turn soften (some (end, t)) = some (finish_turn (soften (join "" t.texts)) end t)

  -- The loop and the end of the turn, with the guardrail's softening of the answer.
  abbrev pub run_turn :
      Engine World → (String → Option String) → ℕ → LoopState World → Option (LoopState World)
  run_turn engine soften fuel s = end_turn soften (tool_loop engine fuel s)
