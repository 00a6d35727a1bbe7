-- ===== src/Turn/Rounds.antt =====
-- The tool loop ends, within its number of rounds.
use eidolon_agent.Base.{
  ℕ, zero, suc, ◌+◌, ◌≤◌, ◌<◌, ◌≡◌, refl, ap, ◌∙◌, Bool, true, false, not, ◌||◌, Option, none, some,
  List, [], ◌∷◌, ◌++◌, String, arith, leb, str_eq, str_mem, length, length-append, if-elim,
}
use eidolon_agent.Base.Dict.{Dict}
use eidolon_agent.Tools.Dispatch.{ToolCall, ToolResult}
use eidolon_agent.Turn.{
  Delta, EventKind, answered, LoopState, Engine, LoopEnd, emit, emit_some, say, on_text,
  announce_tool, on_call, on_usage, on_delta, on_deltas, slow_hint, hint_if, on_results, tool_round,
  streamed, wants_tools, after_stream, tool_loop, dispatched_calls, tool_answer_announcement,
  batch_of, results_of, count_results, handoff_from_tool_result,
}

-- The tool rounds that a state has made, their batches and the failures they left.
abbrev pub rounds_of : {World : Type 0} → LoopState World → ℕ × List (List ToolCall) × Dict ℕ
rounds_of s = (s.tool_iters, s.batches, s.failure_counts)

module _ {World : Type 0} where
  emit-rounds : (kind : EventKind) (s : LoopState World) → rounds_of (emit kind s) ≡ rounds_of s
  unfolding emit
  emit-rounds kind s = refl

  emit_some-rounds :
      (kind : Option EventKind) (s : LoopState World) → rounds_of (emit_some kind s) ≡ rounds_of s
  emit_some-rounds none s = refl
  emit_some-rounds (some kind) s = emit-rounds kind s

  module _ (engine : Engine World) where
    on_text-rounds :
        (text : Option String) (s : LoopState World)
        → rounds_of (on_text engine text s) ≡ rounds_of s
    unfolding emit
    on_text-rounds none s = refl
    on_text-rounds (some text) s =
        if-elim (λ (t : LoopState World). rounds_of t ≡ rounds_of s) (str_eq text "") s (say text s)
          (λ _. refl) (λ _. refl)

    announce_tool-rounds :
        (text : String) (s : LoopState World)
        → rounds_of (announce_tool engine text s) ≡ rounds_of s
    unfolding emit
    announce_tool-rounds text s =
        if-elim (λ (t : LoopState World). rounds_of t ≡ rounds_of s)
          (str_eq text "" || str_mem text s.announced) s
          (say text (record s { announced = text ∷ s.announced })) (λ _. refl) (λ _. refl)

    on_call-rounds :
        (call : Option ToolCall) (s : LoopState World)
        → rounds_of (on_call engine call s) ≡ rounds_of s
    on_call-rounds none s = refl
    on_call-rounds (some call) s =
        emit-rounds _ (announce_tool engine (tool_answer_announcement engine call) s)
        ∙ announce_tool-rounds (tool_answer_announcement engine call) s

    on_usage-rounds :
        (usage : Option (ℕ × ℕ)) (s : LoopState World)
        → rounds_of (on_usage engine usage s) ≡ rounds_of s
    unfolding emit
    on_usage-rounds none s = refl
    on_usage-rounds (some (i, o)) s = refl

    on_deltas-rounds :
        (ds : List Delta) (s : LoopState World) → rounds_of (on_deltas engine ds s) ≡ rounds_of s
    unfolding on_deltas on_delta
    on_deltas-rounds [] s = refl
    on_deltas-rounds (d ∷ ds) s =
        on_deltas-rounds ds (on_delta engine d s)
        ∙ on_usage-rounds d.usage _
        ∙ on_call-rounds d.tool_call _
        ∙ on_text-rounds d.text_delta _
        ∙ emit_some-rounds _ s

    pub after_stream-rounds :
        (ds : List Delta) (s : LoopState World) → rounds_of (after_stream engine ds s) ≡ rounds_of s
    after_stream-rounds ds s =
        if-elim (λ (t : LoopState World). rounds_of t ≡ rounds_of s) _ _ (on_deltas engine ds s)
          (λ _. on_deltas-rounds ds s) (λ _. on_deltas-rounds ds s)

    hint_if-rounds : (b : Bool) (s : LoopState World) → rounds_of (hint_if engine b s) ≡ rounds_of s
    unfolding emit
    hint_if-rounds true s = refl
    hint_if-rounds false s = refl

    slow_hint-rounds :
        (calls : List ToolCall) (s : LoopState World)
        → rounds_of (slow_hint engine calls s) ≡ rounds_of s
    slow_hint-rounds calls s = hint_if-rounds _ s

    on_results-rounds :
        (rs : List ToolResult) (s : LoopState World)
        → rounds_of (on_results engine rs s) ≡ rounds_of s
    unfolding on_results
    on_results-rounds [] s = refl
    on_results-rounds (r ∷ rs) s =
        on_results-rounds rs (emit_some (handoff_from_tool_result r) (emit (answered r) s))
        ∙ emit_some-rounds (handoff_from_tool_result r) (emit (answered r) s)
        ∙ emit-rounds (answered r) s

    -- What a round leaves, of the results that it merges.
    pub tool_round-rounds :
        (calls : List ToolCall) (s : LoopState World)
        → rounds_of (tool_round engine calls s) ≡ (
          suc s.tool_iters,
          s.batches ++ batch_of engine (dispatched_calls s.failure_counts calls),
          count_results s.failure_counts (results_of engine calls s),
        )
    unfolding tool_round
    tool_round-rounds calls s =
        let go = dispatched_calls s.failure_counts calls in
        on_results-rounds (results_of engine calls s) _
        ∙ ap
            (λ (z : ℕ × List (List ToolCall) × Dict ℕ). (
              suc s.tool_iters,
              s.batches ++ batch_of engine go,
              count_results z.2 (results_of engine calls s),
            ))
            (slow_hint-rounds go s)

    -- What the loop ends with, if it does.
    abbrev pub IsBounded : Option (LoopEnd × LoopState World) → Type 0
    IsBounded none = ⊥
    IsBounded (some (_, t)) =
        (t.tool_iters ≤ engine.max_tool_iters) × (length t.batches ≤ t.tool_iters)

    length-batch_of : (cs : List ToolCall) → length (batch_of engine cs) ≤ 1
    length-batch_of [] = omega arith
    length-batch_of (c ∷ cs) = omega arith

    bounded_round :
        (calls : List ToolCall) (s : LoopState World)
        → length s.batches ≤ s.tool_iters
        → length (tool_round engine calls s).batches ≤ (tool_round engine calls s).tool_iters
    bounded_round calls s h =
        let e = tool_round-rounds calls s in
        let go = dispatched_calls s.failure_counts calls in
        let n = ap (λ (z : ℕ × List (List ToolCall) × Dict ℕ). z.0) e in
        let b = ap (λ (z : ℕ × List (List ToolCall) × Dict ℕ). length z.1) e in
        omega (arith, n, b, length-append s.batches (batch_of engine go), length-batch_of go)

    -- With fuel for one model call more than the tool rounds that are left, from a state that has
    -- made no more rounds than allowed and no more batches than rounds: the loop ends, with no more
    -- rounds than allowed and no more batches handed to the dispatcher than rounds, whatever the
    -- model streams and the tools answer.
    pub tool_loop-IsBounded :
        (fuel : ℕ) (s : LoopState World)
        → engine.max_tool_iters < fuel + s.tool_iters
        → s.tool_iters ≤ engine.max_tool_iters
        → length s.batches ≤ s.tool_iters
        → IsBounded (tool_loop engine fuel s)
    unfolding tool_loop
    tool_loop-IsBounded zero s f i h = absurd (omega arith)
    tool_loop-IsBounded (suc fuel) s f i h =
        let ds = engine.stream s.tool_iters s.messages in
        let t = streamed engine ds in
        let s' = after_stream engine ds s in
        let e = after_stream-rounds ds s in
        let n = ap (λ (z : ℕ × List (List ToolCall) × Dict ℕ). z.0) e in
        let b = ap (λ (z : ℕ × List (List ToolCall) × Dict ℕ). length z.1) e in
        let h' : length s'.batches ≤ s'.tool_iters = omega (arith, n, b) in
        let i' : s'.tool_iters ≤ engine.max_tool_iters = omega (arith, n) in
        let m =
          ap (λ (z : ℕ × List (List ToolCall) × Dict ℕ). z.0) (tool_round-rounds t.calls s') in
        if-elim IsBounded (not (wants_tools engine t)) _ _ (λ _. (i', h'))
          (λ _.
            if-elim IsBounded engine.is_coordinated _ _ (λ _. (i', h'))
              (λ _.
                if-elim IsBounded (leb engine.max_tool_iters s'.tool_iters) _ _ (λ _. (i', h'))
                  (λ q.
                    tool_loop-IsBounded fuel (tool_round engine t.calls s') (omega (arith, n, m))
                      (ground (arith, n, m)) (bounded_round t.calls s' h'))))
