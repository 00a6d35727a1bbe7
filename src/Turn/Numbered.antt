-- ===== src/Turn/Numbered.antt =====
-- The events of a turn are numbered without a gap, and the last one ends it.
use eidolon_agent.Base.{
  ℕ, zero, suc, ◌+◌, ◌<◌, ◌≡◌, refl, ap, ◌∙◌, Bool, true, false, not, ◌||◌, Option, none, some,
  List, [], ◌∷◌, ◌++◌, String, map, arith, leb, str_eq, str_mem, join, if-elim,
}
use eidolon_agent.Tools.Dispatch.{ToolCall, ToolResult}
use eidolon_agent.Turn.{
  Delta, EventKind, answered, called, delta, done, error, TurnEvent, LoopState, Engine, LoopEnd,
  broke, refused, emit, emit_some, say, on_text, announce_tool, on_call, on_usage, on_delta,
  on_deltas, slow_hint, hint_if, end_turn, on_results, tool_round, streamed, wants_tools,
  after_stream, tool_loop, finish_turn, run_turn, dispatched_calls, handoff_from_tool_result,
  tool_answer_announcement, results_of,
}
use eidolon_agent.Turn.Rounds.{IsBounded, tool_loop-IsBounded}

-- 0, …, n - 1
abbrev pub count_up : ℕ → List ℕ
count_up zero = []
count_up (suc n) = count_up n ++ (n ∷ [])

abbrev seqs : List TurnEvent → List ℕ
seqs = map (λ (e : TurnEvent). e.seq)

seqs-append :
    (es : List TurnEvent) (e : TurnEvent) → seqs (es ++ (e ∷ [])) ≡ seqs es ++ (e.seq ∷ [])
seqs-append [] e = refl
seqs-append (x ∷ es) e = ap (λ z. x.seq ∷ z) (seqs-append es e)

module _ {World : Type 0} where
  -- The events bear the numbers up to the next one, in order.
  abbrev pub IsNumbered : LoopState World → Type 0
  IsNumbered s = map (λ (e : TurnEvent). e.seq) s.events ≡ count_up s.next_seq

  emit-IsNumbered :
      (kind : EventKind) (s : LoopState World) → IsNumbered s → IsNumbered (emit kind s)
  unfolding emit
  emit-IsNumbered kind s h =
      seqs-append s.events (record { seq = s.next_seq; kind = kind })
      ∙ ap (λ z. z ++ (s.next_seq ∷ [])) h

  emit_some-IsNumbered :
      (kind : Option EventKind) (s : LoopState World) → IsNumbered s → IsNumbered (emit_some kind s)
  emit_some-IsNumbered none s h = h
  emit_some-IsNumbered (some kind) s h = emit-IsNumbered kind s h

  module _ (engine : Engine World) where
    on_text-IsNumbered :
        (text : Option String) (s : LoopState World)
        → IsNumbered s
        → IsNumbered (on_text engine text s)
    on_text-IsNumbered none s h = h
    on_text-IsNumbered (some text) s h =
        if-elim IsNumbered (str_eq text "") s (say text s) (λ _. h) (λ _. emit-IsNumbered _ _ h)

    announce_tool-IsNumbered :
        (text : String) (s : LoopState World)
        → IsNumbered s
        → IsNumbered (announce_tool engine text s)
    announce_tool-IsNumbered text s h =
        if-elim IsNumbered (str_eq text "" || str_mem text s.announced) s
          (say text (record s { announced = text ∷ s.announced })) (λ _. h)
          (λ _.
            emit-IsNumbered _
              (record s { announced = text ∷ s.announced; texts = s.texts ++ (text ∷ []) }) h)

    on_call-IsNumbered :
        (call : Option ToolCall) (s : LoopState World)
        → IsNumbered s
        → IsNumbered (on_call engine call s)
    on_call-IsNumbered none s h = h
    on_call-IsNumbered (some call) s h =
        emit-IsNumbered (called call)
          (announce_tool engine (tool_answer_announcement engine call) s)
          (announce_tool-IsNumbered (tool_answer_announcement engine call) s h)

    on_usage-IsNumbered :
        (usage : Option (ℕ × ℕ)) (s : LoopState World)
        → IsNumbered s
        → IsNumbered (on_usage engine usage s)
    on_usage-IsNumbered none s h = h
    on_usage-IsNumbered (some (i, o)) s h =
        emit-IsNumbered _ (record s { tokens_in = s.tokens_in + i; tokens_out = s.tokens_out + o })
          h

    on_deltas-IsNumbered :
        (ds : List Delta) (s : LoopState World) → IsNumbered s → IsNumbered (on_deltas engine ds s)
    unfolding on_deltas on_delta
    on_deltas-IsNumbered [] s h = h
    on_deltas-IsNumbered (d ∷ ds) s h = on_deltas-IsNumbered ds (on_delta engine d s) (
        on_usage-IsNumbered d.usage _ (
          on_call-IsNumbered d.tool_call _
            (on_text-IsNumbered d.text_delta _ (emit_some-IsNumbered _ s h))))

    after_stream-IsNumbered :
        (ds : List Delta) (s : LoopState World)
        → IsNumbered s
        → IsNumbered (after_stream engine ds s)
    after_stream-IsNumbered ds s h =
        if-elim IsNumbered _ _ (on_deltas engine ds s) (λ _. on_deltas-IsNumbered ds s h)
          (λ _. on_deltas-IsNumbered ds s h)

    hint_if-IsNumbered :
        (b : Bool) (s : LoopState World) → IsNumbered s → IsNumbered (hint_if engine b s)
    hint_if-IsNumbered true s h = emit-IsNumbered _ (record s { hint_emitted = true }) h
    hint_if-IsNumbered false s h = h

    slow_hint-IsNumbered :
        (calls : List ToolCall) (s : LoopState World)
        → IsNumbered s
        → IsNumbered (slow_hint engine calls s)
    slow_hint-IsNumbered calls s h = hint_if-IsNumbered _ s h

    on_results-IsNumbered :
        (rs : List ToolResult) (s : LoopState World)
        → IsNumbered s
        → IsNumbered (on_results engine rs s)
    unfolding on_results
    on_results-IsNumbered [] s h = h
    on_results-IsNumbered (r ∷ rs) s h =
        on_results-IsNumbered rs (emit_some (handoff_from_tool_result r) (emit (answered r) s)) (
          emit_some-IsNumbered (handoff_from_tool_result r) (emit (answered r) s)
            (emit-IsNumbered (answered r) s h))

    tool_round-IsNumbered :
        (calls : List ToolCall) (s : LoopState World)
        → IsNumbered s
        → IsNumbered (tool_round engine calls s)
    unfolding tool_round
    tool_round-IsNumbered calls s h =
        on_results-IsNumbered (results_of engine calls s) _
          (slow_hint-IsNumbered (dispatched_calls s.failure_counts calls) s h)

    abbrev IsNumberedEnd : Option (LoopEnd × LoopState World) → Type 0
    IsNumberedEnd none = Unit
    IsNumberedEnd (some (_, t)) = IsNumbered t

    tool_loop-IsNumbered :
        (fuel : ℕ) (s : LoopState World) → IsNumbered s → IsNumberedEnd (tool_loop engine fuel s)
    unfolding tool_loop
    tool_loop-IsNumbered zero s h = tt
    tool_loop-IsNumbered (suc fuel) s h =
        let ds = engine.stream s.tool_iters s.messages in
        let t = streamed engine ds in
        let s' = after_stream engine ds s in
        let h' : IsNumbered s' = after_stream-IsNumbered ds s h in
        if-elim IsNumberedEnd (not (wants_tools engine t)) _ _ (λ _. h')
          (λ _.
            if-elim IsNumberedEnd engine.is_coordinated _ _ (λ _. h')
              (λ _.
                if-elim IsNumberedEnd (leb engine.max_tool_iters s'.tool_iters) _ _
                  (λ _. emit-IsNumbered _ s' h')
                  (λ _.
                    tool_loop-IsNumbered fuel (tool_round engine t.calls s')
                      (tool_round-IsNumbered t.calls s' h'))))

    -- DONE, or an error.
    abbrev pub is_last : EventKind → Bool
    is_last done = true
    is_last (error _ _) = true
    is_last _ = false

    -- The turn has its events, numbered, and the last one closes it.
    abbrev pub IsClosed : Option (LoopState World) → Type 0
    IsClosed none = ⊥
    IsClosed (some t) =
        IsNumbered t
        × ((es : List TurnEvent) × (e : TurnEvent) × (t.events ≡ es ++ (e ∷ []))
            × (is_last e.kind ≡ true))

    finish_turn-IsClosed :
        (soften : Option String) (end : LoopEnd) (t : LoopState World)
        → IsNumbered t
        → IsClosed (some (finish_turn soften end t))
    unfolding finish_turn emit
    finish_turn-IsClosed soften refused t h = (emit-IsNumbered _ t h, (t.events, _, refl, refl))
    finish_turn-IsClosed none broke t h = (emit-IsNumbered _ t h, (t.events, _, refl, refl))
    finish_turn-IsClosed (some prefix) broke t h =
        let u : LoopState World = emit (delta prefix) t in
        (emit-IsNumbered _ u (emit-IsNumbered _ t h), (u.events, _, refl, refl))

    -- From a state that has made no round and whose events are numbered, with fuel for one model
    -- call more than the tool rounds allowed: the turn ends, its events bear the numbers from 0 on
    -- without a gap, and the last one is DONE or an error.
    pub run_turn-IsClosed :
        (soften : String → Option String) (fuel : ℕ) (s : LoopState World)
        → engine.max_tool_iters < fuel
        → s.tool_iters ≡ 0
        → s.batches ≡ []
        → IsNumbered s
        → IsClosed (run_turn engine soften fuel s)
    run_turn-IsClosed soften fuel s f z b h =
        by_end (tool_loop engine fuel s)
          (tool_loop-IsBounded engine fuel s (omega arith) (omega arith) (rw b (omega arith)))
          (tool_loop-IsNumbered fuel s h)
      where
        by_end :
            (o : Option (LoopEnd × LoopState World))
            → IsBounded engine o
            → IsNumberedEnd o
            → IsClosed (end_turn soften o)
        by_end none k h = k
        by_end (some (end, t)) k h = finish_turn-IsClosed (soften (join "" t.texts)) end t h
