-- ===== src/Turn/Failures.antt =====
-- A tool that has failed in a turn is not called again in it.
use eidolon_agent.Base.{
  ℕ, zero, suc, ◌+◌, ◌≤◌, ◌<◌, ◌≡◌, refl, sym, ap, ◌∙◌, Bool, true, false, not, ◌&&◌, Option, none,
  some, List, [], ◌∷◌, ◌++◌, String, map, arith, leb, if◌then◌else◌, or_else, str_eq, eq_iff, any,
  All, All-append, Bool-cases, inl, inr, if-elim,
}
use eidolon_agent.Base.Dict.{Dict, lookup, lookup-insert, lookup-erase}
use eidolon_agent.Tools.Dispatch.{ToolCall, ToolResult}
use eidolon_agent.Turn.{
  LoopState, Engine, LoopEnd, has_failed, count_result, count_results, result_for, and_result,
  merge_tool_results, suppressed_tool_result, dispatched_calls, suppressed_calls, dispatched,
  answer_of, results_of, batch_of, tool_round, streamed, wants_tools, after_stream, tool_loop,
}
use eidolon_agent.Turn.Rounds.{after_stream-rounds, tool_round-rounds}

-- Is a call of this tool among them?
abbrev pub calls_tool : String → List ToolCall → Bool
calls_tool name = any (λ (c : ToolCall). str_eq c.name name)

-- How many calls of the tool have been handed to the dispatcher.
abbrev count_of : String → List ToolCall → ℕ
count_of name [] = 0
count_of name (c ∷ cs) =
    let rest = count_of name cs in if str_eq c.name name then suc rest else rest

abbrev pub times_called : String → List (List ToolCall) → ℕ
times_called name [] = 0
times_called name (b ∷ bs) = count_of name b + times_called name bs

times_called-append :
    (name : String) (bs cs : List (List ToolCall))
    → times_called name (bs ++ cs) ≡ times_called name bs + times_called name cs
times_called-append name [] cs = omega arith
times_called-append name (b ∷ bs) cs = omega (arith, times_called-append name bs cs)

-- No success of the tool.
abbrev IsHarmless : String → ToolResult → Type 0
IsHarmless name r = (str_eq r.name name && r.is_ok) ≡ false

module _ (counts : Dict ℕ) (name : String) (f : has_failed counts name ≡ true) where
  not_dispatched : (cs : List ToolCall) → count_of name (dispatched_calls counts cs) ≡ 0
  not_dispatched [] = refl
  not_dispatched (c ∷ cs) = elim (Bool-cases (has_failed counts c.name)) [
    | inl t ↦ rw t (not_dispatched cs)
    | inr t ↦ rw t (elim (Bool-cases (str_eq c.name name)) [
      | inl u ↦
          let e : has_failed counts c.name ≡ true = rw ((eq_iff c.name name).0 u) f in
          absurd (true_false (sym e ∙ t))
      | inr u ↦ rw u (not_dispatched cs)
    ])
  ]
    where
      true_false : true ≡ false → ⊥
      true_false h = cc h

no_call : (name : String) (cs : List ToolCall) → count_of name cs ≡ 0 → calls_tool name cs ≡ false
no_call name [] h = refl
no_call name (c ∷ cs) h = elim (Bool-cases (str_eq c.name name)) [
  | inl t ↦ absurd (suc_zero (count_of name cs) (rw t at h))
  | inr t ↦ rw t (no_call name cs (rw t at h))
]
  where
    suc_zero : (n : ℕ) → suc n ≡ 0 → ⊥
    suc_zero n h = omega arith

own-IsHarmless :
    (name : String) (go : List ToolCall) (rs : List ToolResult)
    → calls_tool name go ≡ false
    → All (λ (r : ToolResult). calls_tool r.name go ≡ true) rs
    → All (IsHarmless name) rs
own-IsHarmless name go [] h a = tt
own-IsHarmless name go (r ∷ rs) h (e, a) = (
  elim (Bool-cases (str_eq r.name name)) [
    | inl t ↦ absurd (clash (rw (sym ((eq_iff r.name name).0 t)) at h))
    | inr t ↦ rw t refl
  ],
  own-IsHarmless name go rs h a,
)
  where
    clash : calls_tool r.name go ≡ false → ⊥
    clash k = cc (e, k)

held-IsHarmless :
    (name : String) (cs : List ToolCall) → All (IsHarmless name) (map suppressed_tool_result cs)
held-IsHarmless name [] = tt
held-IsHarmless name (c ∷ cs) = (and_false (str_eq c.name name), held-IsHarmless name cs)
  where
    and_false : (b : Bool) → (b && false) ≡ false
    and_false b = ground arith

result_for-IsHarmless :
    (name id : String) (rs : List ToolResult) (cs : List ToolResult)
    → All (IsHarmless name) rs
    → All (IsHarmless name) cs
    → All (IsHarmless name) (and_result (result_for id rs) cs)
unfolding result_for
result_for-IsHarmless name id [] cs a b = b
result_for-IsHarmless name id (r ∷ rs) cs (h, a) b =
    by_later (result_for id rs) (result_for-IsHarmless name id rs cs a b)
  where
    here : (t : Bool) → All (IsHarmless name) (and_result (if t then some r else none) cs)
    here true = (h, b)
    here false = b

    by_later :
        (o : Option ToolResult)
        → All (IsHarmless name) (and_result o cs)
        → All (IsHarmless name) (
            and_result
              (elim o [
                | some later ↦ some later
                | none ↦ if str_eq r.call_id id then some r else none
              ])
              cs)
    by_later none k = here (str_eq r.call_id id)
    by_later (some later) k = k

merge-IsHarmless :
    (name : String) (cs : List ToolCall) (rs : List ToolResult)
    → All (IsHarmless name) rs
    → All (IsHarmless name) (merge_tool_results cs rs)
unfolding merge_tool_results
merge-IsHarmless name [] rs a = tt
merge-IsHarmless name (c ∷ cs) rs a =
    result_for-IsHarmless name c.id rs (merge_tool_results cs rs) a (merge-IsHarmless name cs rs a)

count_keeps :
    (name : String) (counts : Dict ℕ) (r : ToolResult)
    → IsHarmless name r
    → has_failed counts name ≡ true
    → has_failed (count_result counts r) name ≡ true
count_keeps name counts r h f =
    if-elim (λ (d : Dict ℕ). has_failed d name ≡ true) r.is_ok _ _
      (λ t.
        let u : str_eq r.name name ≡ false = ground (arith, h, t) in
        ap (λ o. leb 1 (or_else o 0)) (lookup-erase r.name name counts) ∙ rw u f)
      (λ _.
        ap (λ o. leb 1 (or_else o 0))
          (lookup-insert r.name name (or_else (lookup r.name counts) 0 + 1) counts)
        ∙ elim (Bool-cases (str_eq r.name name)) [
          | inl u ↦ rw u (positive (or_else (lookup r.name counts) 0))
          | inr u ↦ rw u f
        ])
  where
    positive : (n : ℕ) → leb 1 (n + 1) ≡ true
    positive n = ground arith

counts_keep :
    (name : String) (counts : Dict ℕ) (rs : List ToolResult)
    → All (IsHarmless name) rs
    → has_failed counts name ≡ true
    → has_failed (count_results counts rs) name ≡ true
unfolding count_results
counts_keep name counts [] a f = f
counts_keep name counts (r ∷ rs) (h, a) f =
    counts_keep name (count_result counts r) rs a (count_keeps name counts r h f)

module _ {World : Type 0} (engine : Engine World)
    (own : (calls : List ToolCall) (w : World)
      → All (λ (r : ToolResult). calls_tool r.name calls ≡ true) (engine.run_batch calls w).0)
    (name : String) where
  answer-IsHarmless :
      (go : List ToolCall) (w : World)
      → count_of name go ≡ 0
      → All (IsHarmless name) (dispatched engine go w).0
  answer-IsHarmless [] w h = tt
  answer-IsHarmless (c ∷ cs) w h =
      own-IsHarmless name (c ∷ cs) (engine.run_batch (c ∷ cs) w).0 (no_call name (c ∷ cs) h)
        (own (c ∷ cs) w)

  results-IsHarmless :
      (calls : List ToolCall) (s : LoopState World)
      → has_failed s.failure_counts name ≡ true
      → All (IsHarmless name) (results_of engine calls s)
  results-IsHarmless calls s f = merge-IsHarmless name calls _ (
      All-append (IsHarmless name) (answer_of engine calls s).0
        (map suppressed_tool_result (suppressed_calls s.failure_counts calls))
        (answer-IsHarmless (dispatched_calls s.failure_counts calls) s.world
          (not_dispatched s.failure_counts name f calls))
        (held-IsHarmless name (suppressed_calls s.failure_counts calls)))

  times_called-batch_of :
      (cs : List ToolCall) → times_called name (batch_of engine cs) ≡ count_of name cs
  times_called-batch_of [] = refl
  times_called-batch_of (c ∷ cs) = omega arith

  -- A state in which the tool has failed and been called this often.
  abbrev HasFailed : ℕ → LoopState World → Type 0
  HasFailed k s = (has_failed s.failure_counts name ≡ true) × (times_called name s.batches ≡ k)

  -- The loop ends, with the tool called this often.
  abbrev pub IsCalled : ℕ → Option (LoopEnd × LoopState World) → Type 0
  IsCalled k none = ⊥
  IsCalled k (some (_, t)) = times_called name t.batches ≡ k

  tool_round_keeps :
      (calls : List ToolCall) (s : LoopState World) (k : ℕ)
      → HasFailed k s
      → HasFailed k (tool_round engine calls s)
  tool_round_keeps calls s k (f, h) =
      let e = tool_round-rounds engine calls s in
      let go = dispatched_calls s.failure_counts calls in
      (
        ap (λ (z : ℕ × List (List ToolCall) × Dict ℕ). has_failed z.2 name) e
            ∙ counts_keep name s.failure_counts (results_of engine calls s)
                (results-IsHarmless calls s f) f,
        ap (λ (z : ℕ × List (List ToolCall) × Dict ℕ). times_called name z.1) e
            ∙ omega (
              arith,
              times_called-append name s.batches (batch_of engine go),
              times_called-batch_of go,
              not_dispatched s.failure_counts name f calls,
            ),
      )

  -- If the dispatcher answers only for tools that it was asked to call: from a state in which the
  -- tool has failed, the loop hands no further call of it to the dispatcher, whatever the model asks
  -- for, and ends, given fuel for one model call more than the tool rounds that are left.
  pub tool_loop-IsCalled :
      (fuel k : ℕ) (s : LoopState World)
      → engine.max_tool_iters < fuel + s.tool_iters
      → s.tool_iters ≤ engine.max_tool_iters
      → has_failed s.failure_counts name ≡ true
      → times_called name s.batches ≡ k
      → IsCalled k (tool_loop engine fuel s)
  unfolding tool_loop
  tool_loop-IsCalled zero k s q i f h = absurd (omega arith)
  tool_loop-IsCalled (suc fuel) k s q i f h =
      let ds = engine.stream s.tool_iters s.messages in
      let t = streamed engine ds in
      let s' = after_stream engine ds s in
      let e = after_stream-rounds engine ds s in
      let n = ap (λ (z : ℕ × List (List ToolCall) × Dict ℕ). z.0) e in
      let h' : times_called name s'.batches ≡ k =
        ap (λ (z : ℕ × List (List ToolCall) × Dict ℕ). times_called name z.1) e ∙ h in
      let f' : has_failed s'.failure_counts name ≡ true =
        ap (λ (z : ℕ × List (List ToolCall) × Dict ℕ). has_failed z.2 name) e ∙ f in
      let m =
        ap (λ (z : ℕ × List (List ToolCall) × Dict ℕ). z.0) (tool_round-rounds engine t.calls s') in
      let kept = tool_round_keeps t.calls s' k (f', h') in
      if-elim (IsCalled k) (not (wants_tools engine t)) _ _ (λ _. h')
        (λ _.
          if-elim (IsCalled k) engine.is_coordinated _ _ (λ _. h')
            (λ _.
              if-elim (IsCalled k) (leb engine.max_tool_iters s'.tool_iters) _ _ (λ _. h')
                (λ b.
                  tool_loop-IsCalled fuel k (tool_round engine t.calls s') (omega (arith, n, m))
                    (ground (arith, n, m)) kept.0 kept.1)))
