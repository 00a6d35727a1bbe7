-- ===== src/Turn/Suppressed.antt =====
-- A tool whose last result in a round is a failure is not called again in the turn.
use eidolon_agent.Base.{
  ℕ, ◌+◌, ◌<◌, ◌≡◌, refl, ap, ◌∙◌, Bool, true, false, Option, none, some, List, [], ◌∷◌, String,
  arith, leb, if◌then◌else◌, or_else, str_eq, Bool-cases, inl, inr, All,
}
use eidolon_agent.Base.Dict.{Dict, lookup, lookup-insert, lookup-erase}
use eidolon_agent.Tools.Dispatch.{ToolCall, ToolResult}
use eidolon_agent.Turn.{
  LoopState, Engine, has_failed, count_result, count_results, results_of, tool_round, tool_loop,
}
use eidolon_agent.Turn.Rounds.{tool_round-rounds}
use eidolon_agent.Turn.Failures.{calls_tool, times_called, IsCalled, tool_loop-IsCalled}

-- How the last of a tool's results went, if it has any.
abbrev or_earlier : Option Bool → Option Bool → Option Bool
or_earlier (some b) o = some b
or_earlier none o = o

abbrev pub last_ok : String → List ToolResult → Option Bool
last_ok name [] = none
last_ok name (r ∷ rs) =
    or_earlier (last_ok name rs) (if str_eq r.name name then some r.is_ok else none)

has_failed-other :
    (name : String) (counts : Dict ℕ) (r : ToolResult)
    → str_eq r.name name ≡ false
    → has_failed (count_result counts r) name ≡ has_failed counts name
has_failed-other name counts r u = elim (Bool-cases r.is_ok) [
  | inl t ↦ rw t (ap (λ o. leb 1 (or_else o 0)) (lookup-erase r.name name counts) ∙ rw u refl)
  | inr t ↦ rw t (
      ap (λ o. leb 1 (or_else o 0))
        (lookup-insert r.name name (or_else (lookup r.name counts) 0 + 1) counts)
      ∙ rw u refl)
]

has_failed-failure :
    (name : String) (counts : Dict ℕ) (r : ToolResult)
    → str_eq r.name name ≡ true
    → r.is_ok ≡ false
    → has_failed (count_result counts r) name ≡ true
has_failed-failure name counts r u t = rw t (
    ap (λ o. leb 1 (or_else o 0))
      (lookup-insert r.name name (or_else (lookup r.name counts) 0 + 1) counts)
    ∙ rw u (positive (or_else (lookup r.name counts) 0)))
  where
    positive : (n : ℕ) → leb 1 (n + 1) ≡ true
    positive n = ground arith

-- Results of other tools leave the count of this one.
count_results-other :
    (name : String) (counts : Dict ℕ) (rs : List ToolResult)
    → last_ok name rs ≡ none
    → has_failed (count_results counts rs) name ≡ has_failed counts name
unfolding count_results
count_results-other name counts [] h = refl
count_results-other name counts (r ∷ rs) h =
    by_last (last_ok name rs) (str_eq r.name name)
      (λ l. count_results-other name (count_result counts r) rs l) refl refl h
  where
    by_last :
        (o : Option Bool) (b : Bool)
        → (last_ok name rs ≡ none
            → has_failed (count_results (count_result counts r) rs) name
              ≡ has_failed (count_result counts r) name)
        → last_ok name rs ≡ o
        → str_eq r.name name ≡ b
        → or_earlier o (if b then some r.is_ok else none) ≡ none
        → has_failed (count_results (count_result counts r) rs) name ≡ has_failed counts name
    by_last (some x) b ih l u k = absurd (cc k)
    by_last none true ih l u k = absurd (cc k)
    by_last none false ih l u k = ih l ∙ has_failed-other name counts r u

count_results-failure :
    (name : String) (counts : Dict ℕ) (rs : List ToolResult)
    → last_ok name rs ≡ some false
    → has_failed (count_results counts rs) name ≡ true
unfolding count_results
count_results-failure name counts [] h = absurd (cc h)
count_results-failure name counts (r ∷ rs) h =
    by_last (last_ok name rs) (str_eq r.name name) r.is_ok
      (λ l. count_results-failure name (count_result counts r) rs l) refl refl refl h
  where
    by_last :
        (o : Option Bool) (b ok : Bool)
        → (last_ok name rs ≡ some false
            → has_failed (count_results (count_result counts r) rs) name ≡ true)
        → last_ok name rs ≡ o
        → str_eq r.name name ≡ b
        → r.is_ok ≡ ok
        → or_earlier o (if b then some ok else none) ≡ some false
        → has_failed (count_results (count_result counts r) rs) name ≡ true
    by_last (some true) b ok ih l u t k = absurd (cc k)
    by_last (some false) b ok ih l u t k = ih l
    by_last none false ok ih l u t k = absurd (cc k)
    by_last none true true ih l u t k = absurd (cc k)
    by_last none true false ih l u t k =
        count_results-other name (count_result counts r) rs l ∙ has_failed-failure name counts r u t

module _ {World : Type 0} (engine : Engine World)
    (own : (calls : List ToolCall) (w : World)
      → All (λ (r : ToolResult). calls_tool r.name calls ≡ true) (engine.run_batch calls w).0)
    (name : String) where
  -- If the dispatcher answers only for tools that it was asked to call, and the last of a tool's
  -- results in a round that the loop may make is a failure: the loop, from the state that the round
  -- leaves, hands no further call of the tool to the dispatcher, whatever the model asks for, and
  -- ends, given fuel for one model call more than the tool rounds that are left.
  pub failed_tool-IsCalled :
      (fuel : ℕ) (calls : List ToolCall) (s : LoopState World)
      → s.tool_iters < engine.max_tool_iters
      → engine.max_tool_iters < fuel + (s.tool_iters + 1)
      → last_ok name (results_of engine calls s) ≡ some false
      → IsCalled engine own name
          (times_called name (tool_round engine calls s).batches)
          (tool_loop engine fuel (tool_round engine calls s))
  failed_tool-IsCalled fuel calls s i q h =
      let e = tool_round-rounds engine calls s in
      let n = ap (λ (z : ℕ × List (List ToolCall) × Dict ℕ). z.0) e in
      tool_loop-IsCalled engine own name fuel _ (tool_round engine calls s) (omega (arith, n))
        (omega (arith, n))
        (ap (λ (z : ℕ × List (List ToolCall) × Dict ℕ). has_failed z.2 name) e
          ∙ count_results-failure name s.failure_counts (results_of engine calls s) h)
        refl
