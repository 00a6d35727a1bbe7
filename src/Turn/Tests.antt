-- ===== src/Turn/Tests.antt =====
-- Turns with a model that calls one failing tool over and over.
use eidolon_agent.Base.{
  ℕ, suc, ◌≡◌, refl, true, false, Option, none, some, List, [], ◌∷◌, map, arith, eq_refl, All,
}
use eidolon_agent.Base.Dict.{Dict, lookup, insert}
use eidolon_agent.Base.Json.{null}
use eidolon_agent.Tools.Dispatch.{ToolCall, ToolResult}
use eidolon_agent.Turn.{
  Delta, tool_calls, LoopState, Engine, emit, on_delta, on_deltas, on_results, count_results,
  result_for, merge_tool_results, tool_round, tool_loop, finish_turn, run_turn,
}
use eidolon_agent.Turn.Rounds.{IsBounded, tool_loop-IsBounded}
use eidolon_agent.Turn.Numbered.{IsClosed, run_turn-IsClosed}
use eidolon_agent.Turn.Failures.{calls_tool, times_called, IsCalled}
use eidolon_agent.Turn.Suppressed.{failed_tool-IsCalled}

abbrev call : ToolCall
call = record { id = "1"; name = "search"; arguments = null }

abbrev failure_of : ToolCall → ToolResult
failure_of c = record {
  call_id = c.id;
  name = c.name;
  is_ok = false;
  content = null;
  error_code = some "down";
  idempotent_cache = false;
}

abbrev asks : Delta
asks = record {
  activity = none;
  text_delta = some "let me see";
  tool_call = some call;
  usage = none;
  finish = some tool_calls;
}

-- The world is the number of batches that the dispatcher has run.
abbrev engine : Engine ℕ
engine = record {
  stream = λ _ _. asks ∷ [];
  run_batch = λ calls n. (map failure_of calls, suc n);
  hint_is_due = λ _. false;
  slow_hint_text = "one moment";
  coworker_phrase = "passed on";
  content_text = λ _. "";
  max_tool_iters = 3;
  is_coordinated = false;
}

abbrev start_with : Dict ℕ → LoopState ℕ
start_with counts = record {
  world = 0;
  next_seq = 0;
  events = [];
  texts = [];
  announced = [];
  hint_emitted = false;
  tokens_in = 0;
  tokens_out = 0;
  output_truncated = false;
  failure_counts = counts;
  suppressed_count = 0;
  tool_iters = 0;
  messages = [];
  batches = [];
}

abbrev world_of : Option (LoopState ℕ) → ℕ
world_of none = 0
world_of (some s) = s.world

abbrev suppressed_of : Option (LoopState ℕ) → ℕ
suppressed_of none = 0
suppressed_of (some s) = s.suppressed_count

-- Three rounds, of which only the first one reaches the dispatcher.
runs_once : world_of (run_turn engine (λ _. none) 4 (start_with [])) ≡ 1
unfolding tool_loop on_deltas on_delta emit tool_round on_results count_results merge_tool_results
    result_for finish_turn lookup insert
runs_once = refl

two_suppressed : suppressed_of (run_turn engine (λ _. none) 4 (start_with [])) ≡ 2
unfolding tool_loop on_deltas on_delta emit tool_round on_results count_results merge_tool_results
    result_for finish_turn lookup insert
two_suppressed = refl

tool_loop-IsBounded_example : IsBounded engine (tool_loop engine 4 (start_with []))
tool_loop-IsBounded_example =
    tool_loop-IsBounded engine 4 (start_with []) (omega arith) (omega arith) (omega arith)

run_turn-IsClosed_example : IsClosed engine (run_turn engine (λ _. none) 4 (start_with []))
run_turn-IsClosed_example =
    run_turn-IsClosed engine (λ _. none) 4 (start_with []) (omega arith) refl refl refl

one_more :
    (c : ToolCall) (cs : List ToolCall) (rs : List ToolResult)
    → All (λ (r : ToolResult). calls_tool r.name cs ≡ true) rs
    → All (λ (r : ToolResult). calls_tool r.name (c ∷ cs) ≡ true) rs
one_more c cs [] a = tt
one_more c cs (r ∷ rs) (h, a) = (rw h (ground arith), one_more c cs rs a)

answers_own :
    (calls : List ToolCall) (n : ℕ)
    → All (λ (r : ToolResult). calls_tool r.name calls ≡ true) (engine.run_batch calls n).0
answers_own [] n = tt
answers_own (c ∷ cs) n =
    (rw (eq_refl c.name) refl, one_more c cs (map failure_of cs) (answers_own cs n))

-- The tool fails in the first round, and its second call does not reach the dispatcher.
failed_tool-IsCalled_example :
    IsCalled engine answers_own "search"
      (times_called "search" (tool_round engine (call ∷ []) (start_with [])).batches)
      (tool_loop engine 3 (tool_round engine (call ∷ []) (start_with [])))
unfolding merge_tool_results result_for lookup
failed_tool-IsCalled_example =
    failed_tool-IsCalled engine answers_own "search" 3 (call ∷ []) (start_with []) (omega arith)
      (omega arith) refl
