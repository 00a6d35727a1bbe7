-- ===== src/Turn/State.antt =====
-- The state of a turn's model and tool loop, of eidolon_agent/domain/agent/turn.py, and what the loop
-- does with the calls and the results of a round.
use eidolon_agent.Base.{
  ℕ, suc, ◌+◌, Bool, true, false, not, ◌||◌, Option, none, some, List, [], ◌∷◌, String, leb, ltb,
  if◌then◌else◌, or_else, str_eq, keep_if,
}
use eidolon_agent.Base.Dict.{Dict, lookup, insert, erase}
use eidolon_agent.Base.Json.{
  Json, null, bool, int, str, array, no_items, object, no_fields, lookup_field,
}
use eidolon_agent.Tools.Dispatch.{ToolCall, ToolResult}

pub data FinishReason : Type 0 where
  stop tool_calls length other_finish : FinishReason

-- What a delta of the model's stream carries.
pub record Delta : Type 0 where
  pub activity : Option String
  pub text_delta : Option String
  pub tool_call : Option ToolCall
  pub usage : Option (ℕ × ℕ)
  pub finish : Option FinishReason

pub data EventKind : Type 0 where
  progress : String → EventKind
  delta : String → EventKind
  hint : String → EventKind
  called : ToolCall → EventKind
  used : ℕ → ℕ → EventKind
  answered : ToolResult → EventKind
  handoff : Json → Json → EventKind
  error : String → String → EventKind
  done : EventKind

pub record TurnEvent : Type 0 where
  pub seq : ℕ
  pub kind : EventKind

-- The messages that a tool round appends.
pub data LoopMessage : Type 0 where
  context_message : String → LoopMessage
  assistant_calls : List ToolCall → LoopMessage
  tool_message : String → String → String → LoopMessage

-- The variables of `run` that the loop changes, with the batches it has handed to the dispatcher.
pub record LoopState (World : Type 0) : Type 0 where
  pub world : World
  pub next_seq : ℕ
  pub events : List TurnEvent
  pub texts : List String
  pub announced : List String
  pub hint_emitted : Bool
  pub tokens_in : ℕ
  pub tokens_out : ℕ
  pub output_truncated : Bool
  pub failure_counts : Dict ℕ
  pub suppressed_count : ℕ
  pub tool_iters : ℕ
  pub messages : List LoopMessage
  pub batches : List (List ToolCall)

-- What one pass over the model's stream collects.
pub record Streamed : Type 0 where
  pub calls : List ToolCall
  pub reason : Option FinishReason

-- The other code, and what the turn and the policies say.
pub record Engine (World : Type 0) : Type 0 where
  pub stream : ℕ → List LoopMessage → List Delta
  pub run_batch : List ToolCall → World → List ToolResult × World
  pub hint_is_due : List ToolCall → Bool
  pub slow_hint_text : String
  pub coworker_phrase : String
  pub content_text : ToolResult → String
  pub max_tool_iters : ℕ
  pub is_coordinated : Bool

-- `DELEGATE_TO_COWORKER_TOOL`
abbrev pub coworker_tool : String
coworker_tool = "delegate_to_coworker"

-- `_suppressed_tool_result`
abbrev pub suppressed_tool_result : ToolCall → ToolResult
suppressed_tool_result call = record {
  call_id = call.id;
  name = call.name;
  is_ok = false;
  content = null;
  error_code = some "tool_repeat_suppressed";
  idempotent_cache = false;
}

-- `by_call_id.get(id)`: of results with one id the last one counts.
unfoldable pub result_for : String → List ToolResult → Option ToolResult
result_for id [] = none
result_for id (r ∷ rs) = elim (result_for id rs) [
  | some later ↦ some later
  | none ↦ if str_eq r.call_id id then some r else none
]

-- `_merge_tool_results`
abbrev pub and_result : Option ToolResult → List ToolResult → List ToolResult
and_result none rs = rs
and_result (some r) rs = r ∷ rs

unfoldable pub merge_tool_results : List ToolCall → List ToolResult → List ToolResult
unfolding result_for
merge_tool_results [] results = []
merge_tool_results (c ∷ cs) results =
    and_result (result_for c.id results) (merge_tool_results cs results)

-- `_MAX_FAILURES_PER_TOOL_PER_TURN`
abbrev max_failures : ℕ
max_failures = 1

abbrev pub has_failed : Dict ℕ → String → Bool
has_failed counts name = leb max_failures (or_else (lookup name counts) 0)

-- The count after the results of a round.
abbrev pub count_result : Dict ℕ → ToolResult → Dict ℕ
count_result counts r =
    if r.is_ok
    then erase r.name counts
    else insert r.name (or_else (lookup r.name counts) 0 + 1) counts

unfoldable pub count_results : Dict ℕ → List ToolResult → Dict ℕ
count_results counts [] = counts
count_results counts (r ∷ rs) = count_results (count_result counts r) rs

-- The calls that go to the dispatcher, and the results of those that do not.
abbrev pub dispatched_calls : Dict ℕ → List ToolCall → List ToolCall
dispatched_calls counts = keep_if (λ c. not (has_failed counts c.name))

abbrev pub suppressed_calls : Dict ℕ → List ToolCall → List ToolCall
suppressed_calls counts = keep_if (λ c. has_failed counts c.name)

-- Python's truth of a JSON value that `content.get` gives; a float counts as true.
abbrev is_given : Json → Bool
is_given null = false
is_given (bool b) = b
is_given (int n) = ltb 0 n
is_given (str t) = not (str_eq t "")
is_given (array no_items) = false
is_given (object no_fields) = false
is_given _ = true

abbrev content_field : String → Json → Json
content_field k (object fs) = or_else (lookup_field k fs) null
content_field k _ = null

-- `_handoff_from_tool_result`
abbrev pub handoff_from_tool_result : ToolResult → Option EventKind
handoff_from_tool_result r =
    let task_id = content_field "task_id" r.content in
    let progress_subject = content_field "progress_subject" r.content in
    if not (str_eq r.name coworker_tool) || not r.is_ok
    then none
    else (if not (is_given task_id) || not (is_given progress_subject)
        then none
        else some (handoff task_id progress_subject))

abbrev pub count_calls : List ToolCall → ℕ
count_calls [] = 0
count_calls (_ ∷ cs) = suc (count_calls cs)
