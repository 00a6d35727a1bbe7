-- ===== src/LongTasks/Events.antt =====
-- What the worker reads of the sidecar's answers: the helpers at the end of
-- eidolon_agent/infra/long_tasks/mementos.py. Python's `str`, `int` and the truth of a float are
-- parameters; a sequence number is a natural number.
use eidolon_agent.Base.{
  ℕ, Bool, true, false, not, ◌||◌, Option, none, some, List, [], ◌∷◌, String, ltb, ◌==◌,
  if◌then◌else◌, str_eq, str_mem, length, drop, split_on, strip, join, or_else,
}
use Prim.Native.String.{◌++◌}
use eidolon_agent.Base.Json.{
  Json, null, bool, int, negative_int, float, str, array, object, Items, no_items, item, Fields,
  no_fields, lookup_field,
}
use eidolon_agent.LongTasks.{LongTaskRecord}
use eidolon_agent.LongTasks.Jobs.{or_some}

-- What an exception says: its type's name and `str(exc)`.
pub record Exn : Type 0 where
  pub exception_type : String
  pub exception_text : String

-- `no_get` is the AttributeError of a value that has no `get`.
pub record Python : Type 0 where
  pub str_of : Json → String
  pub int_of : Json → Option ℕ
  pub float_is_zero : String → Bool
  pub no_get : Exn

-- What a call of other code comes to.
pub data Answer (A : Type 0) : Type 0 where
  answered : A → Answer A
  raised : Exn → Answer A

-- `d.get(k)`
abbrev pub field_of : String → Fields → Json
field_of k fs = or_else (lookup_field k fs) null

abbrev has_items : Items → Bool
has_items no_items = false
has_items (item _ _) = true

abbrev has_fields : Fields → Bool
has_fields no_fields = false
has_fields _ = true

module _ (python : Python) where
  unfoldable pub truthy : Json → Bool
  truthy null = false
  truthy (bool b) = b
  truthy (int n) = not (n == 0)
  truthy (negative_int n) = true
  truthy (float t) = not (python.float_is_zero t)
  truthy (str t) = not (str_eq t "")
  truthy (array xs) = has_items xs
  truthy (object fs) = has_fields fs

  abbrev py_str : Json → String
  py_str (str t) = t
  py_str j = python.str_of j

  -- `str(d.get(k) or "")`
  abbrev pub text_at : String → Fields → String
  text_at k fs = if truthy (field_of k fs) then py_str (field_of k fs) else ""

  -- `str(event.get("event_type") or event.get("type") or "")`
  unfoldable pub event_type : Fields → String
  unfolding truthy
  event_type fs =
      if truthy (field_of "event_type" fs)
      then py_str (field_of "event_type" fs)
      else text_at "type" fs

  abbrev pub is_success : String → Bool
  is_success t = str_mem t ("RUN_END" ∷ "RUN_FINISHED" ∷ [])

  abbrev pub is_failure : String → Bool
  is_failure t = str_mem t ("RUN_FAILED" ∷ "RUN_CANCELLED" ∷ "ERROR" ∷ [])

  -- `_terminal_event`: the last event that is terminal.
  unfoldable pub terminal_event : List Fields → Option Fields
  unfolding event_type
  terminal_event [] = none
  terminal_event (e ∷ es) =
      let later = terminal_event es in
      let t = event_type e in or_some later (if is_success t || is_failure t then some e else none)

  abbrev max_seq : Option ℕ → Option ℕ → Option ℕ
  max_seq none b = b
  max_seq (some a) none = some a
  max_seq (some a) (some b) = if ltb a b then some b else some a

  -- `_latest_seq`
  unfoldable pub latest_seq : List Fields → Option ℕ
  latest_seq [] = none
  latest_seq (e ∷ es) =
      max_seq (python.int_of (field_of "_sse_id" e))
        (max_seq (python.int_of (field_of "seq" e)) (latest_seq es))

  -- The items of a list that all have `get`.
  abbrev dicts_of : Items → Answer (List Fields)
  dicts_of no_items = answered []
  dicts_of (item (object fs) xs) = elim (dicts_of xs) [
    | answered es ↦ answered (fs ∷ es)
    | raised e ↦ raised e
  ]
  dicts_of (item _ xs) = raised python.no_get

  abbrev events_of : Json → Answer (List Fields)
  events_of (array xs) = dicts_of xs
  events_of j = raised python.no_get

  -- `list(messages.get("messages") or [])`, for events that are read as dictionaries then.
  unfoldable pub read_events : Fields → Answer (List Fields)
  unfolding truthy
  read_events messages =
      if truthy (field_of "messages" messages)
      then events_of (field_of "messages" messages)
      else answered []

  abbrev content_in : Json → String
  content_in (object fs) = text_at "content" fs
  content_in _ = ""

  -- `content`, of the payload if that is a dictionary
  unfoldable pub content_of : Fields → String
  unfolding truthy
  content_of terminal = content_in (field_of "payload" terminal)

  abbrev id_in : Json → Answer String
  id_in (object fs) = answered (text_at "id" fs)
  id_in _ = raised python.no_get

  -- `str((session.get("session") or {}).get("id") or "")`
  unfoldable pub session_id_of : Fields → Answer String
  unfolding truthy
  session_id_of session =
      if truthy (field_of "session" session)
      then id_in (field_of "session" session)
      else answered ""

-- `_prompt_for_record`
unfoldable pub prompt_for_record : LongTaskRecord → String
prompt_for_record r =
    r.task
    ++ (if str_eq r.expected_output "" then "" else "\n期望输出：" ++ r.expected_output)
    ++ (if str_eq r.context_summary "" then "" else "\n上下文摘要：" ++ r.context_summary)

abbrev without_last : List String → List String
without_last [] = []
without_last (x ∷ []) = []
without_last (x ∷ y ∷ ys) = x ∷ without_last (y ∷ ys)

abbrev device_in : List String → Option String
device_in parts =
    let device_id = strip (join ":" (without_last (drop 1 parts))) in
    if ltb (length parts) 3 || str_eq device_id "" then none else some device_id

-- `_device_id_from_conversation_id`
unfoldable pub device_id_from_conversation_id : Option String → Option String
unfolding strip
device_id_from_conversation_id none = none
device_id_from_conversation_id (some conversation_id) =
    if str_eq conversation_id "" then none else device_in (split_on ":" conversation_id)
