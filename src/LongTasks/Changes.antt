-- ===== src/LongTasks/Changes.antt =====
-- What each operation of `AgentLongTaskStore`, of eidolon_agent/infra/persistence/agent_runtime.py,
-- makes of a record at a time.
use eidolon_agent.Base.{
  ℕ, ◌+◌, Bool, false, not, Option, none, some, List, [], ◌∷◌, ◌++◌, String, if◌then◌else◌, str_eq,
  or_else,
}
use eidolon_agent.Base.Json.{Json}
use eidolon_agent.LongTasks.{
  LongTaskRecord, LongTaskStatus, accepted, queued, submitted, running, succeeded, delivered,
  is_retryable,
}

-- Python's truth of an optional text, and `a or b` for two of them.
abbrev pub has_text : Option String → Bool
has_text none = false
has_text (some t) = not (str_eq t "")

abbrev pub or_text : Option String → Option String → Option String
or_text a b = if has_text a then a else b

abbrev pub or_some : {A : Type 0} → Option A → Option A → Option A
or_some none b = b
or_some (some a) b = some a

abbrev pub set_queued : String → Option ℕ → LongTaskRecord → ℕ → LongTaskRecord
set_queued worker_id lease_until r now = record r {
  status = queued;
  worker_id = some worker_id;
  lease_until = lease_until;
  attempt_count = r.attempt_count + 1;
  submitted_at = some (or_else r.submitted_at now);
  updated_at = some now;
}

abbrev pub set_submitted : LongTaskRecord → ℕ → LongTaskRecord
set_submitted r now = record r {
  status = submitted;
  submitted_at = some (or_else r.submitted_at now);
  updated_at = some now;
}

-- The keyword arguments of `attach_mementos_run`.
pub record RunRef : Type 0 where
  pub ref_session_id : Option String
  pub ref_conversation_id : Option String
  pub ref_run_id : Option String
  pub ref_latest_seq : Option ℕ
  pub ref_workspace_dir : Option String
  pub ref_external_status : Option String

abbrev pub set_attached : RunRef → LongTaskRecord → ℕ → LongTaskRecord
set_attached ref r now = record r {
  status = running;
  started_at = some (or_else r.started_at now);
  last_progress_at = some now;
  updated_at = some now;
  mementos_session_id = or_text ref.ref_session_id r.mementos_session_id;
  mementos_conversation_id = or_text ref.ref_conversation_id r.mementos_conversation_id;
  mementos_run_id = or_text ref.ref_run_id r.mementos_run_id;
  mementos_latest_seq = or_some ref.ref_latest_seq r.mementos_latest_seq;
  mementos_workspace_dir = or_text ref.ref_workspace_dir r.mementos_workspace_dir;
  external_status = or_text ref.ref_external_status r.external_status;
}

abbrev pub set_progress : Json → Option String → Option ℕ → LongTaskRecord → ℕ → LongTaskRecord
set_progress event summary latest_seq r now = record r {
  status = running;
  started_at = some (or_else r.started_at now);
  last_progress_at = some now;
  last_polled_at = some now;
  updated_at = some now;
  progress_events = r.progress_events ++ (event ∷ []);
  progress_summary = or_some summary r.progress_summary;
  mementos_latest_seq = or_some latest_seq r.mementos_latest_seq;
}

abbrev pub set_polled : Option ℕ → Option String → LongTaskRecord → ℕ → LongTaskRecord
set_polled latest_seq external_status r now = record r {
  last_polled_at = some now;
  updated_at = some now;
  mementos_latest_seq = or_some latest_seq r.mementos_latest_seq;
  external_status = or_text external_status r.external_status;
}

-- The keyword arguments of `complete`.
pub record Completion : Type 0 where
  pub text : Option String
  pub payload : Option Json
  pub artifacts : Option (List String)

abbrev pub set_completed : Completion → LongTaskRecord → ℕ → LongTaskRecord
set_completed o r now = record r {
  status = succeeded;
  external_status = some "succeeded";
  result_text = o.text;
  result_payload = o.payload;
  artifact_paths = or_else o.artifacts [];
  completed_at = some now;
  last_polled_at = some now;
  updated_at = some now;
}

abbrev pub set_tts_summary : String → LongTaskRecord → ℕ → LongTaskRecord
set_tts_summary summary r now = record r {
  result_tts_summary = some summary;
  updated_at = some now;
}

-- The keyword arguments of `mark_failed`.
pub record Failure : Type 0 where
  pub code : String
  pub message : String
  pub details : Option Json
  pub end : LongTaskStatus

abbrev pub set_failed : Failure → LongTaskRecord → ℕ → LongTaskRecord
set_failed f r now = record r {
  status = f.end;
  error_code = some f.code;
  error_message = some f.message;
  error_payload = f.details;
  completed_at = or_some r.completed_at (if is_retryable f.end then some now else none);
  updated_at = some now;
}

abbrev pub set_retried : LongTaskRecord → ℕ → LongTaskRecord
set_retried r now = record r {
  status = accepted;
  external_status = none;
  progress_summary = none;
  progress_events = [];
  result_text = none;
  result_tts_summary = none;
  result_payload = none;
  artifact_paths = [];
  error_code = none;
  error_message = none;
  error_payload = none;
  worker_id = none;
  lease_until = none;
  next_retry_at = none;
  completed_at = none;
  updated_at = some now;
}

abbrev pub set_claimed : String → LongTaskRecord → ℕ → LongTaskRecord
set_claimed subject r now = record r {
  callback_status = delivered;
  callback_subject = some subject;
  callback_attempts = r.callback_attempts + 1;
  callback_delivered_at = some now;
  updated_at = some now;
}
