-- ===== src/LongTasks.antt =====
-- The records of long tasks, of eidolon_agent/core/types/long_task.py. A time is its microseconds,
-- a dictionary of JSON values the text of its encoding or a Json value.
pub mod Rows
pub mod Changes
pub mod Jobs
pub mod Queries
pub mod Events
pub mod Reports
pub mod Worker
pub mod Admin
mod Tests
use eidolon_agent.Base.{ℕ, Bool, true, false, Option, List, String}
use eidolon_agent.Base.Json.{Json}

-- `LongTaskStatus`, a member standing for its value.
pub data LongTaskStatus : Type 0 where
  accepted created queued submitted running succeeded failed cancelled timed_out : LongTaskStatus

pub data CallbackStatus : Type 0 where
  pending delivered callback_failed : CallbackStatus

-- `TERMINAL_LONG_TASK_STATUSES`
abbrev pub is_terminal : LongTaskStatus → Bool
is_terminal succeeded = true
is_terminal failed = true
is_terminal cancelled = true
is_terminal timed_out = true
is_terminal _ = false

-- `RETRYABLE_LONG_TASK_STATUSES`
abbrev pub is_retryable : LongTaskStatus → Bool
is_retryable failed = true
is_retryable cancelled = true
is_retryable timed_out = true
is_retryable _ = false

abbrev pub is_pending : CallbackStatus → Bool
is_pending pending = true
is_pending _ = false

pub record LongTaskRecord : Type 0 where
  pub id : String
  pub provider : String
  pub status : LongTaskStatus
  pub owner_id : String
  pub companion_id : String
  pub conversation_id : Option String
  pub turn_id : String
  pub session_id : Option String
  pub trace_id : Option String
  pub session_key : String
  pub task_date : String
  pub task_key : String
  pub task : String
  pub user_text : String
  pub memory_realm_id : Option String
  pub genome_id : Option String
  pub device_id : Option String
  pub tool_call_id : Option String
  pub task_type : String
  pub urgency : String
  pub expected_output : String
  pub context_summary : String
  pub tool_budget : ℕ
  pub expected_duration_hint : String
  pub attachments : List Json
  pub request_payload : Json
  pub mementos_session_id : Option String
  pub mementos_conversation_id : Option String
  pub mementos_run_id : Option String
  pub mementos_latest_seq : Option ℕ
  pub mementos_workspace_dir : Option String
  pub progress_summary : Option String
  pub progress_events : List Json
  pub result_text : Option String
  pub result_tts_summary : Option String
  pub result_payload : Option Json
  pub artifact_paths : List String
  pub error_code : Option String
  pub error_message : Option String
  pub error_payload : Option Json
  pub callback_subject : Option String
  pub callback_status : CallbackStatus
  pub callback_attempts : ℕ
  pub callback_last_error : Option String
  pub callback_delivered_at : Option ℕ
  pub worker_id : Option String
  pub lease_until : Option ℕ
  pub attempt_count : ℕ
  pub next_retry_at : Option ℕ
  pub external_status : Option String
  pub created_at : Option ℕ
  pub updated_at : Option ℕ
  pub started_at : Option ℕ
  pub submitted_at : Option ℕ
  pub last_progress_at : Option ℕ
  pub last_polled_at : Option ℕ
  pub completed_at : Option ℕ
