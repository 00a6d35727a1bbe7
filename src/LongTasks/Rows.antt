-- ===== src/LongTasks/Rows.antt =====
-- The rows of the jobs table and their records: `_record_to_job_row`, `_apply_record_to_job_row` and
-- `_job_row_to_record` of eidolon_agent/infra/persistence/agent_runtime.py. The column
-- `input_json` holds the record itself: its encoding to JSON and back, `_record_to_json` and
-- `_record_from_json`, is not modelled.
use eidolon_agent.Base.{ℕ, Option, none, some, List, String, or_else}
use eidolon_agent.Base.Json.{Json}
use eidolon_agent.LongTasks.{LongTaskRecord, LongTaskStatus, CallbackStatus}

-- `_provider_ref_json`
pub record ProviderRef : Type 0 where
  pub mementos_session_id : Option String
  pub mementos_conversation_id : Option String
  pub mementos_run_id : Option String
  pub mementos_latest_seq : Option ℕ
  pub mementos_workspace_dir : Option String
  pub worker_id : Option String
  pub lease_until : Option ℕ
  pub attempt_count : ℕ
  pub next_retry_at : Option ℕ
  pub external_status : Option String

abbrev pub provider_ref_json : LongTaskRecord → ProviderRef
provider_ref_json r = record {
  mementos_session_id = r.mementos_session_id;
  mementos_conversation_id = r.mementos_conversation_id;
  mementos_run_id = r.mementos_run_id;
  mementos_latest_seq = r.mementos_latest_seq;
  mementos_workspace_dir = r.mementos_workspace_dir;
  worker_id = r.worker_id;
  lease_until = r.lease_until;
  attempt_count = r.attempt_count;
  next_retry_at = r.next_retry_at;
  external_status = r.external_status;
}

-- `_progress_json`
pub record Progress : Type 0 where
  pub progress_summary : Option String
  pub progress_events : List Json
  pub last_progress_at : Option ℕ
  pub last_polled_at : Option ℕ

abbrev pub progress_json : LongTaskRecord → Progress
progress_json r = record {
  progress_summary = r.progress_summary;
  progress_events = r.progress_events;
  last_progress_at = r.last_progress_at;
  last_polled_at = r.last_polled_at;
}

-- `_result_json`
pub record JobResult : Type 0 where
  pub result_text : Option String
  pub result_tts_summary : Option String
  pub result_payload : Option Json
  pub artifact_paths : List String
  pub callback_subject : Option String
  pub callback_status : CallbackStatus
  pub callback_attempts : ℕ
  pub callback_last_error : Option String
  pub callback_delivered_at : Option ℕ

abbrev pub result_json : LongTaskRecord → JobResult
result_json r = record {
  result_text = r.result_text;
  result_tts_summary = r.result_tts_summary;
  result_payload = r.result_payload;
  artifact_paths = r.artifact_paths;
  callback_subject = r.callback_subject;
  callback_status = r.callback_status;
  callback_attempts = r.callback_attempts;
  callback_last_error = r.callback_last_error;
  callback_delivered_at = r.callback_delivered_at;
}

-- `_error_json`
pub record JobError : Type 0 where
  pub error_code : Option String
  pub error_message : Option String
  pub error_payload : Option Json

abbrev pub error_json : LongTaskRecord → JobError
error_json r = record {
  error_code = r.error_code;
  error_message = r.error_message;
  error_payload = r.error_payload;
}

pub record JobRow : Type 0 where
  pub job_id : String
  pub owner_id : String
  pub companion_id : String
  pub conversation_id : Option String
  pub turn_id : String
  pub provider : String
  pub kind : String
  pub status : LongTaskStatus
  pub input_json : LongTaskRecord
  pub provider_ref : ProviderRef
  pub progress : Progress
  pub result : JobResult
  pub error : JobError
  pub created_at : ℕ
  pub updated_at : ℕ
  pub completed_at : Option ℕ

unfoldable pub record_to_job_row : ℕ → LongTaskRecord → JobRow
record_to_job_row now r = record {
  job_id = r.id;
  owner_id = r.owner_id;
  companion_id = r.companion_id;
  conversation_id = r.conversation_id;
  turn_id = r.turn_id;
  provider = r.provider;
  kind = r.task_type;
  status = r.status;
  input_json = r;
  provider_ref = provider_ref_json r;
  progress = progress_json r;
  result = result_json r;
  error = error_json r;
  created_at = or_else r.created_at now;
  updated_at = or_else r.updated_at now;
  completed_at = r.completed_at;
}

unfoldable pub apply_record_to_job_row : ℕ → JobRow → LongTaskRecord → JobRow
apply_record_to_job_row now row r = record row {
  owner_id = r.owner_id;
  companion_id = r.companion_id;
  conversation_id = r.conversation_id;
  turn_id = r.turn_id;
  provider = r.provider;
  kind = r.task_type;
  status = r.status;
  input_json = r;
  provider_ref = provider_ref_json r;
  progress = progress_json r;
  result = result_json r;
  error = error_json r;
  updated_at = or_else r.updated_at now;
  completed_at = r.completed_at;
}

abbrev pub or_option : Option ℕ → Option ℕ → Option ℕ
or_option none b = b
or_option (some a) b = some a

unfoldable pub job_row_to_record : JobRow → LongTaskRecord
job_row_to_record row =
    let payload = row.input_json in
    record payload {
      id = row.job_id;
      provider = row.provider;
      status = row.status;
      owner_id = row.owner_id;
      companion_id = row.companion_id;
      conversation_id = row.conversation_id;
      turn_id = row.turn_id;
      task_type = row.kind;
      created_at = or_option payload.created_at (some row.created_at);
      updated_at = or_option payload.updated_at (some row.updated_at);
      completed_at = or_option payload.completed_at row.completed_at;
    }
