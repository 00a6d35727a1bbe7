-- ===== src/LongTasks/Jobs.antt =====
-- `AgentLongTaskStore` and `_emit_job_transition` of
-- eidolon_agent/infra/persistence/agent_runtime.py. The jobs table is a dictionary of rows by their
-- primary key; each operation is one transaction and takes the time it reads.
pub mod Lifecycle
pub mod Keyed
pub mod Receipts
pub mod Refines
pub mod Callback
pub mod Completed
pub mod Reads
use eidolon_agent.Base.{
  ℕ, ◌+◌, Bool, true, false, not, ◌&&◌, Option, none, some, List, [], ◌∷◌, ◌++◌, String, map, leb,
  ltb, if◌then◌else◌, str_eq, or_else, is_some, keep_if, take, find_first,
}
use eidolon_agent.Base.Dict.{Dict, lookup, insert}
use eidolon_agent.Base.Json.{Json}
use eidolon_agent.LongTasks.{
  LongTaskRecord, LongTaskStatus, accepted, queued, submitted, running, succeeded, failed,
  cancelled, timed_out, CallbackStatus, pending, delivered, is_terminal, is_retryable, is_pending,
}
use eidolon_agent.LongTasks.Rows.{
  JobRow, record_to_job_row, apply_record_to_job_row, job_row_to_record,
}
pub use eidolon_agent.LongTasks.Changes.{
  has_text, or_text, or_some, set_queued, set_submitted, RunRef, set_attached, set_progress,
  set_polled, Completion, set_completed, set_tts_summary, Failure, set_failed, set_retried,
  set_claimed,
}

-- What `_emit_job_transition` gives to `AgentAuditOutbox.build_row`, and its payload.
pub record Receipt : Type 0 where
  pub owner_id : String
  pub subject_id : String
  pub action : String
  pub trace_id : Option String
  pub outcome : String
  pub reason : Option String
  pub payload_provider : String
  pub payload_kind : String
  pub payload_status : LongTaskStatus
  pub payload_error_code : Option String

pub record JobStore : Type 0 where
  pub rows : Dict JobRow
  pub receipts : List Receipt

-- `_JOB_STATUS_EVENT.get(status)`
abbrev pub job_status_event : LongTaskStatus → Option String
job_status_event succeeded = some "job.succeeded"
job_status_event failed = some "job.failed"
job_status_event cancelled = some "job.cancelled"
job_status_event timed_out = some "job.timed_out"
job_status_event _ = none

abbrev pub same_status : LongTaskStatus → LongTaskStatus → Bool
same_status accepted accepted = true
same_status LongTaskStatus.created LongTaskStatus.created = true
same_status queued queued = true
same_status submitted submitted = true
same_status running running = true
same_status succeeded succeeded = true
same_status failed failed = true
same_status cancelled cancelled = true
same_status timed_out timed_out = true
same_status _ _ = false

abbrev pub receipt_of : String → LongTaskRecord → Receipt
receipt_of event_type after = record {
  owner_id = after.owner_id;
  subject_id = after.id;
  action = event_type;
  trace_id = after.trace_id;
  outcome = if is_retryable after.status then "failure" else "success";
  reason = after.error_code;
  payload_provider = after.provider;
  payload_kind = after.task_type;
  payload_status = after.status;
  payload_error_code = if has_text after.error_code then after.error_code else none;
}

-- With the event of the new status, if it has one, and whether the status is the one before.
unfoldable pub emit_event : Option String → Bool → LongTaskRecord → List Receipt → List Receipt
emit_event none _ after receipts = receipts
emit_event (some event_type) true after receipts = receipts
emit_event (some event_type) false after receipts = receipts ++ (receipt_of event_type after ∷ [])

-- The receipts behind which this transition puts its own, when the task ends by it.
unfoldable pub emit_job_transition : LongTaskStatus → LongTaskRecord → List Receipt → List Receipt
unfolding emit_event
emit_job_transition before after =
    emit_event (job_status_event after.status) (same_status after.status before) after

-- The record as `accept` stores it.
abbrev pub dated : LongTaskRecord → ℕ → LongTaskRecord
dated r now = record r {
  created_at = some (or_else r.created_at now);
  updated_at = some (or_else r.updated_at now);
}

unfoldable pub accept_row : LongTaskRecord → ℕ → JobStore → Option JobRow → JobStore
accept_row r now s none = record s { rows = insert r.id (record_to_job_row now r) s.rows }
accept_row r now s (some row) = record s {
  rows = insert r.id (apply_record_to_job_row now row r) s.rows;
}

unfoldable pub accept : LongTaskRecord → ℕ → JobStore → JobStore
unfolding accept_row
accept r now s = accept_row (dated r now) now s (lookup r.id s.rows)

abbrev pub record_at : Option JobRow → Option LongTaskRecord
record_at none = none
record_at (some row) = some (job_row_to_record row)

unfoldable pub get : String → JobStore → Option LongTaskRecord
get task_id s = record_at (lookup task_id s.rows)

unfoldable pub update_row :
    String
    → (LongTaskRecord → ℕ → LongTaskRecord)
    → ℕ
    → JobStore
    → Option JobRow
    → Option LongTaskRecord × JobStore
update_row task_id mutator now s none = (none, s)
update_row task_id mutator now s (some row) =
    let before = job_row_to_record row in
    let after = mutator before now in
    (
      some after,
      record {
        rows = insert task_id (apply_record_to_job_row now row after) s.rows;
        receipts = emit_job_transition before.status after s.receipts;
      },
    )

-- `_update`: the mutator's record goes into the row, with its receipt, in one transaction.
unfoldable pub update :
    String → (LongTaskRecord → ℕ → LongTaskRecord) → ℕ → JobStore → Option LongTaskRecord × JobStore
unfolding update_row
update task_id mutator now s = update_row task_id mutator now s (lookup task_id s.rows)

unfoldable pub mark_queued :
    String → String → Option ℕ → ℕ → JobStore → Option LongTaskRecord × JobStore
mark_queued task_id worker_id lease_until = update task_id (set_queued worker_id lease_until)

unfoldable pub mark_submitted : String → ℕ → JobStore → Option LongTaskRecord × JobStore
mark_submitted task_id = update task_id set_submitted

unfoldable pub attach_mementos_run :
    String → RunRef → ℕ → JobStore → Option LongTaskRecord × JobStore
attach_mementos_run task_id ref = update task_id (set_attached ref)

unfoldable pub append_progress :
    String → Json → Option String → Option ℕ → ℕ → JobStore → Option LongTaskRecord × JobStore
append_progress task_id event summary latest_seq =
    update task_id (set_progress event summary latest_seq)

unfoldable pub touch_poll :
    String → Option ℕ → Option String → ℕ → JobStore → Option LongTaskRecord × JobStore
touch_poll task_id latest_seq external_status =
    update task_id (set_polled latest_seq external_status)

unfoldable pub complete : String → Completion → ℕ → JobStore → Option LongTaskRecord × JobStore
complete task_id o = update task_id (set_completed o)

unfoldable pub set_result_tts_summary :
    String → String → ℕ → JobStore → Option LongTaskRecord × JobStore
set_result_tts_summary task_id summary = update task_id (set_tts_summary summary)

unfoldable pub mark_failed : String → Failure → ℕ → JobStore → Option LongTaskRecord × JobStore
mark_failed task_id f = update task_id (set_failed f)

unfoldable pub retry_from_admin : String → ℕ → JobStore → Option LongTaskRecord × JobStore
retry_from_admin task_id = update task_id set_retried

unfoldable pub claim_row : String → String → ℕ → JobStore → Option JobRow → Bool × JobStore
claim_row task_id subject now s none = (false, s)
claim_row task_id subject now s (some row) =
    let r = job_row_to_record row in
    let after = apply_record_to_job_row now row (set_claimed subject r now) in
    if is_pending r.callback_status
    then (true, record s { rows = insert task_id after s.rows })
    else (false, s)

unfoldable pub claim_callback_delivery : String → String → ℕ → JobStore → Bool × JobStore
unfolding claim_row
claim_callback_delivery task_id subject now s =
    claim_row task_id subject now s (lookup task_id s.rows)
