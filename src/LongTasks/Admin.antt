-- ===== src/LongTasks/Admin.antt =====
-- The routes that cancel and retry a long task, of
-- eidolon_agent/app/admin/routers/long_tasks.py. An answer stands by its record, an HTTPException
-- by its status code; each call of the store takes the time it reads.
pub mod Cancel
pub mod Retry
use eidolon_agent.Base.{
  ℕ, Bool, true, false, not, ◌&&◌, Option, none, some, List, String, if◌then◌else◌, or_else, str_eq,
}
use eidolon_agent.LongTasks.{LongTaskRecord, LongTaskStatus, cancelled, is_terminal, is_retryable}
use eidolon_agent.LongTasks.Jobs.{
  JobStore, Failure, get, mark_failed, retry_from_admin, same_status,
}
use eidolon_agent.LongTasks.Worker.{Queued, Submitted, enqueued, queue_full, submit}

-- The codes of the answers, with the status that a conflict names.
pub data Reply : Type 0 where
  detail : LongTaskRecord → Reply
  not_found : Reply
  conflict : LongTaskStatus → Reply
  no_worker : Reply
  queue_is_full : Reply

abbrev pub cancellation : Failure
cancellation = record {
  code = "admin_cancelled";
  message = "Cancelled by Admin";
  details = none;
  end = cancelled;
}

-- The answer of `mark_failed` or of another read.
abbrev pub detail_or_404 : Option LongTaskRecord → Reply
detail_or_404 none = not_found
detail_or_404 (some r) = detail r

abbrev pub cancel_current :
    String → String → ℕ → Option LongTaskRecord → JobStore → Reply × JobStore
cancel_current task_id owner_id now none s = (not_found, s)
cancel_current task_id owner_id now (some current) s =
    let (marked, s') = mark_failed task_id cancellation now s in
    if not (str_eq current.owner_id owner_id)
    then (not_found, s)
    else (if same_status current.status cancelled
        then (detail current, s)
        else (if is_terminal current.status
            then (conflict current.status, s)
            else (detail_or_404 marked, s')))

unfoldable pub cancel_long_task : String → String → ℕ → JobStore → Reply × JobStore
cancel_long_task task_id owner_id now s = cancel_current task_id owner_id now (get task_id s) s

-- The times that a retry reads: of the reset, of `accept` and of a failure to queue.
pub record RetryTimes : Type 0 where
  pub reset_at : ℕ
  pub accepted_at : ℕ
  pub refused_at : ℕ

abbrev pub resubmitted : String → LongTaskRecord → Submitted × Queued → Reply × Queued
resubmitted task_id r (queue_full, q) = (queue_is_full, q)
resubmitted task_id r (enqueued, q) = (detail (or_else (get task_id q.tasks) r), q)

abbrev pub resubmit :
    ℕ → String → RetryTimes → Option LongTaskRecord × JobStore → Queued → Reply × Queued
resubmit queue_size task_id t (none, s) q = (not_found, record q { tasks = s })
resubmit queue_size task_id t (some r, s) q =
    resubmitted task_id r (submit queue_size r t.accepted_at t.refused_at (record q { tasks = s }))

-- With whether a submitter is wired.
abbrev pub retry_current :
    Bool → ℕ → String → String → RetryTimes → Option LongTaskRecord → Queued → Reply × Queued
retry_current wired queue_size task_id owner_id t none q = (not_found, q)
retry_current wired queue_size task_id owner_id t (some current) q =
    if not (str_eq current.owner_id owner_id)
    then (not_found, q)
    else (if not (is_retryable current.status)
        then (conflict current.status, q)
        else (if not wired
            then (no_worker, q)
            else resubmit queue_size task_id t (retry_from_admin task_id t.reset_at q.tasks) q))

unfoldable pub retry_long_task : Bool → ℕ → String → String → RetryTimes → Queued → Reply × Queued
retry_long_task wired queue_size task_id owner_id t q =
    retry_current wired queue_size task_id owner_id t (get task_id q.tasks) q
