-- ===== src/LongTasks/Admin/Retry.antt =====
-- What the answers of the retry route say is what the store and the queue hold.
use eidolon_agent.Base.{
  ℕ, ◌≡◌, refl, sym, ap, ◌∙◌, subst, Bool, true, false, not, Option, none, some, [], ◌∷◌, ◌++◌,
  String, arith, if◌then◌else◌, or_else, str_eq, eq_iff, some_inj, if-elim,
}
use eidolon_agent.Base.Dict.{lookup}
use eidolon_agent.LongTasks.{LongTaskRecord, accepted, failed, is_retryable}
use eidolon_agent.LongTasks.Rows.{JobRow, job_row_to_record}
use eidolon_agent.LongTasks.Jobs.{
  JobStore, Failure, accept, dated, get, record_at, mark_failed, retry_from_admin, set_failed,
  set_retried,
}
use eidolon_agent.LongTasks.Jobs.Lifecycle.{accepts, retries, perform}
use eidolon_agent.LongTasks.Jobs.Keyed.{IsKeyed, IsUnder, lookup-IsUnder, perform-IsKeyed}
use eidolon_agent.LongTasks.Jobs.Reads.{mapped, get-accept, get-update}
use eidolon_agent.LongTasks.Worker.{Queued, is_full, submit}
use eidolon_agent.LongTasks.Admin.{
  Reply, detail, conflict, not_found, queue_is_full, no_worker, RetryTimes, resubmitted, resubmit,
  retry_current, retry_long_task,
}
use eidolon_agent.LongTasks.Admin.Cancel.{IsForeign, no_task_of}

-- A task reads under its own id.
get_id :
    (id : String) (s : JobStore) (r : LongTaskRecord)
    → IsKeyed s.rows
    → get id s ≡ some r
    → r.id ≡ id
unfolding get job_row_to_record
get_id id s r w e = by_row (lookup id s.rows) (lookup-IsUnder id s.rows w) e
  where
    by_row : (o : Option JobRow) → IsUnder id o → record_at o ≡ some r → r.id ≡ id
    by_row none u e = cc e
    by_row (some row) u e = ap (λ (x : LongTaskRecord). x.id) (sym (some_inj e)) ∙ u

-- A record without the results, the errors, the progress and the worker's lease of a previous run.
abbrev pub IsClean : LongTaskRecord → Type 0
IsClean r =
    (r.result_text ≡ none)
    × (r.result_tts_summary ≡ none)
    × (r.result_payload ≡ none)
    × (r.artifact_paths ≡ [])
    × (r.progress_events ≡ [])
    × (r.error_code ≡ none)
    × (r.error_message ≡ none)
    × (r.error_payload ≡ none)
    × (r.progress_summary ≡ none)
    × (r.external_status ≡ none)
    × (r.worker_id ≡ none)
    × (r.lease_until ≡ none)
    × (r.next_retry_at ≡ none)
    × (r.completed_at ≡ none)

-- What a retry takes over of the task: its text, its attempts, the ids of the sidecar's run, and the fields of
-- the report to the caller.
abbrev TakesOver : LongTaskRecord → LongTaskRecord → Type 0
TakesOver c r =
    (r.task ≡ c.task)
    × (r.attempt_count ≡ c.attempt_count)
    × (r.mementos_session_id ≡ c.mementos_session_id)
    × (r.mementos_conversation_id ≡ c.mementos_conversation_id)
    × (r.mementos_run_id ≡ c.mementos_run_id)
    × (r.mementos_latest_seq ≡ c.mementos_latest_seq)
    × (r.mementos_workspace_dir ≡ c.mementos_workspace_dir)
    × (r.callback_subject ≡ c.callback_subject)
    × (r.callback_status ≡ c.callback_status)
    × (r.callback_attempts ≡ c.callback_attempts)
    × (r.callback_last_error ≡ c.callback_last_error)
    × (r.callback_delivered_at ≡ c.callback_delivered_at)

-- The task of this owner was there, over without success.
abbrev IsRetryable : String → String → Queued → LongTaskRecord → Type 0
IsRetryable id owner q c =
    (get id q.tasks ≡ some c) × (c.owner_id ≡ owner) × (is_retryable c.status ≡ true)

-- The task was there to be retried, and what is queued last is the one the store holds.
abbrev IsRequeued : String → String → Queued → LongTaskRecord → Queued → Type 0
IsRequeued id owner q r p =
    ((c : LongTaskRecord) × IsRetryable id owner q c × TakesOver c r)
    × (get id p.tasks ≡ some r)
    × (r.status ≡ accepted)
    × (r.owner_id ≡ owner)
    × IsClean r
    × ((x : LongTaskRecord) × (x.id ≡ id) × IsClean x × (p.queue ≡ q.queue ++ (x ∷ [])))

-- The task was there to be retried, and has failed, since the queue refused it.
abbrev IsRefused : String → String → Queued → Queued → Type 0
IsRefused id owner q p =
    ((c : LongTaskRecord) × IsRetryable id owner q c)
    × (p.queue ≡ q.queue)
    × ((r : LongTaskRecord) × (get id p.tasks ≡ some r)
        × (r.status ≡ failed)
        × (r.error_code ≡ some "queue_full"))

-- What a retry answers of the state it found and the one it left.
abbrev pub IsRetryTold : String → String → Queued → Reply × Queued → Type 0
IsRetryTold id owner q (detail r, p) = IsRequeued id owner q r p
IsRetryTold id owner q (queue_is_full, p) = IsRefused id owner q p
IsRetryTold id owner q (conflict st, p) =
    (p ≡ q)
    × ((c : LongTaskRecord) × (get id q.tasks ≡ some c)
        × (c.owner_id ≡ owner)
        × (c.status ≡ st)
        × (is_retryable st ≡ false))
IsRetryTold id owner q (not_found, p) = (p ≡ q) × IsForeign id owner q.tasks
IsRetryTold id owner q (no_worker, p) = p ≡ q

abbrev queue_failure : Failure
queue_failure = record {
  code = "queue_full";
  message = "local long-task queue is full";
  details = none;
  end = failed;
}

module _ (id owner : String) (t : RetryTimes) (q : Queued) (w : IsKeyed q.tasks.rows)
    (r : LongTaskRecord) (e : get id q.tasks ≡ some r) (own : r.owner_id ≡ owner)
    (ended : is_retryable r.status ≡ true) where
  abbrev fresh : LongTaskRecord
  fresh = set_retried r t.reset_at

  abbrev reset : JobStore
  reset = (retry_from_admin id t.reset_at q.tasks).1

  reset-IsKeyed : IsKeyed reset.rows
  unfolding perform
  reset-IsKeyed = perform-IsKeyed (retries id) t.reset_at q.tasks w

  retried : (retry_from_admin id t.reset_at q.tasks).0 ≡ some fresh
  unfolding retry_from_admin
  retried =
      (get-update id id set_retried t.reset_at q.tasks (λ x. (refl, refl, refl)) w).0
      ∙ ap (mapped (λ x. set_retried x t.reset_at)) e

  fresh_id : fresh.id ≡ id
  fresh_id = get_id id q.tasks r w e

  -- The store after the submit's `accept`.
  abbrev taken : JobStore
  taken = accept fresh t.accepted_at reset

  reads_taken : get id taken ≡ some (dated fresh t.accepted_at)
  reads_taken =
      get-accept id fresh t.accepted_at reset reset-IsKeyed
      ∙ ap (λ b. if b then some (dated fresh t.accepted_at) else get id reset)
          ((eq_iff fresh.id id).1 fresh_id)

  taken-IsKeyed : IsKeyed taken.rows
  unfolding perform
  taken-IsKeyed = perform-IsKeyed (accepts fresh) t.accepted_at reset reset-IsKeyed

  cleared : IsClean fresh
  cleared = (refl, refl, refl, refl, refl, refl, refl, refl, refl, refl, refl, refl, refl, refl)

  requeued :
      IsRequeued id owner q
        (or_else (get id taken) fresh)
        (record { queue = q.queue ++ (fresh ∷ []); tasks = taken })
  requeued =
      subst
        (λ o.
          IsRequeued id owner q (or_else o fresh)
            (record { queue = q.queue ++ (fresh ∷ []); tasks = taken }))
        (sym reads_taken)
        (
          (
            r,
            (e, own, ended),
            (refl, refl, refl, refl, refl, refl, refl, refl, refl, refl, refl, refl),
          ),
          reads_taken,
          refl,
          own,
          cleared,
          (fresh, fresh_id, cleared, refl),
        )

  refused :
      IsRefused id owner q
        (record q { tasks = (mark_failed fresh.id queue_failure t.refused_at taken).1 })
  unfolding mark_failed
  refused = (
    (r, (e, own, ended)),
    refl,
    (
      set_failed queue_failure (dated fresh t.accepted_at) t.refused_at,
      (get-update id fresh.id (set_failed queue_failure) t.refused_at taken
            (λ x. (refl, refl, refl)) taken-IsKeyed).1
          ∙ rw ((eq_iff fresh.id id).1 fresh_id, reads_taken) refl,
      refl,
      refl,
    ),
  )

  submitted_told :
      (queue_size : ℕ)
      → IsRetryTold id owner q (
          resubmitted id fresh
            (submit queue_size fresh t.accepted_at t.refused_at (record q { tasks = reset })))
  unfolding submit
  submitted_told queue_size =
      if-elim (λ z. IsRetryTold id owner q (resubmitted id fresh z)) (is_full queue_size q.queue) _
        _ (λ _. refused) (λ _. requeued)

  resubmit_told :
      (queue_size : ℕ)
      → IsRetryTold id owner q (resubmit queue_size id t (retry_from_admin id t.reset_at q.tasks) q)
  resubmit_told queue_size =
      subst (λ o. IsRetryTold id owner q (resubmit queue_size id t (o, reset) q)) (sym retried)
        (submitted_told queue_size)

-- For a table whose rows stand under their ids: a retry that answers with the task leaves it
-- accepted, of this owner and last in the worker's queue, without the results, errors, progress and
-- lease of the previous run, and with its attempts, the ids of the sidecar's run and the fields of
-- the report; one that finds the queue full leaves the queue as it was and the task failed for that
-- reason; both found the task over without success. A conflict names the status of a task of this
-- owner that is not so, 404 says that no task of this owner is there, and these two and a host
-- without a worker leave the store and the queue as they were.
pub retry_long_task-IsRetryTold :
    (wired : Bool) (queue_size : ℕ) (id owner : String) (t : RetryTimes) (q : Queued)
    → IsKeyed q.tasks.rows
    → IsRetryTold id owner q (retry_long_task wired queue_size id owner t q)
unfolding retry_long_task
retry_long_task-IsRetryTold wired queue_size id owner t q w = by_current (get id q.tasks) refl
  where
    by_current :
        (o : Option LongTaskRecord)
        → get id q.tasks ≡ o
        → IsRetryTold id owner q (retry_current wired queue_size id owner t o q)
    by_current none e = (refl, λ c f. cc (sym e ∙ f))
    by_current (some r) e =
        if-elim (IsRetryTold id owner q) (not (str_eq r.owner_id owner)) _ _
          (λ b. (refl, no_task_of id owner q.tasks r e (ground (arith, b))))
          (λ b.
            let own : r.owner_id ≡ owner = (eq_iff r.owner_id owner).0 (ground arith) in
            if-elim (IsRetryTold id owner q) (not (is_retryable r.status)) _ _
              (λ n. (refl, (r, e, own, refl, ground (arith, n))))
              (λ n.
                let ended : is_retryable r.status ≡ true = ground (arith, n) in
                if-elim (IsRetryTold id owner q) (not wired) _ _ (λ _. refl)
                  (λ _. resubmit_told id owner t q w r e own ended queue_size)))
