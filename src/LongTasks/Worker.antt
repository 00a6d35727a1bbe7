-- ===== src/LongTasks/Worker.antt =====
-- `MementosLongTaskWorker` of eidolon_agent/infra/long_tasks/mementos.py. The sidecar's HTTP client,
-- the summarizer, the persona's voice, the event bus and the clocks are parameters. An awaited
-- store call takes the time it reads; the store's calls do not raise. The loop that polls is
-- recursion on fuel.
pub mod Progress
pub mod Ends
use eidolon_agent.Base.{
  ℕ, zero, suc, ◌+◌, ◌≡◌, Bool, true, false, not, ◌&&◌, Option, none, some, List, [], ◌∷◌, ◌++◌,
  String, length, leb, ltb, if◌then◌else◌, or_else, str_eq, strip,
}
use Prim.Native.String.{◌++◌ as ◌+++◌}
use eidolon_agent.Base.Json.{Json, null, str, object, Fields, no_fields, field}
use eidolon_agent.LongTasks.{LongTaskRecord, failed, timed_out}
use eidolon_agent.LongTasks.Jobs.{
  JobStore, RunRef, Completion, Failure, accept, mark_queued, attach_mementos_run, touch_poll,
  complete, set_result_tts_summary, mark_failed, claim_callback_delivery, has_text, or_some,
}
use eidolon_agent.LongTasks.Events.{
  Python, Exn, Answer, answered, raised, field_of, text_at, event_type, is_success, terminal_event,
  latest_seq, read_events, content_of, session_id_of, prompt_for_record,
  device_id_from_conversation_id,
}
use eidolon_agent.LongTasks.Queries.{find_mementos_session_id}
pub use eidolon_agent.LongTasks.Reports.{
  WorkerConfig, Utterance, Decision, Report, Services, World, Attempt, Proc, go_on, ◌>>=◌, give,
  throw, await, handled, store_call, summarize, summarize_by, fallback_line, frame,
  proactive_triggered, report_of, hand_over, deliver, announce, publish_on, returned, threw,
  unfinished,
}
unfoldable pub use eidolon_agent.LongTasks.Reports.{
  summarize_result_for_tts, publish_proactive_report,
}

module _ (env : Services) where
  abbrev pub completion_of : String → Fields → Completion
  completion_of content terminal = record {
    text = some content;
    payload = some (object terminal);
    artifacts = none;
  }

  -- A terminal event in `_poll_until_done`.
  unfoldable pub settle_task : LongTaskRecord → Fields → Proc Unit
  unfolding summarize_result_for_tts publish_proactive_report
  settle_task r terminal =
      let kind = event_type env.python terminal in
      let content = content_of env.python terminal in
      if is_success env.python kind
      then (do
        _ ← store_call env (complete r.id (completion_of content terminal))
        summary ← summarize_result_for_tts env r content
        publish_proactive_report env r summary)
      else (do
        _ ← store_call env (
            mark_failed r.id (record {
              code = "mementos_run_failed";
              message = if str_eq content "" then kind else content;
              details = some (object terminal);
              end = failed;
            }))
        give tt)

  -- After the events of a poll, with the terminal one among them and what the loop does next.
  abbrev pub act_on : LongTaskRecord → Option ℕ → (Option ℕ → Proc Unit) → Option Fields → Proc Unit
  act_on r seq next none = do _ ← store_call env (touch_poll r.id seq (some "running")); next seq
  act_on r seq next (some terminal) = settle_task r terminal

  -- A round of the loop that reads the clock before its deadline.
  unfoldable pub poll_round :
      LongTaskRecord → String → ℕ → Option ℕ → (Option ℕ → Proc Unit) → Proc Unit
  poll_round r session_id k last_seq next = do
    messages ← await (env.get_messages k session_id)
    events ← await (read_events env.python messages)
    let seq = or_some (latest_seq env.python events) last_seq
    act_on r seq next (terminal_event env.python events)

  -- `mark_failed` at the deadline.
  unfoldable pub time_out : LongTaskRecord → Proc Unit
  time_out r = do
    _ ← store_call env (
        mark_failed r.id (record {
          code = "mementos_timeout";
          message = "mementos task timed out";
          details = none;
          end = timed_out;
        }))
    give tt

  -- The while loop of `_poll_until_done`, at its reading of this number.
  unfoldable pub poll_from : ℕ → LongTaskRecord → String → ℕ → Option ℕ → Proc Unit
  unfolding poll_round time_out
  poll_from zero r session_id k last_seq w = (unfinished, w)
  poll_from (suc fuel) r session_id k last_seq w =
      (if ltb (env.loop_time (suc k)) (env.loop_time 0 + env.config.task_timeout)
          then poll_round r session_id k last_seq (λ seq. poll_from fuel r session_id (suc k) seq)
          else time_out r)
        w

  unfoldable pub poll_until_done : ℕ → LongTaskRecord → String → Proc Unit
  unfolding poll_from
  poll_until_done fuel r session_id = poll_from fuel r session_id 0 none

  abbrev pub session_for : LongTaskRecord → Option String → Proc String
  session_for r (some session_id) = give session_id
  session_for r none = do
    session ← await (env.create_session r.session_key)
    await (session_id_of env.python session)

  abbrev pub no_session : Exn
  no_session = record {
    exception_type = "RuntimeError";
    exception_text = "mementos session id missing";
  }

  abbrev pub run_ref : String → Fields → RunRef
  run_ref session_id post_result =
      let conversation_id = text_at env.python "conversation_id" post_result in
      let run = if str_eq conversation_id "" then none else some conversation_id in
      record {
        ref_session_id = some session_id;
        ref_conversation_id = run;
        ref_run_id = run;
        ref_latest_seq = env.python.int_of (field_of "latest_seq" post_result);
        ref_workspace_dir = none;
        ref_external_status = some "running";
      }

  -- From the session on, the body of the try of `_handle`.
  unfoldable pub run_in : ℕ → LongTaskRecord → String → Proc Unit
  unfolding poll_until_done
  run_in fuel r session_id = do
    post_result ← await (env.post_message session_id (prompt_for_record r))
    _ ← store_call env (attach_mementos_run r.id (run_ref session_id post_result))
    poll_until_done fuel r session_id

  -- The body of the try of `_handle`.
  unfoldable pub run_task : ℕ → LongTaskRecord → Proc Unit
  unfolding run_in
  run_task fuel r w =
      (do
        session_id ← session_for r (find_mementos_session_id r.session_key w.store)
        if str_eq session_id "" then throw no_session else run_in fuel r session_id)
        w

  -- The except of `_handle`.
  unfoldable pub worker_error : LongTaskRecord → Exn → Proc Unit
  worker_error r e = do
    _ ← store_call env (
        mark_failed r.id (record {
          code = "mementos_worker_error";
          message = e.exception_text;
          details = some (object (field "exception_type" (str e.exception_type) no_fields));
          end = failed;
        }))
    give tt

  -- The try of `_handle`.
  unfoldable pub try_task : ℕ → LongTaskRecord → Proc Unit
  unfolding run_task worker_error
  try_task fuel r w = handled (worker_error r) (run_task fuel r w)

  -- `_handle`; it reads the clock for the lease, and the store reads it once more.
  unfoldable pub handle : ℕ → LongTaskRecord → Proc Unit
  unfolding try_task
  handle fuel r w =
      (do
        _ ←
            store_call env
              (mark_queued r.id env.worker_id (some (env.utcnow w.ticks + env.config.lease)))
        try_task fuel r)
        (record w { ticks = suc w.ticks })

-- The queue of the worker and what it shares with the store.
pub record Queued : Type 0 where
  pub queue : List LongTaskRecord
  pub tasks : JobStore

-- `LongTaskQueueFullError`, or none when the task is queued.
pub data Submitted : Type 0 where
  enqueued queue_full : Submitted

-- `queue.full()`: a queue of size 0 is never full.
abbrev pub is_full : ℕ → List LongTaskRecord → Bool
is_full size queue = if ltb 0 size then leb size (length queue) else false

-- `submit`; the store's calls read the clock once each.
unfoldable pub submit : ℕ → LongTaskRecord → ℕ → ℕ → Queued → Submitted × Queued
submit queue_size r now later q =
    let s = accept r now q.tasks in
    if is_full queue_size q.queue
    then (
      queue_full,
      record q {
        tasks =
            (mark_failed r.id
              (record {
                code = "queue_full";
                message = "local long-task queue is full";
                details = none;
                end = failed;
              })
              later s).1;
      },
    )
    else (enqueued, record { queue = q.queue ++ (r ∷ []); tasks = s })
