-- ===== src/LongTasks/Tests.antt =====
-- Long tasks on concrete stores, a sidecar and the routes.
use eidolon_agent.Base.{
  ℕ, ◌+◌, ◌≡◌, refl, true, false, Option, none, some, List, [], ◌∷◌, String, arith, strip,
}
use eidolon_agent.Base.Dict.{lookup, insert}
use eidolon_agent.Base.Json.{null, str, array, object, no_items, item, Fields, no_fields, field}
use eidolon_agent.LongTasks.{LongTaskRecord, accepted, succeeded, failed, cancelled, pending}
use eidolon_agent.LongTasks.Jobs.{
  JobStore, Failure, accept, accept_row, mark_failed, update, update_row, claim_callback_delivery,
  claim_row, mark_queued, attach_mementos_run, complete, get,
}
use eidolon_agent.LongTasks.Rows.{record_to_job_row, apply_record_to_job_row, job_row_to_record}
use eidolon_agent.LongTasks.Jobs.Lifecycle.{
  StoreCall, accepts, queues, completes, fails, retries, claims, perform_all, live, live_all,
  life_of,
}
use eidolon_agent.LongTasks.Jobs.Refines.{life-perform_all}
use eidolon_agent.LongTasks.Jobs.Callback.{is_unclaimed, claims_won, claims_won_once}
use eidolon_agent.LongTasks.Events.{
  Answer, answered, raised, Exn, truthy, event_type, terminal_event, latest_seq, read_events,
  content_of, session_id_of,
}
use eidolon_agent.LongTasks.Worker.{
  Services, World, Queued, handle, try_task, run_task, run_in, poll_until_done, poll_from,
  poll_round, settle_task, publish_proactive_report, summarize_result_for_tts,
}
use eidolon_agent.LongTasks.Worker.Ends.{IsEnded, handle-IsEnded}
use eidolon_agent.LongTasks.Admin.{RetryTimes, cancel_long_task, retry_long_task}
use eidolon_agent.LongTasks.Admin.Cancel.{IsTold, cancel_long_task-IsTold}
use eidolon_agent.LongTasks.Admin.Retry.{IsRetryTold, retry_long_task-IsRetryTold}
use eidolon_agent.LongTasks.Queries.{find_mementos_session_id}

abbrev task_of : String → LongTaskRecord
task_of id = record {
  id = id;
  provider = "mementos";
  status = accepted;
  owner_id = "owner";
  companion_id = "companion";
  conversation_id = some "livekit:1c:db:room";
  turn_id = "turn";
  session_id = none;
  trace_id = none;
  session_key = "key";
  task_date = "2025-01-01";
  task_key = "task";
  task = "write a report";
  user_text = "";
  memory_realm_id = none;
  genome_id = none;
  device_id = none;
  tool_call_id = none;
  task_type = "other";
  urgency = "normal";
  expected_output = "";
  context_summary = "";
  tool_budget = 0;
  expected_duration_hint = "";
  attachments = [];
  request_payload = null;
  mementos_session_id = none;
  mementos_conversation_id = none;
  mementos_run_id = none;
  mementos_latest_seq = none;
  mementos_workspace_dir = none;
  progress_summary = none;
  progress_events = [];
  result_text = none;
  result_tts_summary = none;
  result_payload = none;
  artifact_paths = [];
  error_code = none;
  error_message = none;
  error_payload = none;
  callback_subject = none;
  callback_status = pending;
  callback_attempts = 0;
  callback_last_error = none;
  callback_delivered_at = none;
  worker_id = none;
  lease_until = none;
  attempt_count = 0;
  next_retry_at = none;
  external_status = none;
  created_at = none;
  updated_at = none;
  started_at = none;
  submitted_at = none;
  last_progress_at = none;
  last_polled_at = none;
  completed_at = none;
}

abbrev no_jobs : JobStore
no_jobs = record { rows = []; receipts = [] }

abbrev broken : Failure
broken = record { code = "x"; message = "y"; details = none; end = failed }

abbrev one_job : JobStore
one_job = accept (task_of "a") 10 no_jobs

-- A task that is cancelled, then taken by the worker all the same, and completed.
abbrev history : List (StoreCall × ℕ)
history =
    (accepts (task_of "a"), 1)
    ∷ (
      fails "a"
          (record { code = "admin_cancelled"; message = ""; details = none; end = cancelled }),
      2,
    )
    ∷ (accepts (task_of "b"), 3)
    ∷ (queues "a" "w" none, 4)
    ∷ (completes "a" (record { text = some "done"; payload = none; artifacts = none }), 5)
    ∷ (fails "b" broken, 6)
    ∷ (claims "a" "s", 7)
    ∷ (retries "b", 8)
    ∷ []

life-perform_all_example :
    life_of "a" (perform_all history no_jobs)
    ≡ live_all "a" history (record { status = none; ends = [] })
unfolding life_of lookup
life-perform_all_example = life-perform_all "a" history no_jobs tt

-- The cancelled task has two ends.
life_runs :
    live_all "a" history (record { status = none; ends = [] })
    ≡ record { status = some succeeded; ends = cancelled ∷ succeeded ∷ [] }
unfolding live_all live
life_runs = refl

abbrev two_claims : List (StoreCall × ℕ)
two_claims = (claims "a" "s", 1) ∷ (queues "a" "w" none, 2) ∷ (claims "a" "s", 3) ∷ []

claims_won_once_example : claims_won "a" two_claims one_job ≡ 1
unfolding is_unclaimed accept accept_row record_to_job_row insert lookup
claims_won_once_example = claims_won_once "a" two_claims one_job (refl, (refl, (refl, tt)))

abbrev boom : Exn
boom = record { exception_type = "TransportError"; exception_text = "down" }

abbrev no_answer : Fields
no_answer = no_fields

-- A session of which the messages end with the result of the run before.
abbrev old_end : Fields
old_end =
    field "messages"
      (array (
        item
          (object (
            field "event_type" (str "RUN_END")
              (field "payload" (object (field "content" (str "old result") no_fields)) no_fields)))
          no_items))
      no_fields

abbrev env_of : (ℕ → String → Answer Fields) → Services
env_of messages = record {
  python = record {
    str_of = λ _. "";
    int_of = λ _. none;
    float_is_zero = λ _. false;
    no_get = record { exception_type = "AttributeError"; exception_text = "get" };
  };
  config = record { queue_size = 256; task_timeout = 10; lease = 100 };
  worker_id = "w";
  create_session =
      λ _. answered (field "session" (object (field "id" (str "s1") no_fields)) no_fields);
  post_message = λ _ _. answered no_fields;
  get_messages = messages;
  summarizer = none;
  persona_voice = none;
  event_bus = some (λ _. answered tt);
  loop_time = λ n. n + n + n + n;
  utcnow = λ n. 1_000 + n;
}

abbrev silent : Services
silent = env_of (λ _ _. answered no_fields)

abbrev down : Services
down = env_of (λ _ _. raised boom)

abbrev stale : Services
stale = env_of (λ _ _. answered old_end)

abbrev world : World
world = record { store = one_job; reports = []; ticks = 0 }

handle-IsEnded_example : IsEnded "a" (handle silent 5 (task_of "a") world)
unfolding accept accept_row record_to_job_row insert lookup
handle-IsEnded_example =
    handle-IsEnded silent (task_of "a") 5 3 world (omega arith) (omega arith) ((refl, tt), refl)

abbrev text_in : Option LongTaskRecord → Option String
text_in none = none
text_in (some r) = r.result_text

-- The first poll finds the end of the earlier run in the session and takes its result.
stale_result : text_in (get "a" (handle stale 5 (task_of "a") world).1.store) ≡ some "old result"
unfolding handle try_task run_task run_in poll_until_done poll_from poll_round settle_task
    publish_proactive_report summarize_result_for_tts read_events truthy event_type terminal_event
    latest_seq content_of session_id_of get accept accept_row record_to_job_row
    apply_record_to_job_row job_row_to_record insert lookup mark_queued attach_mementos_run complete
    update update_row find_mementos_session_id claim_callback_delivery claim_row strip
stale_result = refl

abbrev idle : Queued
idle = record { queue = []; tasks = (mark_failed "a" broken 20 one_job).1 }

cancel_long_task-IsTold_example :
    IsTold "a" "owner" one_job (cancel_long_task "a" "owner" 30 one_job)
unfolding accept accept_row record_to_job_row insert lookup
cancel_long_task-IsTold_example = cancel_long_task-IsTold "a" "owner" 30 one_job (refl, tt)

abbrev times : RetryTimes
times = record { reset_at = 40; accepted_at = 41; refused_at = 42 }

retry_long_task-IsRetryTold_example :
    IsRetryTold "a" "owner" idle (retry_long_task true 1 "a" "owner" times idle)
unfolding accept accept_row record_to_job_row insert lookup mark_failed update update_row
    apply_record_to_job_row
retry_long_task-IsRetryTold_example =
    retry_long_task-IsRetryTold true 1 "a" "owner" times idle (refl, tt)
