-- ===== src/LongTasks/Jobs/Lifecycle.antt =====
-- The abstract life of one task that the job store implements: its status and the ends that the
-- audit outbox has a receipt of. The abstract steps know no other field, task or time.
use eidolon_agent.Base.{
  ℕ, Bool, not, ◌&&◌, Option, none, some, List, [], ◌∷◌, ◌++◌, String, map, if◌then◌else◌, str_eq,
  keep_if,
}
use eidolon_agent.Base.Json.{Json}
use eidolon_agent.Base.Dict.{Dict, lookup}
use eidolon_agent.LongTasks.{
  LongTaskRecord, LongTaskStatus, accepted, queued, submitted, running, succeeded, is_terminal,
}
use eidolon_agent.LongTasks.Rows.{JobRow}
use eidolon_agent.LongTasks.Jobs.{
  Receipt, JobStore, RunRef, Completion, Failure, accept, mark_queued, mark_submitted,
  attach_mementos_run, append_progress, touch_poll, complete, set_result_tts_summary, mark_failed,
  retry_from_admin, claim_callback_delivery, same_status,
}

-- The calls that change the store, by any client of it.
pub data StoreCall : Type 0 where
  accepts : LongTaskRecord → StoreCall
  queues : String → String → Option ℕ → StoreCall
  submits : String → StoreCall
  attaches : String → RunRef → StoreCall
  progresses : String → Json → Option String → Option ℕ → StoreCall
  polls : String → Option ℕ → Option String → StoreCall
  completes : String → Completion → StoreCall
  summarizes : String → String → StoreCall
  fails : String → Failure → StoreCall
  retries : String → StoreCall
  claims : String → String → StoreCall

unfoldable pub perform : StoreCall → ℕ → JobStore → JobStore
unfolding accept mark_queued mark_submitted attach_mementos_run append_progress touch_poll complete
    set_result_tts_summary mark_failed retry_from_admin claim_callback_delivery
perform (accepts r) now s = accept r now s
perform (queues id w l) now s = (mark_queued id w l now s).1
perform (submits id) now s = (mark_submitted id now s).1
perform (attaches id ref) now s = (attach_mementos_run id ref now s).1
perform (progresses id e t l) now s = (append_progress id e t l now s).1
perform (polls id l e) now s = (touch_poll id l e now s).1
perform (completes id o) now s = (complete id o now s).1
perform (summarizes id t) now s = (set_result_tts_summary id t now s).1
perform (fails id f) now s = (mark_failed id f now s).1
perform (retries id) now s = (retry_from_admin id now s).1
perform (claims id subject) now s = (claim_callback_delivery id subject now s).1

-- The calls of a history with their times.
unfoldable pub perform_all : List (StoreCall × ℕ) → JobStore → JobStore
perform_all [] s = s
perform_all ((c, now) ∷ cs) s = perform_all cs (perform c now s)

pub record Life : Type 0 where
  pub status : Option LongTaskStatus
  pub ends : List LongTaskStatus

-- To a status, of a task that there is: an end that is not where the task stands is recorded.
abbrev pub moved : LongTaskStatus → Life → Life
moved st l = elim l.status [
  | none ↦ l
  | some before ↦ record {
    status = some st;
    ends = if is_terminal st && not (same_status st before) then l.ends ++ (st ∷ []) else l.ends;
  }
]

abbrev pub moved_if : Bool → LongTaskStatus → Life → Life
moved_if b st l = if b then moved st l else l

unfoldable pub live : String → StoreCall → Life → Life
live id (accepts r) l = if str_eq r.id id then record l { status = some r.status } else l
live id (queues j _ _) l = moved_if (str_eq j id) queued l
live id (submits j) l = moved_if (str_eq j id) submitted l
live id (attaches j _) l = moved_if (str_eq j id) running l
live id (progresses j _ _ _) l = moved_if (str_eq j id) running l
live id (completes j _) l = moved_if (str_eq j id) succeeded l
live id (fails j f) l = moved_if (str_eq j id) f.end l
live id (retries j) l = moved_if (str_eq j id) accepted l
live id _ l = l

unfoldable pub live_all : String → List (StoreCall × ℕ) → Life → Life
unfolding live
live_all id [] l = l
live_all id ((c, _) ∷ cs) l = live_all id cs (live id c l)

-- What the store says of a task.
abbrev pub status_at : Option JobRow → Option LongTaskStatus
status_at none = none
status_at (some row) = some row.status

abbrev pub status_in : String → Dict JobRow → Option LongTaskStatus
status_in id rows = status_at (lookup id rows)

abbrev pub is_about : String → Receipt → Bool
is_about id r = str_eq r.subject_id id

abbrev pub ends_in : String → List Receipt → List LongTaskStatus
ends_in id rs = map (λ (r : Receipt). r.payload_status) (keep_if (is_about id) rs)

unfoldable pub life_of : String → JobStore → Life
life_of id s = record { status = status_in id s.rows; ends = ends_in id s.receipts }
