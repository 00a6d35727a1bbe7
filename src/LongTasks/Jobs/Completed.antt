-- ===== src/LongTasks/Jobs/Completed.antt =====
-- Of the tasks that are over the store has the time: they are what the lists and the answers of the
-- admin routes sort and show.
use eidolon_agent.Base.{◌≡◌, Bool, true, not, ◌||◌, Option, none, some, String, is_some, All}
use eidolon_agent.Base.Dict.{Dict}
use eidolon_agent.LongTasks.{LongTaskRecord, is_terminal, is_retryable}
use eidolon_agent.LongTasks.Rows.{JobRow, job_row_to_record}
use eidolon_agent.LongTasks.Jobs.Lifecycle.{StoreCall, accepts, fails}

-- Is the task over only with the time it ended at?
abbrev pub is_dated : LongTaskRecord → Bool
is_dated r = not (is_terminal r.status) || is_some r.completed_at

abbrev pub IsDated : JobRow → Type 0
IsDated row = is_dated (job_row_to_record row) ≡ true

abbrev pub AllDated : Dict JobRow → Type 0
AllDated rows = All (λ (e : String × JobRow). IsDated e.1) rows

-- The calls that the program makes: a task comes in dated, and fails by one of the three statuses.
abbrev pub IsFair : StoreCall → Type 0
IsFair (accepts r) = is_dated r ≡ true
IsFair (fails _ f) = is_retryable f.end ≡ true
IsFair _ = Unit

abbrev IsDatedAt : Option JobRow → Type 0
IsDatedAt none = Unit
IsDatedAt (some row) = IsDated row
