-- ===== src/LongTasks/Queries.antt =====
-- The reads of `AgentLongTaskStore`, of eidolon_agent/infra/persistence/agent_runtime.py, that look
-- at the whole jobs table.
use eidolon_agent.Base.{
  ℕ, Bool, true, ◌&&◌, Option, none, some, List, [], ◌∷◌, String, map, leb, ltb, if◌then◌else◌,
  str_eq, keep_if, take, find_first,
}
use eidolon_agent.Base.Dict.{Dict}
use eidolon_agent.LongTasks.{LongTaskRecord, LongTaskStatus}
use eidolon_agent.LongTasks.Rows.{JobRow, job_row_to_record}
use eidolon_agent.LongTasks.Jobs.{JobStore, has_text, same_status}

-- `order_by(JobRow.created_at.desc())`; rows of one time stay as they are in the table.
abbrev put_by_age : JobRow → List JobRow → List JobRow
put_by_age row [] = row ∷ []
put_by_age row (r ∷ rs) =
    let rest = put_by_age row rs in
    if leb r.created_at row.created_at then row ∷ r ∷ rs else r ∷ rest

abbrev newest_first : Dict JobRow → List JobRow
newest_first [] = []
newest_first ((_, row) ∷ rows) = put_by_age row (newest_first rows)

unfoldable pub find_mementos_session_id : String → JobStore → Option String
find_mementos_session_id session_key s =
    let rows = keep_if (λ (row : JobRow). str_eq row.provider "mementos") (newest_first s.rows) in
    let found =
      find_first
        (λ (r : LongTaskRecord). str_eq r.session_key session_key && has_text r.mementos_session_id)
        (map job_row_to_record rows) in
    elim found [ none ↦ none | some r ↦ r.mementos_session_id ]

-- The arguments of `list_for_admin`.
pub record JobFilter : Type 0 where
  pub owner : Option String
  pub companion : Option String
  pub status_is : Option LongTaskStatus
  pub provider_is : Option String
  pub task_type_is : Option String
  pub before : Option ℕ

-- `if value: stmt = stmt.where(column == value)`
abbrev pub matches_text : Option String → String → Bool
matches_text none column = true
matches_text (some v) column = if str_eq v "" then true else str_eq column v

abbrev pub matches_filter : JobFilter → JobRow → Bool
matches_filter f row =
    matches_text f.owner row.owner_id
    && matches_text f.companion row.companion_id
    && elim f.status_is [ none ↦ true | some st ↦ same_status row.status st ]
    && matches_text f.provider_is row.provider
    && matches_text f.task_type_is row.kind
    && elim f.before [ none ↦ true | some t ↦ ltb row.created_at t ]

pub list_for_admin : JobFilter → ℕ → JobStore → List LongTaskRecord
list_for_admin f limit s =
    map job_row_to_record (take limit (keep_if (matches_filter f) (newest_first s.rows)))
