-- ===== src/Outbox/Audit.antt =====
-- The audit outbox: `AgentAuditOutbox` of eidolon_agent/infra/persistence/runtime_store.py and
-- `AgentAuditDispatcher.dispatch_once` of eidolon_agent/infra/persistence/audit_dispatch.py. A set
-- of event ids is a list; an update for no ids changes no row, as the early returns for it do.
pub mod Rounds
mod Tests
use eidolon_agent.Base.{
  ℕ, ◌+◌, ◌*◌, ◌^◌, min, Bool, true, false, not, ◌&&◌, Option, none, some, List, [], ◌∷◌, String,
  map, leb, ltb, if◌then◌else◌, str_mem, first_chars, keep_if, take, length, is_some,
}

-- `AgentAuditOutboxRow`
pub record AuditRow : Type 0 where
  pub outbox_id : ℕ
  pub event_id : String
  pub producer : String
  pub category : String
  pub owner_id : Option String
  pub subject_type : String
  pub subject_id : String
  pub action : String
  pub outcome : String
  pub severity : String
  pub reason : Option String
  pub trace_id : Option String
  pub data_classification : String
  pub schema_version : ℕ
  pub payload : String
  pub occurred_at : ℕ
  pub attempt_count : ℕ
  pub next_attempt_at : ℕ
  pub last_error : String
  pub published_at : Option ℕ
  pub created_at : ℕ

-- `AuditEnvelope`, as `_audit_envelope` fills it.
pub record Envelope : Type 0 where
  pub event_id : String
  pub producer : String
  pub producer_seq : ℕ
  pub category : String
  pub owner_id : Option String
  pub subject_type : String
  pub subject_id : String
  pub action : String
  pub outcome : String
  pub severity : String
  pub reason : Option String
  pub trace_id : Option String
  pub data_classification : String
  pub schema_version : ℕ
  pub payload : String
  pub occurred_at : ℕ

pub envelope_of : AuditRow → Envelope
envelope_of r = record {
  event_id = r.event_id;
  producer = r.producer;
  producer_seq = r.outbox_id;
  category = r.category;
  owner_id = r.owner_id;
  subject_type = r.subject_type;
  subject_id = r.subject_id;
  action = r.action;
  outcome = r.outcome;
  severity = r.severity;
  reason = r.reason;
  trace_id = r.trace_id;
  data_classification = r.data_classification;
  schema_version = r.schema_version;
  payload = r.payload;
  occurred_at = r.occurred_at;
}

-- `PendingAuditBatch`
pub record AuditBatch : Type 0 where
  pub events : List Envelope
  pub max_attempt_count : ℕ

abbrev pub is_waiting : AuditRow → Bool
is_waiting r = not (is_some r.published_at)

abbrev pub is_due : ℕ → AuditRow → Bool
is_due now r = is_waiting r && leb r.next_attempt_at now

-- `max((row.attempt_count for row in rows), default=0)`
abbrev pub max_attempts : List AuditRow → ℕ
max_attempts [] = 0
max_attempts (r ∷ rows) =
    let rest = max_attempts rows in if ltb rest r.attempt_count then r.attempt_count else rest

pub pending_batch : ℕ → ℕ → List AuditRow → AuditBatch
unfolding envelope_of
pending_batch limit now rows =
    let due = take limit (keep_if (is_due now) rows) in
    record { events = map envelope_of due; max_attempt_count = max_attempts due }

-- The rows that an update with these ids is for.
abbrev pub is_meant : List String → AuditRow → Bool
is_meant ids r = str_mem r.event_id ids && is_waiting r

abbrev pub published : ℕ → AuditRow → AuditRow
published now r = record r { published_at = some now; last_error = "" }

abbrev pub failed : String → ℕ → AuditRow → AuditRow
failed error next r = record r {
  attempt_count = r.attempt_count + 1;
  last_error = first_chars 2_000 error;
  next_attempt_at = next;
}

pub mark_published : List String → ℕ → List AuditRow → ℕ × List AuditRow
mark_published ids now rows = (
  length (keep_if (is_meant ids) rows),
  map (λ (r : AuditRow). if is_meant ids r then published now r else r) rows,
)

pub mark_failed : List String → String → ℕ → ℕ → List AuditRow → ℕ × List AuditRow
mark_failed ids error retry_after now rows = (
  length (keep_if (is_meant ids) rows),
  map (λ (r : AuditRow). if is_meant ids r then failed error (now + retry_after) r else r) rows,
)

abbrev pub is_old : ℕ → AuditRow → Bool
is_old before r = elim r.published_at [ none ↦ false | some at ↦ ltb at before ]

pub purge_published : ℕ → List AuditRow → ℕ × List AuditRow
purge_published before rows =
    (length (keep_if (is_old before) rows), keep_if (λ r. not (is_old before r)) rows)

-- What `publish_many` does: it returns the ids that the transport acknowledged, or raises.
pub data Publishing : Type 0 where
  acknowledged : List String → Publishing
  raised : String → Publishing

-- `timedelta(seconds=min(2 ** min(max(batch.max_attempt_count, 0), 16), 60))`
pub retry_after : ℕ → ℕ
retry_after attempts = min (2 ^ min attempts 16) 60 * 1_000_000

abbrev pub event_ids : List Envelope → List String
event_ids events = map (λ (e : Envelope). e.event_id) events

module _ (publisher : List Envelope → Publishing) where
  -- The part behind an empty batch; `later` is the clock that the updates read.
  pub settle : AuditBatch → ℕ → List AuditRow → ℕ × List AuditRow
  unfolding mark_published mark_failed retry_after
  settle batch later rows =
      let ids = event_ids batch.events in
      elim (publisher batch.events) [
        | raised error ↦
            (0, (mark_failed ids error (retry_after batch.max_attempt_count) later rows).1)
        | acknowledged acks ↦
            let good = keep_if (λ id. str_mem id ids) acks in
            let missing = keep_if (λ id. not (str_mem id good)) ids in
            let marked = (mark_published good later rows).1 in
            (
              length good,
              (mark_failed missing "transport did not acknowledge event"
                  (retry_after batch.max_attempt_count) later marked).1,
            )
      ]

  -- An empty batch is not sent.
  pub round : AuditBatch → ℕ → List AuditRow → ℕ × List AuditRow
  unfolding settle
  round batch later rows = elim batch.events [ [] ↦ (0, rows) | e ∷ es ↦ settle batch later rows ]

  pub dispatch_once : ℕ → ℕ → ℕ → List AuditRow → ℕ × List AuditRow
  unfolding round pending_batch
  dispatch_once batch_size now later rows = round (pending_batch batch_size now rows) later rows
