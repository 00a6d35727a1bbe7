-- ===== src/Outbox/Audit/Tests.antt =====
-- A round of the audit dispatcher over three events.
use eidolon_agent.Base.{ℕ, ◌≡◌, refl, Option, none, some, List, [], ◌∷◌, String, map}
use eidolon_agent.Outbox.Audit.{
  AuditRow, Envelope, envelope_of, pending_batch, mark_published, mark_failed, purge_published,
  Publishing, acknowledged, retry_after, settle, round, dispatch_once,
}
use eidolon_agent.Outbox.Audit.Rounds.{fate, dispatch_once-fate}

abbrev row : String → Option ℕ → AuditRow
row id published_at = record {
  outbox_id = 1;
  event_id = id;
  producer = "eidolon-agent";
  category = "tool";
  owner_id = none;
  subject_type = "tool";
  subject_id = "t";
  action = "run";
  outcome = "success";
  severity = "info";
  reason = none;
  trace_id = none;
  data_classification = "safe";
  schema_version = 1;
  payload = "{}";
  occurred_at = 0;
  attempt_count = 0;
  next_attempt_at = 0;
  last_error = "";
  published_at = published_at;
  created_at = 0;
}

abbrev rows : List AuditRow
rows = row "a" none ∷ row "b" none ∷ row "c" (some 3) ∷ []

-- A transport that acknowledges "a", and an event that it was not given.
abbrev only_a : List Envelope → Publishing
only_a events = acknowledged ("a" ∷ "z" ∷ [])

after_round :
    ((dispatch_once only_a 200 5 6 rows).0 ≡ 1)
    × (map (λ (r : AuditRow). r.published_at) (dispatch_once only_a 200 5 6 rows).1
        ≡ some 6 ∷ none ∷ some 3 ∷ [])
    × (map (λ (r : AuditRow). r.next_attempt_at) (dispatch_once only_a 200 5 6 rows).1
        ≡ 0 ∷ 1_000_006 ∷ 0 ∷ [])
unfolding dispatch_once round settle pending_batch envelope_of mark_published mark_failed
    retry_after
after_round = (refl, refl, refl)

purged : map (λ (r : AuditRow). r.event_id) (purge_published 4 rows).1 ≡ "a" ∷ "b" ∷ []
unfolding purge_published
purged = refl

dispatch_once-fate_example :
    (dispatch_once only_a 200 5 6 rows).1
    ≡ map (fate (pending_batch 200 5 rows) (only_a (pending_batch 200 5 rows).events) 6) rows
dispatch_once-fate_example = dispatch_once-fate only_a 6 200 5 rows
