-- ===== src/LongTasks/Jobs/Receipts.antt =====
-- What a written row and a receipt of `_emit_job_transition`, of
-- eidolon_agent/infra/persistence/agent_runtime.py, add to the life of a task.
use eidolon_agent.Base.{
  ◌≡◌, refl, sym, ap, ◌∙◌, Bool, true, false, not, ◌&&◌, Option, none, some, List, [], ◌∷◌, ◌++◌,
  String, map, arith, if◌then◌else◌, str_eq, Bool-cases, inl, inr, append-nil, is_some,
}
use eidolon_agent.Base.Dict.{Dict, lookup, insert, lookup-insert}
use eidolon_agent.LongTasks.{LongTaskRecord, LongTaskStatus, is_terminal}
use eidolon_agent.LongTasks.Rows.{JobRow}
use eidolon_agent.LongTasks.Jobs.{
  Receipt, emit_job_transition, emit_event, same_status, receipt_of, job_status_event,
}
use eidolon_agent.LongTasks.Jobs.Lifecycle.{status_at, status_in, is_about, ends_in}

pub status_in-insert :
    (id j : String) (row : JobRow) (rows : Dict JobRow)
    → status_in id (insert j row rows)
      ≡ (if str_eq j id then some row.status else status_in id rows)
status_in-insert id j row rows = ap status_at (lookup-insert j id row rows) ∙ by_key (str_eq j id)
  where
    by_key :
        (b : Bool)
        → status_at (if b then some row else lookup id rows)
          ≡ (if b then some row.status else status_in id rows)
    by_key true = refl
    by_key false = refl

ends_in-append :
    (id : String) (rs qs : List Receipt) → ends_in id (rs ++ qs) ≡ ends_in id rs ++ ends_in id qs
ends_in-append id [] qs = refl
ends_in-append id (r ∷ rs) qs = elim (Bool-cases (is_about id r)) [
  | inl t ↦ rw t (ap (λ z. r.payload_status ∷ z) (ends_in-append id rs qs))
  | inr t ↦ rw t (ends_in-append id rs qs)
]

either_same {ℓ} : {A : Type ℓ} (b : Bool) (x : A) → (if b then x else x) ≡ x
either_same true x = refl
either_same false x = refl

-- The ends that are recorded when this task comes to that status from the other.
abbrev pub ends_with :
    Bool → LongTaskStatus → LongTaskStatus → List LongTaskStatus → List LongTaskStatus
ends_with b st before es =
    if b
    then (if is_terminal st && not (same_status st before) then es ++ (st ∷ []) else es)
    else es

ends_in-emit :
    (id event : String) (after : LongTaskRecord) (rs : List Receipt)
    → ends_in id (rs ++ (receipt_of event after ∷ []))
      ≡ (if str_eq after.id id then ends_in id rs ++ (after.status ∷ []) else ends_in id rs)
ends_in-emit id event after rs =
    ends_in-append id rs (receipt_of event after ∷ []) ∙ by_key (str_eq after.id id)
  where
    by_key :
        (b : Bool)
        → ends_in id rs
            ++ map
                (λ (r : Receipt). r.payload_status)
                (if b then receipt_of event after ∷ [] else [])
          ≡ (if b then ends_in id rs ++ (after.status ∷ []) else ends_in id rs)
    by_key true = refl
    by_key false = append-nil (ends_in id rs)

ends_in-emit_event :
    (id : String) (o : Option String) (b : Bool) (after : LongTaskRecord) (rs : List Receipt)
    → ends_in id (emit_event o b after rs) ≡ (
        if str_eq after.id id
        then (if is_some o && not b then ends_in id rs ++ (after.status ∷ []) else ends_in id rs)
        else ends_in id rs)
unfolding emit_event
ends_in-emit_event id none b after rs = sym (either_same (str_eq after.id id) (ends_in id rs))
ends_in-emit_event id (some e) true after rs =
    sym (either_same (str_eq after.id id) (ends_in id rs))
ends_in-emit_event id (some e) false after rs = ends_in-emit id e after rs

event_of_end : (st : LongTaskStatus) → is_some (job_status_event st) ≡ is_terminal st
event_of_end st = ground arith

pub ends_in-transition :
    (id : String) (before : LongTaskStatus) (after : LongTaskRecord) (rs : List Receipt)
    → ends_in id (emit_job_transition before after rs)
      ≡ ends_with (str_eq after.id id) after.status before (ends_in id rs)
unfolding emit_job_transition
ends_in-transition id before after rs =
    ends_in-emit_event id (job_status_event after.status) (same_status after.status before) after rs
    ∙ ap
        (λ z.
          if str_eq after.id id
          then (if z && not (same_status after.status before)
              then ends_in id rs ++ (after.status ∷ [])
              else ends_in id rs)
          else ends_in id rs)
        (event_of_end after.status)
