-- ===== src/LongTasks/Jobs/Refines.antt =====
-- The job store implements the abstract life of each of its tasks.
use eidolon_agent.Base.{
  ℕ, ◌≡◌, refl, ap, ◌∙◌, Bool, true, false, Option, none, some, List, [], ◌∷◌, String, arith, subst,
  if◌then◌else◌, str_eq, eq_iff, Bool-cases, inl, inr,
}
use eidolon_agent.Base.Dict.{lookup}
use eidolon_agent.LongTasks.{
  LongTaskRecord, LongTaskStatus, accepted, queued, submitted, running, succeeded, is_pending,
}
use eidolon_agent.LongTasks.Rows.{
  JobRow, record_to_job_row, apply_record_to_job_row, job_row_to_record,
}
use eidolon_agent.LongTasks.Jobs.{
  JobStore, accept, update, mark_queued, mark_submitted, attach_mementos_run, append_progress,
  touch_poll, complete, set_result_tts_summary, mark_failed, retry_from_admin,
  claim_callback_delivery, emit_job_transition, dated, accept_row, set_claimed, update_row,
  claim_row,
}
use eidolon_agent.LongTasks.Jobs.Lifecycle.{
  StoreCall, accepts, queues, submits, attaches, progresses, polls, completes, summarizes, fails,
  retries, claims, perform, perform_all, Life, moved_if, live, live_all, status_in, ends_in,
  life_of,
}
use eidolon_agent.LongTasks.Jobs.Keyed.{IsKeyed, IsUnder, lookup-IsUnder, perform-IsKeyed}
use eidolon_agent.LongTasks.Jobs.Receipts.{status_in-insert, ends_with, ends_in-transition}

abbrev life_with : Option LongTaskStatus → List LongTaskStatus → Life
life_with st es = record { status = st; ends = es }

-- An update moves a task that there is, by its own key.
moved_by_key :
    (id j : String) (st : LongTaskStatus) (s : JobStore) (row : JobRow)
    → lookup j s.rows ≡ some row
    → life_with
        (if str_eq j id then some st else status_in id s.rows)
        (ends_with (str_eq j id) st row.status (ends_in id s.receipts))
      ≡ moved_if (str_eq j id) st (life_of id s)
unfolding life_of
moved_by_key id j st s row e = elim (Bool-cases (str_eq j id)) [
  | inl t ↦
      let f : lookup id s.rows ≡ some row =
        subst (λ k. lookup k s.rows ≡ some row) ((eq_iff j id).0 t) e in
      rw (t, f) refl
  | inr t ↦ rw t refl
]

stays_by_key :
    (id j : String) (st : LongTaskStatus) (s : JobStore)
    → lookup j s.rows ≡ none
    → life_of id s ≡ moved_if (str_eq j id) st (life_of id s)
unfolding life_of
stays_by_key id j st s e = elim (Bool-cases (str_eq j id)) [
  | inl t ↦
      let f : lookup id s.rows ≡ none = subst (λ k. lookup k s.rows ≡ none) ((eq_iff j id).0 t) e in
      rw (t, f) refl
  | inr t ↦ rw t refl
]

module _ (id j : String) (m : LongTaskRecord → ℕ → LongTaskRecord) (now : ℕ) (s : JobStore) where
  -- The life of a task after an update whose new status is given for the row that there is.
  life-update_row :
      (o : Option JobRow)
      → IsUnder j o
      → lookup j s.rows ≡ o
      → (st : LongTaskStatus)
      → ((r : LongTaskRecord) → ((m r now).id ≡ r.id) × ((m r now).status ≡ st))
      → life_of id (update_row j m now s o).1 ≡ moved_if (str_eq j id) st (life_of id s)
  unfolding life_of update_row apply_record_to_job_row job_row_to_record
  life-update_row none u e st h = stays_by_key id j st s e
  life-update_row (some row) u e st h =
      ap (λ z. life_with z (ends_in id (emit_job_transition before.status after s.receipts)))
        (status_in-insert id j (apply_record_to_job_row now row after) s.rows)
      ∙ ap (λ z. life_with (if str_eq j id then some after.status else status_in id s.rows) z)
          (ends_in-transition id before.status after s.receipts)
      ∙ rw ((h before).0, (h before).1, u) (moved_by_key id j st s row e)
    where
      before : LongTaskRecord
      before = job_row_to_record row

      after : LongTaskRecord
      after = m before now

  life-update :
      IsKeyed s.rows
      → (st : LongTaskStatus)
      → ((r : LongTaskRecord) → ((m r now).id ≡ r.id) × ((m r now).status ≡ st))
      → life_of id (update j m now s).1 ≡ moved_if (str_eq j id) st (life_of id s)
  unfolding update
  life-update w = life-update_row (lookup j s.rows) (lookup-IsUnder j s.rows w) refl

  kept_by_key :
      (row : JobRow)
      → lookup j s.rows ≡ some row
      → (if str_eq j id then some row.status else status_in id s.rows) ≡ status_in id s.rows
  kept_by_key row e = elim (Bool-cases (str_eq j id)) [
    | inl t ↦
        let f : lookup id s.rows ≡ some row =
          subst (λ k. lookup k s.rows ≡ some row) ((eq_iff j id).0 t) e in
        rw (t, f) refl
    | inr t ↦ rw t refl
  ]

  no_end : (b : Bool) (st : LongTaskStatus) (es : List LongTaskStatus) → ends_with b st st es ≡ es
  no_end b st es = ground arith

  -- An update that leaves the status leaves the life of every task.
  life-still :
      IsKeyed s.rows
      → ((r : LongTaskRecord) → ((m r now).id ≡ r.id) × ((m r now).status ≡ r.status))
      → life_of id (update j m now s).1 ≡ life_of id s
  unfolding update life_of update_row apply_record_to_job_row job_row_to_record
  life-still w h = by_row (lookup j s.rows) (lookup-IsUnder j s.rows w) refl
    where
      by_row :
          (o : Option JobRow)
          → IsUnder j o
          → lookup j s.rows ≡ o
          → life_of id (update_row j m now s o).1 ≡ life_of id s
      by_row none u e = refl
      by_row (some row) u e =
          let before : LongTaskRecord = job_row_to_record row in
          let after : LongTaskRecord = m before now in
          ap (λ z. life_with z (ends_in id (emit_job_transition before.status after s.receipts)))
            (status_in-insert id j (apply_record_to_job_row now row after) s.rows)
          ∙ ap (λ z. life_with (if str_eq j id then some after.status else status_in id s.rows) z)
              (ends_in-transition id before.status after s.receipts)
          ∙ rw ((h before).1) (
              ap (life_with (if str_eq j id then some row.status else status_in id s.rows))
                (no_end (str_eq after.id id) row.status (ends_in id s.receipts))
              ∙ ap (λ z. life_with z (ends_in id s.receipts)) (kept_by_key row e))

life-claim :
    (id j subject : String) (now : ℕ) (s : JobStore)
    → life_of id (claim_callback_delivery j subject now s).1 ≡ life_of id s
unfolding claim_callback_delivery claim_row life_of apply_record_to_job_row job_row_to_record
life-claim id j subject now s = by_row (lookup j s.rows) refl
  where
    by_row :
        (o : Option JobRow)
        → lookup j s.rows ≡ o
        → life_of id (claim_row j subject now s o).1 ≡ life_of id s
    by_row none e = refl
    by_row (some row) e =
        let r : LongTaskRecord = job_row_to_record row in
        elim (Bool-cases (is_pending row.input_json.callback_status)) [
          | inl p ↦ rw p (
              ap (λ z. life_with z (ends_in id s.receipts))
                (status_in-insert id j (apply_record_to_job_row now row (set_claimed subject r now))
                    s.rows
                  ∙ kept_by_key id j (λ x _. x) now s row e))
          | inr p ↦ rw p refl
        ]

life-accept :
    (id : String) (r : LongTaskRecord) (now : ℕ) (s : JobStore)
    → life_of id (accept r now s) ≡ live id (accepts r) (life_of id s)
unfolding accept accept_row life_of live apply_record_to_job_row record_to_job_row
life-accept id r now s = by_row (lookup r.id s.rows)
  where
    by_key :
        (b : Bool)
        → life_with (if b then some r.status else status_in id s.rows) (ends_in id s.receipts)
          ≡ (if b then life_with (some r.status) (ends_in id s.receipts) else life_of id s)
    by_key true = refl
    by_key false = refl

    by_row :
        (o : Option JobRow)
        → life_of id (accept_row (dated r now) now s o) ≡ live id (accepts r) (life_of id s)
    by_row none =
        ap (λ z. life_with z (ends_in id s.receipts))
          (status_in-insert id r.id (record_to_job_row now (dated r now)) s.rows)
        ∙ by_key (str_eq r.id id)
    by_row (some row) =
        ap (λ z. life_with z (ends_in id s.receipts))
          (status_in-insert id r.id (apply_record_to_job_row now row (dated r now)) s.rows)
        ∙ by_key (str_eq r.id id)

pub life-perform :
    (id : String) (c : StoreCall) (now : ℕ) (s : JobStore)
    → IsKeyed s.rows
    → life_of id (perform c now s) ≡ live id c (life_of id s)
unfolding perform live mark_queued mark_submitted attach_mementos_run append_progress touch_poll
    complete set_result_tts_summary mark_failed retry_from_admin
life-perform id (accepts r) now s w = life-accept id r now s
life-perform id (queues j a l) now s w = life-update id j _ now s w queued (λ r. (refl, refl))
life-perform id (submits j) now s w = life-update id j _ now s w submitted (λ r. (refl, refl))
life-perform id (attaches j a) now s w = life-update id j _ now s w running (λ r. (refl, refl))
life-perform id (progresses j a t l) now s w =
    life-update id j _ now s w running (λ r. (refl, refl))
life-perform id (completes j o) now s w = life-update id j _ now s w succeeded (λ r. (refl, refl))
life-perform id (fails j f) now s w = life-update id j _ now s w f.end (λ r. (refl, refl))
life-perform id (retries j) now s w = life-update id j _ now s w accepted (λ r. (refl, refl))
life-perform id (polls j l t) now s w = life-still id j _ now s w (λ r. (refl, refl))
life-perform id (summarizes j t) now s w = life-still id j _ now s w (λ r. (refl, refl))
life-perform id (claims j subject) now s w = life-claim id j subject now s

-- Whatever calls any clients make, in whatever order and at whatever times, on a table whose rows
-- stand under their ids: the status of each task and the sequence of its receipts in the audit
-- outbox are those of its abstract life, which no call for another task changes.
pub life-perform_all :
    (id : String) (cs : List (StoreCall × ℕ)) (s : JobStore)
    → IsKeyed s.rows
    → life_of id (perform_all cs s) ≡ live_all id cs (life_of id s)
unfolding perform_all live_all
life-perform_all id [] s w = refl
life-perform_all id ((c, now) ∷ cs) s w =
    life-perform_all id cs (perform c now s) (perform-IsKeyed c now s w)
    ∙ ap (live_all id cs) (life-perform id c now s w)
