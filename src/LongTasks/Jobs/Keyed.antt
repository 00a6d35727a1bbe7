-- ===== src/LongTasks/Jobs/Keyed.antt =====
-- The primary key of the jobs table: a row stands under its own id, whatever the store does.
use eidolon_agent.Base.{
  ℕ, ◌≡◌, refl, sym, ap, ◌∙◌, Option, none, some, [], ◌∷◌, String, subst, str_eq, eq_iff,
  Option-cases, Bool-cases, inl, inr, some_inj,
}
use eidolon_agent.Base.Dict.{Dict, lookup, insert}
use eidolon_agent.LongTasks.{LongTaskRecord, is_pending}
use eidolon_agent.LongTasks.Rows.{
  JobRow, record_to_job_row, apply_record_to_job_row, job_row_to_record,
}
use eidolon_agent.LongTasks.Jobs.{
  JobStore, dated, accept, accept_row, update_row, claim_row, update, mark_queued, mark_submitted,
  attach_mementos_run, append_progress, touch_poll, complete, set_result_tts_summary, mark_failed,
  retry_from_admin, claim_callback_delivery,
}
use eidolon_agent.LongTasks.Jobs.Lifecycle.{
  StoreCall, accepts, queues, submits, attaches, progresses, polls, completes, summarizes, fails,
  retries, claims, perform,
}

abbrev pub IsKeyed : Dict JobRow → Type 0
IsKeyed [] = Unit
IsKeyed ((k, row) ∷ rows) = (row.job_id ≡ k) × IsKeyed rows

pub lookup_keyed :
    (k : String) (row : JobRow) (rows : Dict JobRow)
    → IsKeyed rows
    → lookup k rows ≡ some row
    → row.job_id ≡ k
unfolding lookup
lookup_keyed k row [] w h = cc h
lookup_keyed k row ((j, v) ∷ rows) (e, w) h = elim (Bool-cases (str_eq j k)) [
  | inl t ↦
      let g : some v ≡ some row = rw t at h in
      ap (λ (r : JobRow). r.job_id) (sym (some_inj g)) ∙ e ∙ (eq_iff j k).0 t
  | inr t ↦ lookup_keyed k row rows w (rw t at h)
]

pub insert-IsKeyed :
    (k : String) (row : JobRow) (rows : Dict JobRow)
    → IsKeyed rows
    → row.job_id ≡ k
    → IsKeyed (insert k row rows)
unfolding insert
insert-IsKeyed k row [] w e = (e, tt)
insert-IsKeyed k row ((j, v) ∷ rows) (d, w) e = elim (Bool-cases (str_eq j k)) [
  | inl t ↦ rw t (e ∙ sym ((eq_iff j k).0 t), w)
  | inr t ↦ rw t (d, insert-IsKeyed k row rows w e)
]

-- A row that may be there, under this key.
abbrev pub IsUnder : String → Option JobRow → Type 0
IsUnder k none = Unit
IsUnder k (some row) = row.job_id ≡ k

pub lookup-IsUnder : (k : String) (rows : Dict JobRow) → IsKeyed rows → IsUnder k (lookup k rows)
lookup-IsUnder k rows w = elim (Option-cases (lookup k rows)) [
  | inl e ↦ subst (IsUnder k) (sym e) tt
  | inr (row, e) ↦ subst (IsUnder k) (sym e) (lookup_keyed k row rows w e)
]

update-IsKeyed :
    (id : String) (m : LongTaskRecord → ℕ → LongTaskRecord) (now : ℕ) (s : JobStore)
    → IsKeyed s.rows
    → IsKeyed (update id m now s).1.rows
unfolding update update_row apply_record_to_job_row
update-IsKeyed id m now s w = by_row (lookup id s.rows) (lookup-IsUnder id s.rows w)
  where
    by_row : (o : Option JobRow) → IsUnder id o → IsKeyed (update_row id m now s o).1.rows
    by_row none _ = w
    by_row (some row) e = insert-IsKeyed id _ s.rows w e

claim-IsKeyed :
    (id subject : String) (now : ℕ) (s : JobStore)
    → IsKeyed s.rows
    → IsKeyed (claim_callback_delivery id subject now s).1.rows
unfolding claim_callback_delivery claim_row apply_record_to_job_row job_row_to_record
claim-IsKeyed id subject now s w = by_row (lookup id s.rows) (lookup-IsUnder id s.rows w)
  where
    by_row : (o : Option JobRow) → IsUnder id o → IsKeyed (claim_row id subject now s o).1.rows
    by_row none _ = w
    by_row (some row) e = elim (Bool-cases (is_pending row.input_json.callback_status)) [
      | inl p ↦ rw p (insert-IsKeyed id _ s.rows w e)
      | inr p ↦ rw p w
    ]

accept-IsKeyed :
    (r : LongTaskRecord) (now : ℕ) (s : JobStore) → IsKeyed s.rows → IsKeyed (accept r now s).rows
unfolding accept accept_row apply_record_to_job_row record_to_job_row
accept-IsKeyed r now s w = by_row (lookup r.id s.rows) (lookup-IsUnder r.id s.rows w)
  where
    by_row : (o : Option JobRow) → IsUnder r.id o → IsKeyed (accept_row (dated r now) now s o).rows
    by_row none _ = insert-IsKeyed r.id _ s.rows w refl
    by_row (some row) e = insert-IsKeyed r.id _ s.rows w e

-- Every call keeps the rows under their ids.
pub perform-IsKeyed :
    (c : StoreCall) (now : ℕ) (s : JobStore) → IsKeyed s.rows → IsKeyed (perform c now s).rows
unfolding perform mark_queued mark_submitted attach_mementos_run append_progress touch_poll complete
    set_result_tts_summary mark_failed retry_from_admin
perform-IsKeyed (accepts r) now s w = accept-IsKeyed r now s w
perform-IsKeyed (claims id subject) now s w = claim-IsKeyed id subject now s w
perform-IsKeyed (queues id a l) now s w = update-IsKeyed id _ now s w
perform-IsKeyed (submits id) now s w = update-IsKeyed id _ now s w
perform-IsKeyed (attaches id a) now s w = update-IsKeyed id _ now s w
perform-IsKeyed (progresses id a t l) now s w = update-IsKeyed id _ now s w
perform-IsKeyed (polls id l t) now s w = update-IsKeyed id _ now s w
perform-IsKeyed (completes id o) now s w = update-IsKeyed id _ now s w
perform-IsKeyed (summarizes id t) now s w = update-IsKeyed id _ now s w
perform-IsKeyed (fails id f) now s w = update-IsKeyed id _ now s w
perform-IsKeyed (retries id) now s w = update-IsKeyed id _ now s w
