-- ===== src/LongTasks/Jobs/Callback.antt =====
-- The claim of the proactive report of a task: who wins it among all the calls of the store.
use eidolon_agent.Base.{
  ℕ, suc, ◌≡◌, refl, ap, ◌∙◌, Bool, true, false, not, ◌&&◌, Option, none, some, List, [], ◌∷◌,
  String, arith, subst, if◌then◌else◌, str_eq, eq_iff, any, All, Bool-cases, inl, inr,
}
use eidolon_agent.Base.Dict.{Dict, lookup, insert, lookup-insert}
use eidolon_agent.LongTasks.{LongTaskRecord, is_pending}
use eidolon_agent.LongTasks.Rows.{
  JobRow, record_to_job_row, apply_record_to_job_row, job_row_to_record,
}
use eidolon_agent.LongTasks.Jobs.{
  JobStore, accept, accept_row, dated, update, update_row, claim_callback_delivery, claim_row,
  set_claimed, mark_queued, mark_submitted, attach_mementos_run, append_progress, touch_poll,
  complete, set_result_tts_summary, mark_failed, retry_from_admin,
}
use eidolon_agent.LongTasks.Jobs.Lifecycle.{
  StoreCall, accepts, queues, submits, attaches, progresses, polls, completes, summarizes, fails,
  retries, claims, perform,
}

abbrev pub accepts_task : String → StoreCall → Bool
accepts_task id (accepts r) = str_eq r.id id
accepts_task id _ = false

abbrev pub claims_task : String → StoreCall → Bool
claims_task id (claims j _) = str_eq j id
claims_task id _ = false

abbrev open_at : Option JobRow → Bool
open_at none = false
open_at (some row) = is_pending row.input_json.callback_status

-- Is the report of this task to be claimed still?
unfoldable pub is_unclaimed : String → JobStore → Bool
is_unclaimed id s = open_at (lookup id s.rows)

abbrev wins : String → StoreCall → ℕ → JobStore → Bool
wins id (claims j subject) now s = str_eq j id && (claim_callback_delivery j subject now s).0
wins id _ now s = false

-- The claims of a task that are answered with true.
unfoldable pub claims_won : String → List (StoreCall × ℕ) → JobStore → ℕ
claims_won id [] s = 0
claims_won id ((c, now) ∷ cs) s =
    let rest = claims_won id cs (perform c now s) in if wins id c now s then suc rest else rest

module _ (id j : String) (row : JobRow) (rows : Dict JobRow) where
  open-insert :
      open_at (lookup id (insert j row rows))
      ≡ (if str_eq j id then open_at (some row) else open_at (lookup id rows))
  open-insert = ap open_at (lookup-insert j id row rows) ∙ by_key (str_eq j id)
    where
      by_key :
          (b : Bool)
          → open_at (if b then some row else lookup id rows)
            ≡ (if b then open_at (some row) else open_at (lookup id rows))
      by_key true = refl
      by_key false = refl

  open-insert_same :
      (old : JobRow)
      → lookup j rows ≡ some old
      → open_at (some row) ≡ open_at (some old)
      → open_at (lookup id (insert j row rows)) ≡ open_at (lookup id rows)
  open-insert_same old e h = open-insert ∙ elim (Bool-cases (str_eq j id)) [
    | inl t ↦
        let f : lookup id rows ≡ some old =
          subst (λ k. lookup k rows ≡ some old) ((eq_iff j id).0 t) e in
        rw (t, f) h
    | inr t ↦ rw t refl
  ]

open-update :
    (id j : String) (m : LongTaskRecord → ℕ → LongTaskRecord) (now : ℕ) (s : JobStore)
    → ((r : LongTaskRecord) → (m r now).callback_status ≡ r.callback_status)
    → is_unclaimed id (update j m now s).1 ≡ is_unclaimed id s && true
unfolding is_unclaimed update update_row apply_record_to_job_row job_row_to_record
open-update id j m now s h = by_row (lookup j s.rows) refl
  where
    and_true : (b : Bool) → b ≡ b && true
    and_true b = ground arith

    by_row :
        (o : Option JobRow)
        → lookup j s.rows ≡ o
        → is_unclaimed id (update_row j m now s o).1 ≡ is_unclaimed id s && true
    by_row none e = and_true (is_unclaimed id s)
    by_row (some row) e =
        open-insert_same id j (apply_record_to_job_row now row (m (job_row_to_record row) now))
          s.rows row e (ap is_pending (h (job_row_to_record row)))
        ∙ and_true (is_unclaimed id s)

open-claim :
    (id j subject : String) (now : ℕ) (s : JobStore)
    → (is_unclaimed id (claim_callback_delivery j subject now s).1
        ≡ is_unclaimed id s && not (str_eq j id))
      × (str_eq j id && (claim_callback_delivery j subject now s).0
          ≡ str_eq j id && is_unclaimed id s)
unfolding is_unclaimed claim_callback_delivery claim_row apply_record_to_job_row job_row_to_record
open-claim id j subject now s = by_row (lookup j s.rows) refl
  where
    Claimed : Bool × JobStore → Type 0
    Claimed z =
        (is_unclaimed id z.1 ≡ is_unclaimed id s && not (str_eq j id))
        × (str_eq j id && z.0 ≡ str_eq j id && is_unclaimed id s)

    here :
        (o : Option JobRow)
        → lookup j s.rows ≡ o
        → str_eq j id ≡ true
        → is_unclaimed id s ≡ open_at o
    here o e t = ap open_at (subst (λ k. lookup k s.rows ≡ o) ((eq_iff j id).0 t) e)

    kept : (o : Option JobRow) → lookup j s.rows ≡ o → open_at o ≡ false → Claimed (false, s)
    kept o e c = elim (Bool-cases (str_eq j id)) [
      | inl t ↦ let u : is_unclaimed id s ≡ false = here o e t ∙ c in rw (t, u) (refl, refl)
      | inr t ↦ ground arith
    ]

    won :
        (row : JobRow)
        → lookup j s.rows ≡ some row
        → open_at (some row) ≡ true
        → Claimed (
          true,
          record s {
            rows =
                insert j
                  (apply_record_to_job_row now row
                    (set_claimed subject (job_row_to_record row) now))
                  s.rows;
          },
        )
    won row e p =
        let f =
          open-insert id j
            (apply_record_to_job_row now row (set_claimed subject (job_row_to_record row) now))
            s.rows in
        elim (Bool-cases (str_eq j id)) [
          | inl t ↦
              let u : is_unclaimed id s ≡ true = here (some row) e t ∙ p in
              (f ∙ rw (t, u) refl, rw (t, u) refl)
          | inr t ↦ (f ∙ rw t (ground arith), rw t refl)
        ]

    by_row : (o : Option JobRow) → lookup j s.rows ≡ o → Claimed (claim_row j subject now s o)
    by_row none e = kept none e refl
    by_row (some row) e = elim (Bool-cases (is_pending row.input_json.callback_status)) [
      | inl p ↦ rw p (won row e p)
      | inr p ↦ rw p (kept (some row) e p)
    ]

open-accept :
    (id : String) (r : LongTaskRecord) (now : ℕ) (s : JobStore)
    → str_eq r.id id ≡ false
    → is_unclaimed id (accept r now s) ≡ is_unclaimed id s && true
unfolding is_unclaimed accept accept_row
open-accept id r now s t = by_row (lookup r.id s.rows)
  where
    other :
        (row : JobRow) → open_at (lookup id (insert r.id row s.rows)) ≡ is_unclaimed id s && true
    other row = open-insert id r.id row s.rows ∙ rw t (ground arith)

    by_row :
        (o : Option JobRow)
        → is_unclaimed id (accept_row (dated r now) now s o) ≡ is_unclaimed id s && true
    by_row none = other (record_to_job_row now (dated r now))
    by_row (some row) = other (apply_record_to_job_row now row (dated r now))

-- After a call the claim is open if it was and the call was not itself a claim; and a claim is won
-- if it was open.
open-perform :
    (id : String) (c : StoreCall) (now : ℕ) (s : JobStore)
    → accepts_task id c ≡ false
    → (is_unclaimed id (perform c now s) ≡ is_unclaimed id s && not (claims_task id c))
      × (wins id c now s ≡ claims_task id c && is_unclaimed id s)
unfolding perform mark_queued mark_submitted attach_mementos_run append_progress touch_poll complete
    set_result_tts_summary mark_failed retry_from_admin
open-perform id (accepts r) now s h = (open-accept id r now s h, refl)
open-perform id (claims j subject) now s h = open-claim id j subject now s
open-perform id (queues j a l) now s h = (open-update id j _ now s (λ r. refl), refl)
open-perform id (submits j) now s h = (open-update id j _ now s (λ r. refl), refl)
open-perform id (attaches j a) now s h = (open-update id j _ now s (λ r. refl), refl)
open-perform id (progresses j a t l) now s h = (open-update id j _ now s (λ r. refl), refl)
open-perform id (completes j o) now s h = (open-update id j _ now s (λ r. refl), refl)
open-perform id (fails j f) now s h = (open-update id j _ now s (λ r. refl), refl)
open-perform id (retries j) now s h = (open-update id j _ now s (λ r. refl), refl)
open-perform id (polls j l t) now s h = (open-update id j _ now s (λ r. refl), refl)
open-perform id (summarizes j t) now s h = (open-update id j _ now s (λ r. refl), refl)

-- Among any calls of the store in any order, in which the task is not accepted anew: one claim of
-- its report is won if the report was pending and any call claims it, and otherwise none.
pub claims_won_once :
    (id : String) (cs : List (StoreCall × ℕ)) (s : JobStore)
    → All (λ (c : StoreCall × ℕ). accepts_task id c.0 ≡ false) cs
    → claims_won id cs s
      ≡ (if is_unclaimed id s && any (λ (c : StoreCall × ℕ). claims_task id c.0) cs then 1 else 0)
unfolding claims_won
claims_won_once id [] s h = ground arith
claims_won_once id ((c, now) ∷ cs) s (h, hs) =
    ground (arith, open-perform id c now s h, claims_won_once id cs (perform c now s) hs)
