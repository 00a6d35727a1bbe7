-- ===== src/LongTasks/Admin/Cancel.antt =====
-- What the answers of the cancel route say is what the store holds.
use eidolon_agent.Base.{
  ℕ, ◌≡◌, ◌⊎◌, inl, inr, refl, sym, ap, ◌∙◌, subst, true, false, not, Option, none, some, String,
  arith, str_eq, eq_iff, eq_refl, some_inj, if-elim,
}
use eidolon_agent.LongTasks.{LongTaskRecord, LongTaskStatus, cancelled, is_terminal}
use eidolon_agent.LongTasks.Jobs.{JobStore, get, mark_failed, set_failed, same_status}
use eidolon_agent.LongTasks.Jobs.Keyed.{IsKeyed}
use eidolon_agent.LongTasks.Jobs.Reads.{mapped, get-update}
use eidolon_agent.LongTasks.Admin.{
  Reply, detail, conflict, not_found, cancellation, detail_or_404, cancel_current, cancel_long_task,
}

same_status_iff : (a b : LongTaskStatus) → same_status a b ≡ true → a ≡ b
same_status_iff a b h = ground arith

-- A task that is there is another owner's.
abbrev pub IsForeign : String → String → JobStore → Type 0
IsForeign id owner s = (c : LongTaskRecord) → get id s ≡ some c → str_eq c.owner_id owner ≡ false

pub no_task_of :
    (id owner : String) (s : JobStore) (r : LongTaskRecord)
    → get id s ≡ some r
    → str_eq r.owner_id owner ≡ false
    → IsForeign id owner s
no_task_of id owner s r e b c f =
    subst (λ (z : LongTaskRecord). str_eq z.owner_id owner ≡ false) (some_inj (sym e ∙ f)) b

-- The task was there under its owner, and either not over yet or cancelled already; in that case
-- nothing is written.
abbrev WasOpen : String → String → JobStore → JobStore → Type 0
WasOpen id owner s t =
    (c : LongTaskRecord) × (get id s ≡ some c)
    × (c.owner_id ≡ owner)
    × ((is_terminal c.status ≡ false) ⊎ ((c.status ≡ cancelled) × (t ≡ s)))

-- What a cancel of an owner's task answers of the store it found and the one it left.
abbrev pub IsTold : String → String → JobStore → Reply × JobStore → Type 0
IsTold id owner s (detail r, t) =
    (get id t ≡ some r) × (r.status ≡ cancelled) × (r.owner_id ≡ owner) × WasOpen id owner s t
IsTold id owner s (conflict st, t) =
    (t ≡ s)
    × ((c : LongTaskRecord) × (get id s ≡ some c)
        × (c.owner_id ≡ owner)
        × (c.status ≡ st)
        × (is_terminal st ≡ true))
IsTold id owner s (not_found, t) = (t ≡ s) × IsForeign id owner s
IsTold id owner s (_, t) = ⊥

module _ (id owner : String) (now : ℕ) (s : JobStore) (w : IsKeyed s.rows) where
  marked :
      (r : LongTaskRecord)
      → get id s ≡ some r
      → (mark_failed id cancellation now s).0 ≡ some (set_failed cancellation r now)
  unfolding mark_failed
  marked r e =
      (get-update id id (set_failed cancellation) now s (λ x. (refl, refl, refl)) w).0
      ∙ ap (mapped (λ x. set_failed cancellation x now)) e

  reads_marked :
      (r : LongTaskRecord)
      → get id s ≡ some r
      → get id (mark_failed id cancellation now s).1 ≡ some (set_failed cancellation r now)
  unfolding mark_failed
  reads_marked r e =
      (get-update id id (set_failed cancellation) now s (λ x. (refl, refl, refl)) w).1
      ∙ rw (eq_refl id, e) refl

  -- For a table whose rows stand under their ids: a cancel that answers with the task leaves it
  -- cancelled, as answered and of this owner, and found it not over yet, or cancelled before, with
  -- nothing written; a conflict names the status of a task of this owner that is over, and 404 says
  -- that no task of this owner is there; both leave the store as it was.
  pub cancel_long_task-IsTold : IsTold id owner s (cancel_long_task id owner now s)
  unfolding cancel_long_task
  cancel_long_task-IsTold = by_current (get id s) refl
    where
      told :
          (o : Option LongTaskRecord) (r : LongTaskRecord)
          → o ≡ some (set_failed cancellation r now)
          → get id s ≡ some r
          → r.owner_id ≡ owner
          → is_terminal r.status ≡ false
          → IsTold id owner s (detail_or_404 o, (mark_failed id cancellation now s).1)
      told none r e f g h = cc e
      told (some x) r e f g h = (
        reads_marked r f ∙ sym e,
        ap (λ (z : LongTaskRecord). z.status) (some_inj e),
        ap (λ (z : LongTaskRecord). z.owner_id) (some_inj e) ∙ g,
        (r, f, g, inl h),
      )

      by_current :
          (o : Option LongTaskRecord)
          → get id s ≡ o
          → IsTold id owner s (cancel_current id owner now o s)
      by_current none e = (refl, λ c f. cc (sym e ∙ f))
      by_current (some r) e =
          if-elim (IsTold id owner s) (not (str_eq r.owner_id owner)) _ _
            (λ b. (refl, no_task_of id owner s r e (ground (arith, b))))
            (λ b.
              let own : r.owner_id ≡ owner = (eq_iff r.owner_id owner).0 (ground arith) in
              if-elim (IsTold id owner s) (same_status r.status cancelled) _ _
                (λ c.
                  let is = same_status_iff r.status cancelled c in
                  (e, is, own, (r, e, own, inr (is, refl))))
                (λ _.
                  if-elim (IsTold id owner s) (is_terminal r.status) _ _
                    (λ t. (refl, (r, e, own, refl, t))) (λ t. told _ r (marked r e) e own t)))
