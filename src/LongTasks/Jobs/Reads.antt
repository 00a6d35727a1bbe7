-- ===== src/LongTasks/Jobs/Reads.antt =====
-- What a read of the job store gives after a write.
use eidolon_agent.Base.{
  ℕ, ◌≡◌, refl, sym, ap, ◌∙◌, Bool, true, false, Option, none, some, String, subst, if◌then◌else◌,
  or_else, is_some, str_eq, eq_iff, Bool-cases, inl, inr,
}
use eidolon_agent.Base.Dict.{lookup, insert, lookup-insert}
use eidolon_agent.LongTasks.{LongTaskRecord}
use eidolon_agent.LongTasks.Rows.{
  JobRow, or_option, record_to_job_row, apply_record_to_job_row, job_row_to_record,
}
use eidolon_agent.LongTasks.Jobs.{
  JobStore, accept, accept_row, dated, get, update, update_row, record_at,
}
use eidolon_agent.LongTasks.Jobs.Keyed.{IsKeyed, IsUnder, lookup-IsUnder}

-- A mutator of `_update`: it keeps the id and the time of creation, and sets the time of the update.
abbrev pub Mutates : (LongTaskRecord → LongTaskRecord) → LongTaskRecord → Type 0
Mutates m r =
    ((m r).id ≡ r.id) × ((m r).created_at ≡ r.created_at) × (is_some (m r).updated_at ≡ true)

or_some_same : (o : Option ℕ) (d : ℕ) → is_some o ≡ true → or_option o (some d) ≡ o
or_some_same none d h = cc h
or_some_same (some t) d h = refl

or_self : (o : Option ℕ) → or_option o o ≡ o
or_self none = refl
or_self (some t) = refl

written :
    (now : ℕ) (row : JobRow) (x : LongTaskRecord)
    → row.job_id ≡ x.id
    → is_some x.created_at ≡ true
    → is_some x.updated_at ≡ true
    → job_row_to_record (apply_record_to_job_row now row x) ≡ x
unfolding job_row_to_record apply_record_to_job_row
written now row x e c u =
    let f = λ (i : String) (a : Option ℕ) (b : Option ℕ) (d : Option ℕ). with_four i a b d in
    ap
      (λ i.
        f i (or_option x.created_at (some row.created_at))
          (or_option x.updated_at (some (or_else x.updated_at now)))
          (or_option x.completed_at x.completed_at))
      e
    ∙ ap
        (λ a.
          f x.id a (or_option x.updated_at (some (or_else x.updated_at now)))
            (or_option x.completed_at x.completed_at))
        (or_some_same x.created_at row.created_at c)
    ∙ ap (λ b. f x.id x.created_at b (or_option x.completed_at x.completed_at))
        (or_some_same x.updated_at (or_else x.updated_at now) u)
    ∙ ap (λ d. f x.id x.created_at x.updated_at d) (or_self x.completed_at)
  where
    with_four : String → Option ℕ → Option ℕ → Option ℕ → LongTaskRecord
    with_four i a b d = record x { id = i; created_at = a; updated_at = b; completed_at = d }

-- The read of a row that was inserted.
get-insert :
    (j k : String) (row : JobRow) (s t : JobStore)
    → t.rows ≡ insert k row s.rows
    → get j t ≡ (if str_eq k j then some (job_row_to_record row) else get j s)
unfolding get
get-insert j k row s t e =
    ap (λ rows. record_at (lookup j rows)) e
    ∙ ap record_at (lookup-insert k j row s.rows)
    ∙ by_key (str_eq k j)
  where
    by_key :
        (b : Bool)
        → record_at (if b then some row else lookup j s.rows)
          ≡ (if b then some (job_row_to_record row) else record_at (lookup j s.rows))
    by_key true = refl
    by_key false = refl

-- On a table whose rows stand under their ids: an accepted record reads back as it was given, with
-- the time for the dates it lacks, whether or not there was a row before; other tasks are untouched.
pub get-accept :
    (j : String) (r : LongTaskRecord) (now : ℕ) (s : JobStore)
    → IsKeyed s.rows
    → get j (accept r now s) ≡ (if str_eq r.id j then some (dated r now) else get j s)
unfolding accept accept_row record_to_job_row apply_record_to_job_row
get-accept j r now s w = by_row (lookup r.id s.rows) (lookup-IsUnder r.id s.rows w)
  where
    by_row :
        (o : Option JobRow)
        → IsUnder r.id o
        → get j (accept_row (dated r now) now s o)
          ≡ (if str_eq r.id j then some (dated r now) else get j s)
    by_row none _ =
        get-insert j r.id (record_to_job_row now (dated r now)) s
          (accept_row (dated r now) now s none) refl
        ∙ ap (λ x. if str_eq r.id j then some x else get j s)
            (written now (record_to_job_row now (dated r now)) (dated r now) refl refl refl)
    by_row (some row) e =
        get-insert j r.id (apply_record_to_job_row now row (dated r now)) s
          (accept_row (dated r now) now s (some row)) refl
        ∙ ap (λ x. if str_eq r.id j then some x else get j s)
            (written now row (dated r now) e refl refl)

abbrev pub mapped :
    (LongTaskRecord → LongTaskRecord) → Option LongTaskRecord → Option LongTaskRecord
mapped m none = none
mapped m (some r) = some (m r)

is_some_or : (o : Option ℕ) (d : ℕ) → is_some (or_option o (some d)) ≡ true
is_some_or none d = refl
is_some_or (some t) d = refl

-- An update answers what the mutator makes of the task, and the task reads as that from then on, if
-- there is one; other tasks are untouched.
pub get-update :
    (j id : String) (m : LongTaskRecord → ℕ → LongTaskRecord) (now : ℕ) (s : JobStore)
    → ((r : LongTaskRecord) → Mutates (λ x. m x now) r)
    → IsKeyed s.rows
    → ((update id m now s).0 ≡ mapped (λ x. m x now) (get id s))
      × (get j (update id m now s).1
          ≡ (if str_eq id j then mapped (λ x. m x now) (get j s) else get j s))
unfolding update update_row get job_row_to_record
get-update j id m now s h w = by_row (lookup id s.rows) (lookup-IsUnder id s.rows w) refl
  where
    f : LongTaskRecord → LongTaskRecord
    f x = m x now

    at_key :
        (o : Option JobRow)
        → lookup id s.rows ≡ o
        → (if str_eq id j then mapped f (record_at o) else get j s)
          ≡ (if str_eq id j then mapped f (get j s) else get j s)
    at_key o e = elim (Bool-cases (str_eq id j)) [
      | inl t ↦
          let g : lookup j s.rows ≡ o = subst (λ k. lookup k s.rows ≡ o) ((eq_iff id j).0 t) e in
          rw (t, g) refl
      | inr t ↦ rw t refl
    ]

    missing :
        lookup id s.rows ≡ none
        → get j s ≡ (if str_eq id j then mapped f (record_at none) else get j s)
    missing e = elim (Bool-cases (str_eq id j)) [
      | inl t ↦
          let g : lookup j s.rows ≡ none =
            subst (λ k. lookup k s.rows ≡ none) ((eq_iff id j).0 t) e in
          rw (t, g) refl
      | inr t ↦ rw t refl
    ]

    by_row :
        (o : Option JobRow)
        → IsUnder id o
        → lookup id s.rows ≡ o
        → ((update_row id m now s o).0 ≡ mapped f (record_at o))
          × (get j (update_row id m now s o).1
              ≡ (if str_eq id j then mapped f (get j s) else get j s))
    by_row none u e = (refl, missing e ∙ at_key none e)
    by_row (some row) u e =
        let before : LongTaskRecord = job_row_to_record row in
        let (same_id, same_created, has_updated) = h before in
        (
          refl,
          get-insert j id (apply_record_to_job_row now row (f before)) s
                (update_row id m now s (some row)).1 refl
              ∙ ap (λ x. if str_eq id j then some x else get j s)
                  (written now row (f before) (sym same_id)
                    (ap is_some same_created ∙ is_some_or row.input_json.created_at row.created_at)
                    has_updated)
              ∙ at_key (some row) e,
        )
