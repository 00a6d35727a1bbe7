-- ===== src/Outbox/Audit/Rounds.antt =====
-- What a round of the audit dispatcher and a purge do to each row.
use eidolon_agent.Base.{
  ℕ, zero, suc, ◌+◌, ◌*◌, ◌≤◌, ◌^◌, min, ◌≡◌, refl, sym, Bool, not, ◌&&◌, List, [], ◌∷◌, String,
  arith, map, if◌then◌else◌, str_mem, eq_iff, keep_if, Bool-cases, Option-cases, length, inl, inr,
}
use eidolon_agent.Outbox.Audit.{
  AuditRow, Envelope, AuditBatch, pending_batch, is_waiting, is_meant, published, failed,
  mark_published, mark_failed, purge_published, Publishing, acknowledged, raised, retry_after,
  event_ids, settle, round, dispatch_once,
}

str_mem-keep_if :
    (s : String) (p : String → Bool) (xs : List String)
    → str_mem s (keep_if p xs) ≡ (str_mem s xs && p s)
str_mem-keep_if s p [] = refl
str_mem-keep_if s p (x ∷ xs) = ground (arith, str_mem-keep_if s p xs, eq_iff s x)

-- What a round does to a row: one of the batch that waits is published if the transport has
-- acknowledged it, and fails otherwise, with all others if the transport raises.
abbrev pub fate : AuditBatch → Publishing → ℕ → AuditRow → AuditRow
fate batch (raised error) later r =
    if is_meant (event_ids batch.events) r
    then failed error (later + retry_after batch.max_attempt_count) r
    else r
fate batch (acknowledged acks) later r =
    if is_meant (event_ids batch.events) r
    then if str_mem r.event_id acks
      then published later r
      else failed "transport did not acknowledge event"
          (later + retry_after batch.max_attempt_count) r
    else r

module _ {ℓ} {A : Type ℓ} where
  map-same : (f : A → A) (xs : List A) → ((x : A) → f x ≡ x) → map f xs ≡ xs
  map-same f [] h = refl
  map-same f (x ∷ xs) h = ground (arith, h x, map-same f xs h)

  map-twice :
      (f g h : A → A) (xs : List A) → ((x : A) → f (g x) ≡ h x) → map f (map g xs) ≡ map h xs
  map-twice f g h [] k = refl
  map-twice f g h (x ∷ xs) k = ground (arith, k x, map-twice f g h xs k)

-- The two updates of a round, on one row.
one_row :
    (ids acks : List String) (error : String) (later next : ℕ) (r : AuditRow)
    → (let good = keep_if (λ id. str_mem id ids) acks in
        let missing = keep_if (λ id. not (str_mem id good)) ids in
        let marked = if is_meant good r then published later r else r in
        if is_meant missing marked then failed error next marked else marked)
      ≡ (if is_meant ids r
          then if str_mem r.event_id acks then published later r else failed error next r
          else r)
one_row ids acks error later next r =
    let good = keep_if (λ id. str_mem id ids) acks in
    let a = str_mem-keep_if r.event_id (λ id. str_mem id ids) acks in
    let b = str_mem-keep_if r.event_id (λ id. not (str_mem id good)) ids in
    elim (Bool-cases (str_mem r.event_id ids)) [
      | inl i ↦ elim (Bool-cases (str_mem r.event_id acks)) [
        | inl k ↦ ground (arith, a, b, i, k)
        | inr k ↦ ground (arith, a, b, i, k)
      ]
      | inr i ↦ ground (arith, a, b, i)
    ]

module _ (publisher : List Envelope → Publishing) (later : ℕ) where
  settle-fate :
      (batch : AuditBatch) (o : Publishing) (rows : List AuditRow)
      → publisher batch.events ≡ o
      → (settle publisher batch later rows).1 ≡ map (fate batch o later) rows
  unfolding settle mark_published mark_failed
  settle-fate batch (raised error) rows e = rw (e, settle) refl
  settle-fate batch (acknowledged acks) rows e =
      rw (e, settle)
        (map-twice _ _ (fate batch (acknowledged acks) later) rows (λ r.
          one_row (event_ids batch.events) acks "transport did not acknowledge event" later
            (later + retry_after batch.max_attempt_count) r))

  no_batch :
      (batch : AuditBatch) (o : Publishing) (r : AuditRow)
      → event_ids batch.events ≡ []
      → fate batch o later r ≡ r
  no_batch batch (raised error) r e = rw e refl
  no_batch batch (acknowledged acks) r e = rw e refl

  round_at-fate :
      (es : List Envelope) (n : ℕ) (rows : List AuditRow)
      → (round publisher (record { events = es; max_attempt_count = n }) later rows).1
        ≡ map (fate (record { events = es; max_attempt_count = n }) (publisher es) later) rows
  unfolding round
  round_at-fate [] n rows = sym (
      map-same _ rows
        (λ r. no_batch (record { events = []; max_attempt_count = n }) (publisher []) r refl))
  round_at-fate (x ∷ es) n rows =
      settle-fate (record { events = x ∷ es; max_attempt_count = n }) (publisher (x ∷ es)) rows refl

  -- A round settles each row by itself: a waiting row of the batch is published if the transport
  -- acknowledged its event and has failed otherwise, never both, and all other rows stay as they
  -- are; no row is lost. If the transport raises, every row of the batch has failed.
  pub dispatch_once-fate :
      (batch_size now : ℕ) (rows : List AuditRow)
      → let batch = pending_batch batch_size now rows in
        (dispatch_once publisher batch_size now later rows).1
        ≡ map (fate batch (publisher batch.events) later) rows
  unfolding dispatch_once
  dispatch_once-fate batch_size now rows =
      let batch = pending_batch batch_size now rows in
      round_at-fate batch.events batch.max_attempt_count rows

one_le_pow : (n : ℕ) → 1 ≤ 2 ^ n
one_le_pow zero = omega arith
one_le_pow (suc n) = omega (arith, one_le_pow n)

-- The delay after a failed round is from one second to a minute.
pub retry_after_bounds :
    (attempts : ℕ) → (1_000_000 ≤ retry_after attempts) × (retry_after attempts ≤ 60 * 1_000_000)
unfolding retry_after
retry_after_bounds attempts = omega (arith, one_le_pow (min attempts 16))

-- A purge takes no row that waits, and counts those that it takes.
pub purge_keeps :
    (before : ℕ) (rows : List AuditRow)
    → (keep_if is_waiting (purge_published before rows).1 ≡ keep_if is_waiting rows)
      × (length rows ≡ (purge_published before rows).0 + length (purge_published before rows).1)
unfolding purge_published
purge_keeps before [] = (refl, refl)
purge_keeps before (r ∷ rows) = elim (Option-cases r.published_at) [
  | inl e ↦ rw e (ground (arith, purge_keeps before rows))
  | inr (at, e) ↦ rw e (ground (arith, purge_keeps before rows))
]
