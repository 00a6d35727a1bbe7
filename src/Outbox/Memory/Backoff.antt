-- ===== src/Outbox/Memory/Backoff.antt =====
-- What a failed publication costs: the delay of `mark_failed`, which holds back the whole subject.
use eidolon_agent.Base.{
  ℕ, zero, suc, ◌+◌, ◌*◌, ◌^◌, ◌≤◌, ◌<◌, min, ◌≡◌, sym, subst, true, some, List, [], ◌∷◌, String,
  arith, str_eq, eq_refl, find_first, Bool-cases, inl, inr,
}
use eidolon_agent.Outbox.Memory.{
  Row, Table, retry_delay, mark_failed, fail_first, fail_row, blocked, pending_batch, is_pending,
}
use eidolon_agent.Outbox.Memory.Rows.{turns_in, IsSound}
use eidolon_agent.Outbox.Memory.Batch.{pending_batch-blocked}

min_pow : (n : ℕ) → 1 ≤ n → (2 ≤ 2 ^ min n 6)
min_pow zero h = absurd (omega arith)
min_pow (suc zero) h = omega arith
min_pow (suc (suc zero)) h = omega arith
min_pow (suc (suc (suc zero))) h = omega arith
min_pow (suc (suc (suc (suc zero)))) h = omega arith
min_pow (suc (suc (suc (suc (suc zero))))) h = omega arith
min_pow (suc (suc (suc (suc (suc (suc n)))))) h =
    let e : min (suc (suc (suc (suc (suc (suc n)))))) 6 ≡ 6 = omega arith in rw e (omega arith)

-- After a first failure and any number more, the delay is from two seconds to a minute.
pub retry_delay_bounds :
    (attempts : ℕ)
    → 1 ≤ attempts
    → (2 * 1_000_000 ≤ retry_delay attempts) × (retry_delay attempts ≤ 60 * 1_000_000)
unfolding retry_delay
retry_delay_bounds attempts h = omega (arith, min_pow attempts h)

fail_row_blocks :
    (error : String) (now later : ℕ) (x : Row) (rows : List Row)
    → is_pending x ≡ true
    → later < now + retry_delay (x.attempt_count + 1)
    → blocked later (fail_row error now x ∷ rows) x.subject ≡ true
unfolding fail_row blocked
fail_row_blocks error now later x rows p h = ground (arith, eq_refl x.subject)

fail_first_blocks :
    (id error : String) (now later : ℕ) (rows : List Row) (r : Row)
    → IsSound rows
    → find_first (λ (x : Row). str_eq x.turn_id id) rows ≡ some r
    → later < now + retry_delay (r.attempt_count + 1)
    → blocked later (fail_first id error now rows) r.subject ≡ true
unfolding fail_first blocked
fail_first_blocks id error now later [] r sound e h = cc
fail_first_blocks id error now later (x ∷ rows) r sound e h =
    elim (Bool-cases (str_eq x.turn_id id)) [
      | inl same ↦
          let is : x ≡ r = cc (rw same at e) in
          rw same (
            subst (λ (y : Row). blocked later (fail_row error now x ∷ rows) y.subject ≡ true) is
              (fail_row_blocks error now later x rows sound.0
                (subst (λ (y : Row). later < now + retry_delay (y.attempt_count + 1)) (sym is) h)))
      | inr other ↦ ground (arith, other, fail_first_blocks id error now later rows r sound.2, e)
    ]

-- In an outbox whose rows all wait and whose turn ids differ: once one of its turns has failed, no
-- batch that is read before the turn's next attempt holds a turn of its subject.
pub failed_subject_waits :
    (limit now later : ℕ) (id error : String) (table : Table) (r : Row)
    → IsSound table.rows
    → find_first (λ (x : Row). str_eq x.turn_id id) table.rows ≡ some r
    → later < now + retry_delay (r.attempt_count + 1)
    → turns_in r.subject (pending_batch limit later (mark_failed id error now table)) ≡ []
unfolding mark_failed
failed_subject_waits limit now later id error table r sound e h =
    pending_batch-blocked limit later (record table { rows = fail_first id error now table.rows })
      r.subject (fail_first_blocks id error now later table.rows r sound e h)
