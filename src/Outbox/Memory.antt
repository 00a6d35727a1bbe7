-- ===== src/Outbox/Memory.antt =====
-- The memory turn outbox: `AgentMemoryTurnOutbox` of
-- eidolon_agent/infra/persistence/runtime_store.py and `MemoryTurnDispatcher` of
-- eidolon_agent/infra/persistence/memory_turn_dispatch.py. A table is the list of its rows in the
-- order of `outbox_id`, which autoincrement keeps; clocks are in microseconds; a payload stands by
-- its canonical JSON text.
pub mod Rows
pub mod Batch
pub mod Fifo
pub mod Backoff
pub mod Enqueue
mod Tests
use eidolon_agent.Base.{
  ℕ, zero, suc, ◌+◌, ◌*◌, ◌^◌, min, Bool, true, false, not, ◌&&◌, Option, none, some, List, [], ◌∷◌,
  ◌++◌, String, map, leb, ltb, if◌then◌else◌, str_eq, opt_eq, first_chars, keep_if, any, take,
  length, is_some, find_first,
}

-- `MemoryTurnOutboxRow`
pub record Row : Type 0 where
  pub outbox_id : ℕ
  pub turn_id : String
  pub owner_id : String
  pub companion_id : String
  pub subject : String
  pub payload : String
  pub trace_id : Option String
  pub attempt_count : ℕ
  pub next_attempt_at : ℕ
  pub last_error : String
  pub published_at : Option ℕ
  pub created_at : ℕ

pub record Table : Type 0 where
  pub rows : List Row
  pub next_id : ℕ

abbrev pub empty : Table
empty = record { rows = []; next_id = 1 }

-- `PendingMemoryTurn`
pub record Pending : Type 0 where
  pub turn_id : String
  pub subject : String
  pub payload : String
  pub trace_id : Option String
  pub attempt_count : ℕ

-- The arguments of `enqueue`.
pub record Turn : Type 0 where
  pub turn_id : String
  pub owner_id : String
  pub companion_id : String
  pub subject : String
  pub payload : String
  pub trace_id : Option String

-- How `enqueue` ends: it returns, or raises one of its two RuntimeErrors.
pub data Enqueued : Type 0 where
  accepted lost collision : Enqueued

-- `published_at IS NULL`
abbrev pub is_pending : Row → Bool
is_pending r = not (is_some r.published_at)

abbrev pub has_turn : String → List Row → Bool
has_turn id rows = any (λ (r : Row). str_eq r.turn_id id) rows

pub new_row : Turn → ℕ → ℕ → Row
new_row t id now = record {
  outbox_id = id;
  turn_id = t.turn_id;
  owner_id = t.owner_id;
  companion_id = t.companion_id;
  subject = t.subject;
  payload = t.payload;
  trace_id = t.trace_id;
  attempt_count = 0;
  next_attempt_at = now;
  last_error = "";
  published_at = none;
  created_at = now;
}

-- `insert … on_conflict_do_nothing(turn_id)`
unfoldable pub insert_turn : Turn → ℕ → Table → Table
unfolding new_row
insert_turn t now table = if has_turn t.turn_id table.rows then table else record {
  rows = table.rows ++ new_row t table.next_id now ∷ [];
  next_id = table.next_id + 1;
}

-- `identity == requested`
pub same_turn : Row → Turn → Bool
same_turn r t =
    str_eq r.owner_id t.owner_id
    && str_eq r.companion_id t.companion_id
    && str_eq r.subject t.subject
    && str_eq r.payload t.payload
    && opt_eq r.trace_id t.trace_id

-- What `enqueue` makes of the row that it reads back.
abbrev pub judge : Turn → Option Row → Enqueued
judge t none = lost
judge t (some r) = if same_turn r t then accepted else collision

unfoldable pub enqueue : Turn → ℕ → Table → Enqueued × Table
enqueue t now table =
    let after = insert_turn t now table in
    (judge t (find_first (λ (r : Row). str_eq r.turn_id t.turn_id) after.rows), after)

-- The subquery `blocked_subjects`.
pub blocked : ℕ → List Row → String → Bool
blocked now rows s =
    any (λ (r : Row). is_pending r && ltb now r.next_attempt_at && str_eq r.subject s) rows

to_pending : Row → Pending
to_pending r = record {
  turn_id = r.turn_id;
  subject = r.subject;
  payload = r.payload;
  trace_id = r.trace_id;
  attempt_count = r.attempt_count;
}

-- The rows that the query selects, before its limit; `blk` is the subquery's result.
pub eligible : ℕ → (String → Bool) → List Row → List Pending
unfolding to_pending
eligible now blk [] = []
eligible now blk (r ∷ rows) =
    let rest = eligible now blk rows in
    if is_pending r && leb r.next_attempt_at now && not (blk r.subject)
    then to_pending r ∷ rest
    else rest

unfoldable pub pending_batch : ℕ → ℕ → Table → List Pending
unfolding eligible blocked
pending_batch limit now table = take limit (eligible now (blocked now table.rows) table.rows)

unfoldable pub mark_published : String → Table → Table
mark_published id table = record table {
  rows = keep_if (λ (r : Row). not (str_eq r.turn_id id)) table.rows;
}

-- `timedelta(seconds=min(2 ** min(attempt_count, 6), 60))`
unfoldable pub retry_delay : ℕ → ℕ
retry_delay attempts = min (2 ^ min attempts 6) 60 * 1_000_000

pub fail_row : String → ℕ → Row → Row
unfolding retry_delay
fail_row error now r = if is_some r.published_at then r else record r {
  attempt_count = r.attempt_count + 1;
  last_error = first_chars 2_000 error;
  next_attempt_at = now + retry_delay (r.attempt_count + 1);
}

pub fail_first : String → String → ℕ → List Row → List Row
unfolding fail_row
fail_first id error now [] = []
fail_first id error now (r ∷ rows) =
    if str_eq r.turn_id id then fail_row error now r ∷ rows else r ∷ fail_first id error now rows

unfoldable pub mark_failed : String → String → ℕ → Table → Table
unfolding fail_first
mark_failed id error now table = record table { rows = fail_first id error now table.rows }

pub pending_count : Table → ℕ
pending_count table = length (keep_if is_pending table.rows)

-- What the bus does with a publication: it acknowledges, or raises an error (its text, and the
-- clock that `mark_failed` then reads).
pub data Publish : Type 0 where
  acked : Publish
  raised : String → ℕ → Publish

-- The table, what the bus has acknowledged so far in order, and the count of this dispatch.
pub record Dispatch : Type 0 where
  pub table : Table
  pub log : List Pending
  pub published : ℕ

-- `by_subject.setdefault(row.subject, []).append(row)`
abbrev pub add_to_group : Pending → List (String × List Pending) → List (String × List Pending)
add_to_group r [] = (r.subject, r ∷ []) ∷ []
add_to_group r ((s, rs) ∷ gs) =
    if str_eq s r.subject then (s, rs ++ r ∷ []) ∷ gs else (s, rs) ∷ add_to_group r gs

pub group_rows : List (String × List Pending) → List Pending → List (String × List Pending)
group_rows gs [] = gs
group_rows gs (r ∷ rs) = group_rows (add_to_group r gs) rs

module _ (bus : Pending → Publish) where
  -- The inner loop; a failure breaks out of it.
  pub dispatch_rows : List Pending → Dispatch → Dispatch
  dispatch_rows [] d = d
  dispatch_rows (r ∷ rs) d = elim (bus r) [
    | raised error now ↦ record d { table = mark_failed r.turn_id error now d.table }
    | acked ↦ dispatch_rows rs (record {
      table = mark_published r.turn_id d.table;
      log = d.log ++ r ∷ [];
      published = d.published + 1;
    })
  ]

  pub dispatch_groups : List (String × List Pending) → Dispatch → Dispatch
  unfolding dispatch_rows
  dispatch_groups [] d = d
  dispatch_groups ((s, rs) ∷ gs) d = dispatch_groups gs (dispatch_rows rs d)

  -- `dispatch_once`: the batch is read at `now`.
  unfoldable pub dispatch_once : ℕ → ℕ → Dispatch → Dispatch
  unfolding dispatch_groups group_rows pending_batch
  dispatch_once batch_size now d =
      dispatch_groups (group_rows [] (pending_batch batch_size now d.table))
        (record d { published = 0 })
