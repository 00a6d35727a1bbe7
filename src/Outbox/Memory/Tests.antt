-- ===== src/Outbox/Memory/Tests.antt =====
-- Runs of the memory turn outbox on concrete turns.
use eidolon_agent.Base.{
  ◌+◌, ◌*◌, ◌<◌, ◌≡◌, refl, none, List, [], ◌∷◌, ◌++◌, String, arith, str_eq, if◌then◌else◌,
}
use eidolon_agent.Outbox.Memory.{
  Row, Table, Turn, Pending, Publish, acked, raised, Dispatch, collision, empty, enqueue,
  insert_turn, new_row, same_turn, blocked, to_pending, eligible, pending_batch, mark_published,
  mark_failed, fail_row, fail_first, retry_delay, pending_count, group_rows, dispatch_rows,
  dispatch_groups, dispatch_once,
}
use eidolon_agent.Outbox.Memory.Rows.{IsSound, turns_in}
use eidolon_agent.Outbox.Memory.Backoff.{failed_subject_waits}
use eidolon_agent.Outbox.Memory.Fifo.{history}
use eidolon_agent.Outbox.Memory.Enqueue.{
  Act, enqueue_act, dispatch_act, perform, perform_all, all_entered, outbox_fifo,
}

abbrev turn : String → String → Turn
turn id subject = record {
  turn_id = id;
  owner_id = "o";
  companion_id = "c";
  subject = subject;
  payload = "{}";
  trace_id = none;
}

abbrev start : Dispatch
start = record { table = empty; log = []; published = 0 }

-- A bus that is down for the turn "a".
abbrev down_for_a : Pending → Publish
down_for_a r = if str_eq r.turn_id "a" then raised "down" 10 else acked

abbrev all_up : Pending → Publish
all_up r = acked

abbrev acts : List Act
acts =
    enqueue_act (turn "a" "s") 1
    ∷ enqueue_act (turn "b" "s") 2
    ∷ enqueue_act (turn "x" "other") 3
    ∷ dispatch_act down_for_a 200 5
    ∷ enqueue_act (turn "b" "s") 6
    ∷ []

-- "b" waits behind "a", which failed; the other subject does not.
blocked_behind : (perform_all acts start).log ≡ to_pending (new_row (turn "x" "other") 3 3) ∷ []
unfolding perform_all perform dispatch_once dispatch_groups dispatch_rows group_rows pending_batch
    eligible blocked to_pending new_row enqueue insert_turn
blocked_behind = refl

two_wait : pending_count (perform_all acts start).table ≡ 2
unfolding perform_all perform dispatch_once dispatch_groups dispatch_rows group_rows pending_batch
    eligible blocked to_pending new_row enqueue insert_turn pending_count mark_failed mark_published
    fail_first fail_row
two_wait = refl

outbox_fifo_example :
    IsSound (perform_all acts start).table.rows
    × (history "s" (perform_all acts start) ≡ history "s" start ++ all_entered "s" acts start)
outbox_fifo_example = outbox_fifo "s" acts start tt

clash : (enqueue (turn "a" "t") 2 (enqueue (turn "a" "s") 1 empty).1).0 ≡ collision
unfolding enqueue insert_turn new_row same_turn
clash = refl

-- The delays of the first attempts, in seconds.
delays :
    (retry_delay 1 ≡ 2 * 1_000_000)
    × (retry_delay 5 ≡ 32 * 1_000_000)
    × (retry_delay 6 ≡ 60 * 1_000_000)
    × (retry_delay 90 ≡ 60 * 1_000_000)
unfolding retry_delay
delays = (refl, refl, refl, refl)

abbrev row_a : Row
row_a = record {
  outbox_id = 1;
  turn_id = "a";
  owner_id = "o";
  companion_id = "c";
  subject = "s";
  payload = "{}";
  trace_id = none;
  attempt_count = 0;
  next_attempt_at = 1;
  last_error = "";
  published_at = none;
  created_at = 1;
}

abbrev table_a : Table
table_a = record { rows = row_a ∷ []; next_id = 2 }

soon : 1_000_000 < 5 + retry_delay 1
unfolding retry_delay
soon = omega arith

failed_subject_waits_example :
    turns_in "s" (pending_batch 200 1_000_000 (mark_failed "a" "down" 5 table_a)) ≡ []
failed_subject_waits_example =
    failed_subject_waits 200 5 1_000_000 "a" "down" table_a row_a (refl, refl, tt) refl soon
