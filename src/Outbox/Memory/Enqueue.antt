-- ===== src/Outbox/Memory/Enqueue.antt =====
-- `enqueue` is idempotent, and a run of the outbox is a first-in first-out queue of each subject.
use eidolon_agent.Base.{
  ℕ, ◌+◌, ◌≡◌, refl, sym, ap, ◌∙◌, Bool, true, false, Option, none, some, List, [], ◌∷◌, ◌++◌,
  String, ◌⊎◌, arith, if◌then◌else◌, str_eq, opt_eq, eq_iff, eq_refl, find_first, Bool-cases, inl,
  inr, append_assoc, append-nil,
}
use eidolon_agent.Outbox.Memory.{
  Row, Table, Turn, Pending, Publish, Dispatch, accepted, collision, judge, enqueue, insert_turn,
  same_turn, new_row, has_turn, dispatch_once, is_pending,
}
use eidolon_agent.Outbox.Memory.Rows.{turns_of, turns_in, IsSound, turns_of-append}
use eidolon_agent.Outbox.Memory.Fifo.{history, dispatch_once-Keeps}

opt_eq_refl : (o : Option String) → opt_eq o o ≡ true
opt_eq_refl none = refl
opt_eq_refl (some s) = eq_refl s

same_turn-new_row : (t : Turn) (id now : ℕ) → same_turn (new_row t id now) t ≡ true
unfolding same_turn new_row
same_turn-new_row t id now = simp (eq_refl, opt_eq_refl)

abbrev is_turn : String → Row → Bool
is_turn id r = str_eq r.turn_id id

find_absent :
    (id : String) (rows : List Row) (r : Row)
    → has_turn id rows ≡ false
    → str_eq r.turn_id id ≡ true
    → find_first (is_turn id) (rows ++ r ∷ []) ≡ some r
find_absent id [] r h e = ground arith
find_absent id (x ∷ rows) r h e = ground (arith, find_absent id rows r)

find_present :
    (id : String) (rows : List Row)
    → has_turn id rows ≡ true
    → (r : Row) × (find_first (is_turn id) rows ≡ some r)
find_present id [] h = absurd (ground arith)
find_present id (x ∷ rows) h = elim (Bool-cases (str_eq x.turn_id id)) [
  | inl e ↦ (x, rw e)
  | inr e ↦ let (r, f) = find_present id rows (ground arith) in (r, rw e f)
]

has_turn-append :
    (id : String) (rows : List Row) (r : Row)
    → has_turn id (rows ++ r ∷ []) ≡ (if has_turn id rows then true else str_eq r.turn_id id)
has_turn-append id [] r = ground arith
has_turn-append id (x ∷ rows) r = ground (arith, has_turn-append id rows r)

own_turn : (t : Turn) (id now : ℕ) → str_eq (new_row t id now).turn_id t.turn_id ≡ true
unfolding new_row
own_turn t id now = eq_refl t.turn_id

insert_new :
    (t : Turn) (now : ℕ) (table : Table)
    → has_turn t.turn_id table.rows ≡ false
    → insert_turn t now table ≡ record {
      rows = table.rows ++ new_row t table.next_id now ∷ [];
      next_id = table.next_id + 1;
    }
unfolding insert_turn
insert_new t now table h = rw h refl

insert_known :
    (t : Turn) (now : ℕ) (table : Table)
    → has_turn t.turn_id table.rows ≡ true
    → insert_turn t now table ≡ table
unfolding insert_turn
insert_known t now table h = rw h refl

-- A turn that the table does not have is accepted and put behind all others.
pub enqueue_new :
    (t : Turn) (now : ℕ) (table : Table)
    → has_turn t.turn_id table.rows ≡ false
    → enqueue t now table ≡ (
      accepted,
      record { rows = table.rows ++ new_row t table.next_id now ∷ []; next_id = table.next_id + 1 },
    )
unfolding enqueue
enqueue_new t now table h = rw (insert_new t now table h) (
    rw
      (
        find_absent t.turn_id table.rows (new_row t table.next_id now) h
            (own_turn t table.next_id now),
        same_turn-new_row,
      )
      refl)

-- A turn that the table has leaves it as it is; its row is compared.
pub enqueue_known :
    (t : Turn) (now : ℕ) (table : Table)
    → has_turn t.turn_id table.rows ≡ true
    → enqueue t now table ≡ (judge t (find_first (is_turn t.turn_id) table.rows), table)
unfolding enqueue
enqueue_known t now table h = rw (insert_known t now table h) refl

judge-cases : (t : Turn) (r : Row) → (judge t (some r) ≡ collision) ⊎ (judge t (some r) ≡ accepted)
judge-cases t r = elim (Bool-cases (same_turn r t)) [
  | inl same ↦ inr (rw same refl)
  | inr other ↦ inl (rw other refl)
]

pub new_row-has_turn :
    (t : Turn) (id now : ℕ) (rows : List Row)
    → has_turn t.turn_id (rows ++ new_row t id now ∷ []) ≡ true
new_row-has_turn t id now rows =
    ground (arith, has_turn-append t.turn_id rows (new_row t id now), own_turn t id now)

-- Enqueueing is idempotent: a turn is refused for a collision, and nothing changes, or it is
-- accepted; then it is accepted again at any other time, and that changes nothing. It is never lost.
pub enqueue_twice :
    (t : Turn) (now later : ℕ) (table : Table)
    → (enqueue t now table ≡ (collision, table))
      ⊎ (((enqueue t now table).0 ≡ accepted)
          × (enqueue t later (enqueue t now table).1 ≡ (accepted, (enqueue t now table).1)))
enqueue_twice t now later table = elim (Bool-cases (has_turn t.turn_id table.rows)) [
  | inl known ↦
      let (r, f) = find_present t.turn_id table.rows known in
      elim (judge-cases t r) [
        | inl clash ↦ inl (enqueue_known t now table known ∙ rw f (ap (λ j. (j, table)) clash))
        | inr same ↦
            let once : enqueue t now table ≡ (accepted, table) =
              enqueue_known t now table known ∙ rw f (ap (λ j. (j, table)) same) in
            let again : enqueue t later table ≡ (accepted, table) =
              enqueue_known t later table known ∙ rw f (ap (λ j. (j, table)) same) in
            inr (rw once (refl, again))
      ]
  | inr new ↦
      let after : Table = record {
        rows = table.rows ++ new_row t table.next_id now ∷ [];
        next_id = table.next_id + 1;
      } in
      let found =
        find_absent t.turn_id table.rows (new_row t table.next_id now) new
          (own_turn t table.next_id now) in
      rw (enqueue_new t now table new) (
        inr (
          refl,
          enqueue_known t later after (new_row-has_turn t table.next_id now table.rows)
              ∙ rw found (rw (same_turn-new_row t table.next_id now) refl),
        ))
]

-- What a process does with its outbox: turns are enqueued, and dispatch rounds are run, each with
-- a bus that behaves as it likes.
pub data Act : Type 0 where
  enqueue_act : Turn → ℕ → Act
  dispatch_act : (Pending → Publish) → ℕ → ℕ → Act

unfoldable pub perform : Act → Dispatch → Dispatch
perform (enqueue_act t now) d = record d { table = (enqueue t now d.table).1 }
perform (dispatch_act bus batch_size now) d = dispatch_once bus batch_size now d

unfoldable pub perform_all : List Act → Dispatch → Dispatch
unfolding perform
perform_all [] d = d
perform_all (a ∷ acts) d = perform_all acts (perform a d)

-- The turns of a subject that the acts newly enqueued, in order: those that the table did not
-- have at that moment.
abbrev pub entered : String → Act → Dispatch → List String
entered s (enqueue_act t now) d =
    if has_turn t.turn_id d.table.rows
    then []
    else if str_eq t.subject s
    then t.turn_id ∷ []
    else []
entered s (dispatch_act bus batch_size now) d = []

pub all_entered : String → List Act → Dispatch → List String
all_entered s [] d = []
all_entered s (a ∷ acts) d = entered s a d ++ all_entered s acts (perform a d)

append-IsSound :
    (rows : List Row) (r : Row)
    → is_pending r ≡ true
    → has_turn r.turn_id rows ≡ false
    → IsSound rows
    → IsSound (rows ++ r ∷ [])
append-IsSound [] r p h sound = (p, refl, tt)
append-IsSound (x ∷ rows) r p h sound = ground (
  arith,
  append-IsSound rows r p,
  has_turn-append x.turn_id rows r,
  eq_iff x.turn_id r.turn_id,
  eq_iff r.turn_id x.turn_id,
)

enqueue-IsSound :
    (t : Turn) (now : ℕ) (table : Table) → IsSound table.rows → IsSound (enqueue t now table).1.rows
enqueue-IsSound t now table sound = elim (Bool-cases (has_turn t.turn_id table.rows)) [
  | inl known ↦ rw (enqueue_known t now table known) sound
  | inr new ↦ rw (enqueue_new t now table new) (
      append-IsSound table.rows (new_row t table.next_id now) (unfold new_row in refl)
        (unfold new_row in new) sound)
]

history-enqueue :
    (s : String) (t : Turn) (now : ℕ) (d : Dispatch)
    → history s (record d { table = (enqueue t now d.table).1 })
      ≡ history s d ++ entered s (enqueue_act t now) d
history-enqueue s t now d = elim (Bool-cases (has_turn t.turn_id d.table.rows)) [
  | inl known ↦ rw (enqueue_known t now d.table known, known) (sym (append-nil (history s d)))
  | inr new ↦
      rw (enqueue_new t now d.table new, new)
        (unfold new_row in
          ap (λ z. turns_in s d.log ++ z)
            (turns_of-append s d.table.rows (new_row t d.table.next_id now ∷ []))
          ∙ sym (
              append_assoc (turns_in s d.log) (turns_of s d.table.rows)
                (turns_of s (new_row t d.table.next_id now ∷ []))))
]

-- Acknowledged turns followed by waiting ones are, of each subject, the turns that were enqueued,
-- in that order, after any sequence of enqueues and dispatch rounds, whatever publications fail.
pub outbox_fifo :
    (s : String) (acts : List Act) (d : Dispatch)
    → IsSound d.table.rows
    → IsSound (perform_all acts d).table.rows
      × (history s (perform_all acts d) ≡ history s d ++ all_entered s acts d)
unfolding perform_all all_entered
outbox_fifo s [] d sound = (sound, sym (append-nil (history s d)))
outbox_fifo s (enqueue_act t now ∷ acts) d sound =
    let d' = perform (enqueue_act t now) d in
    let (sound', e) = outbox_fifo s acts d' (enqueue-IsSound t now d.table sound) in
    (
      sound',
      e
          ∙ ap (λ z. z ++ all_entered s acts d') (history-enqueue s t now d)
          ∙ append_assoc (history s d) (entered s (enqueue_act t now) d) (all_entered s acts d'),
    )
outbox_fifo s (dispatch_act bus batch_size now ∷ acts) d sound =
    let k = dispatch_once-Keeps bus batch_size now d sound in
    let (sound', e) = outbox_fifo s acts (dispatch_once bus batch_size now d) k.sound in
    (
      sound',
      e ∙ ap (λ z. z ++ all_entered s acts (dispatch_once bus batch_size now d)) (k.same_history s),
    )
