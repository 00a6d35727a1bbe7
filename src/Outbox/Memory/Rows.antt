-- ===== src/Outbox/Memory/Rows.antt =====
-- The rows of one subject, in order, and what the writes to the table do to them.
use eidolon_agent.Base.{
  ℕ, ◌≡◌, refl, true, false, not, List, [], ◌∷◌, ◌++◌, String, arith, if◌then◌else◌, str_eq, eq_iff,
  keep_if,
}
use eidolon_agent.Outbox.Memory.{Row, Pending, has_turn, fail_first, is_pending}

-- The turns of one subject that the table holds, oldest first.
abbrev pub turns_of : String → List Row → List String
turns_of s [] = []
turns_of s (r ∷ rows) = if str_eq r.subject s then r.turn_id ∷ turns_of s rows else turns_of s rows

-- The turns of one subject in a batch or a log.
abbrev pub turns_in : String → List Pending → List String
turns_in s [] = []
turns_in s (r ∷ rs) = if str_eq r.subject s then r.turn_id ∷ turns_in s rs else turns_in s rs

-- The table's invariant: turn ids are unique, and no row that stands in it is published.
abbrev pub IsSound : List Row → Type 0
IsSound [] = Unit
IsSound (r ∷ rows) = (is_pending r ≡ true) × (has_turn r.turn_id rows ≡ false) × IsSound rows

pub turns_of-append :
    (s : String) (xs ys : List Row) → turns_of s (xs ++ ys) ≡ turns_of s xs ++ turns_of s ys
turns_of-append s [] ys = refl
turns_of-append s (r ∷ xs) ys = ground (arith, turns_of-append s xs ys)

pub turns_in-append :
    (s : String) (xs ys : List Pending) → turns_in s (xs ++ ys) ≡ turns_in s xs ++ turns_in s ys
turns_in-append s [] ys = refl
turns_in-append s (r ∷ xs) ys = ground (arith, turns_in-append s xs ys)

abbrev without : String → List Row → List Row
without id rows = keep_if (λ (r : Row). not (str_eq r.turn_id id)) rows

without_absent : (id : String) (rows : List Row) → has_turn id rows ≡ false → without id rows ≡ rows
without_absent id [] h = refl
without_absent id (r ∷ rows) h = ground (arith, without_absent id rows)

has_turn-without :
    (id j : String) (rows : List Row)
    → has_turn j rows ≡ false
    → has_turn j (without id rows) ≡ false
has_turn-without id j [] h = refl
has_turn-without id j (r ∷ rows) h = ground (arith, has_turn-without id j rows)

pub without-IsSound : (id : String) (rows : List Row) → IsSound rows → IsSound (without id rows)
without-IsSound id [] h = tt
without-IsSound id (r ∷ rows) h =
    ground (arith, without-IsSound id rows h.2, has_turn-without id r.turn_id rows h.1)

-- A turn that heads a subject's turns is one that the table has.
absent_head :
    (s id j : String) (rest : List String) (rows : List Row)
    → turns_of s rows ≡ id ∷ rest
    → has_turn j rows ≡ false
    → str_eq j id ≡ false
absent_head s id j rest [] e h = cc
absent_head s id j rest (r ∷ rows) e h =
    ground (arith, absent_head s id j rest rows, eq_iff r.turn_id j, eq_iff j id)

-- Removing the oldest turn of a subject leaves the rest of them, and every other subject's.
pub turns_of-without :
    (s t id : String) (rest : List String) (rows : List Row)
    → IsSound rows
    → turns_of s rows ≡ id ∷ rest
    → turns_of t (without id rows) ≡ (if str_eq s t then rest else turns_of t rows)
turns_of-without s t id rest [] h e = cc
turns_of-without s t id rest (r ∷ rows) h e = ground (
  arith,
  turns_of-without s t id rest rows h.2,
  without_absent r.turn_id rows h.1,
  absent_head s id r.turn_id rest rows,
  eq_iff r.turn_id id,
  eq_iff r.subject s,
  eq_iff r.subject t,
  eq_iff s t,
)

pub turns_of-fail_first :
    (s id error : String) (now : ℕ) (rows : List Row)
    → turns_of s (fail_first id error now rows) ≡ turns_of s rows
unfolding fail_first
turns_of-fail_first s id error now [] = refl
turns_of-fail_first s id error now (r ∷ rows) =
    ground (arith, turns_of-fail_first s id error now rows)

has_turn-fail_first :
    (j id error : String) (now : ℕ) (rows : List Row)
    → has_turn j (fail_first id error now rows) ≡ has_turn j rows
unfolding fail_first
has_turn-fail_first j id error now [] = refl
has_turn-fail_first j id error now (r ∷ rows) =
    ground (arith, has_turn-fail_first j id error now rows)

pub fail_first-IsSound :
    (id error : String) (now : ℕ) (rows : List Row)
    → IsSound rows
    → IsSound (fail_first id error now rows)
unfolding fail_first
fail_first-IsSound id error now [] h = tt
fail_first-IsSound id error now (r ∷ rows) h = ground (
  arith,
  fail_first-IsSound id error now rows h.2,
  has_turn-fail_first r.turn_id id error now rows,
)
