-- ===== src/Outbox/Memory/Batch.antt =====
-- What `pending_batch` reads, and how the dispatcher groups it: of each subject, the oldest turns.
use eidolon_agent.Base.{
  ℕ, zero, suc, ◌≡◌, refl, sym, ap, ◌∙◌, Bool, true, false, List, [], ◌∷◌, ◌++◌, String, arith,
  if◌then◌else◌, str_eq, eq_iff, eq_refl, any, Bool-cases, inl, inr, append_assoc, append-nil, take,
  All, All-append,
}
use eidolon_agent.Outbox.Memory.{
  Row, Pending, Table, eligible, blocked, pending_batch, group_rows, add_to_group,
}
use eidolon_agent.Outbox.Memory.Rows.{turns_of, turns_in, IsSound, turns_in-append}

-- `xs` is the front of `ys`.
abbrev pub IsFront : List String → List String → Type 0
IsFront xs ys = (rest : List String) × (ys ≡ xs ++ rest)

turns_in-take :
    (s : String) (n : ℕ) (rs : List Pending) → IsFront (turns_in s (take n rs)) (turns_in s rs)
turns_in-take s zero rs = (turns_in s rs, refl)
turns_in-take s (suc n) [] = ([], refl)
turns_in-take s (suc n) (r ∷ rs) = let (rest, e) = turns_in-take s n rs in (rest, ground (arith, e))

front_of_nil : (xs rest : List String) → [] ≡ xs ++ rest → xs ≡ []
front_of_nil [] rest h = refl
front_of_nil (x ∷ xs) rest h = cc

-- Nothing of a blocked subject is read.
eligible_blocked :
    (now : ℕ) (blk : String → Bool) (s : String) (rows : List Row)
    → blk s ≡ true
    → turns_in s (eligible now blk rows) ≡ []
unfolding eligible
eligible_blocked now blk s [] h = refl
eligible_blocked now blk s (r ∷ rows) h = elim (Bool-cases (str_eq r.subject s)) [
  | inl e ↦
      let same : blk r.subject ≡ true = ap blk ((eq_iff r.subject s).0 e) ∙ h in
      ground (arith, eligible_blocked now blk s rows h, same)
  | inr e ↦ ground (arith, eligible_blocked now blk s rows h, e)
]

-- All of any other subject is.
eligible_free :
    (now : ℕ) (blk : String → Bool) (s : String) (rows : List Row)
    → blk s ≡ false
    → blocked now rows s ≡ false
    → IsSound rows
    → turns_in s (eligible now blk rows) ≡ turns_of s rows
unfolding eligible blocked
eligible_free now blk s [] h b sound = refl
eligible_free now blk s (r ∷ rows) h b sound = elim (Bool-cases (str_eq r.subject s)) [
  | inl e ↦
      let same : blk r.subject ≡ false = ap blk ((eq_iff r.subject s).0 e) ∙ h in
      ground (arith, eligible_free now blk s rows h, same, e, sound.0, sound.2)
  | inr e ↦ ground (arith, eligible_free now blk s rows h, e, sound.0, sound.2)
]

-- The batch holds, of each subject, the oldest turns that the table has of it.
pub pending_batch-IsFront :
    (limit now : ℕ) (table : Table) (s : String)
    → IsSound table.rows
    → IsFront (turns_in s (pending_batch limit now table)) (turns_of s table.rows)
unfolding pending_batch
pending_batch-IsFront limit now table s sound =
    let blk = blocked now table.rows in
    let (rest, e) = turns_in-take s limit (eligible now blk table.rows) in
    elim (Bool-cases (blk s)) [
      | inl b ↦ (
        turns_of s table.rows,
        rw (front_of_nil _ rest (sym (eligible_blocked now blk s table.rows b) ∙ e)) refl,
      )
      | inr b ↦ (rest, sym (eligible_free now blk s table.rows b b sound) ∙ e)
    ]

pub pending_batch-blocked :
    (limit now : ℕ) (table : Table) (s : String)
    → blocked now table.rows s ≡ true
    → turns_in s (pending_batch limit now table) ≡ []
unfolding pending_batch
pending_batch-blocked limit now table s b =
    let blk = blocked now table.rows in
    let (rest, e) = turns_in-take s limit (eligible now blk table.rows) in
    front_of_nil _ rest (sym (eligible_blocked now blk s table.rows b) ∙ e)

-- Grouping.
abbrev pub group_of : String → List (String × List Pending) → List Pending
group_of s [] = []
group_of s ((j, rs) ∷ gs) = if str_eq j s then rs else group_of s gs

abbrev pub has_group : String → List (String × List Pending) → Bool
has_group s gs = any (λ (g : String × List Pending). str_eq g.0 s) gs

pub group_of_absent :
    (s : String) (gs : List (String × List Pending)) → has_group s gs ≡ false → group_of s gs ≡ []
group_of_absent s [] h = refl
group_of_absent s ((j, rs) ∷ gs) h = ground (arith, group_of_absent s gs)

-- Each subject has one group at most, and a group holds its subject's rows.
abbrev pub IsGrouped : List (String × List Pending) → Type 0
IsGrouped [] = Unit
IsGrouped ((s, rs) ∷ gs) =
    (has_group s gs ≡ false) × All (λ (r : Pending). str_eq r.subject s ≡ true) rs × IsGrouped gs

has_group-add :
    (s : String) (r : Pending) (gs : List (String × List Pending))
    → str_eq s r.subject ≡ false
    → has_group s gs ≡ false
    → has_group s (add_to_group r gs) ≡ false
has_group-add s r [] n h = ground (arith, eq_iff s r.subject, eq_iff r.subject s)
has_group-add s r ((j, rs) ∷ gs) n h = ground (arith, has_group-add s r gs n)

add-IsGrouped :
    (r : Pending) (gs : List (String × List Pending)) → IsGrouped gs → IsGrouped (add_to_group r gs)
add-IsGrouped r [] h = (refl, (eq_refl r.subject, tt), tt)
add-IsGrouped r ((j, rs) ∷ gs) h = elim (Bool-cases (str_eq j r.subject)) [
  | inl e ↦ rw e (
    h.0,
    All-append _ rs (r ∷ []) h.1 (ground (arith, e, eq_iff j r.subject, eq_iff r.subject j), tt),
    h.2,
  )
  | inr e ↦ rw e (has_group-add j r gs e h.0, h.1, add-IsGrouped r gs h.2)
]

group_of-add :
    (s : String) (r : Pending) (gs : List (String × List Pending))
    → turns_in s (group_of s (add_to_group r gs))
      ≡ turns_in s (group_of s gs) ++ turns_in s (r ∷ [])
group_of-add s r [] = ground arith
group_of-add s r ((j, rs) ∷ gs) = ground (
  arith,
  group_of-add s r gs,
  turns_in-append s rs (r ∷ []),
  eq_iff j r.subject,
  eq_iff r.subject s,
  eq_iff j s,
  append-nil (turns_in s rs),
  append-nil (turns_in s (group_of s gs)),
)

pub group_rows-IsGrouped :
    (gs : List (String × List Pending)) (rs : List Pending)
    → IsGrouped gs
    → IsGrouped (group_rows gs rs)
unfolding group_rows
group_rows-IsGrouped gs [] h = h
group_rows-IsGrouped gs (r ∷ rs) h =
    group_rows-IsGrouped (add_to_group r gs) rs (add-IsGrouped r gs h)

-- Grouping keeps each subject's rows, in their order.
pub group_of-group_rows :
    (s : String) (gs : List (String × List Pending)) (rs : List Pending)
    → turns_in s (group_of s (group_rows gs rs)) ≡ turns_in s (group_of s gs) ++ turns_in s rs
unfolding group_rows
group_of-group_rows s gs [] = sym (append-nil _)
group_of-group_rows s gs (r ∷ rs) =
    group_of-group_rows s (add_to_group r gs) rs
    ∙ ap (λ z. z ++ turns_in s rs) (group_of-add s r gs)
    ∙ append_assoc (turns_in s (group_of s gs)) (turns_in s (r ∷ [])) (turns_in s rs)
    ∙ ap (λ z. turns_in s (group_of s gs) ++ z) (sym (turns_in-append s (r ∷ []) rs))
