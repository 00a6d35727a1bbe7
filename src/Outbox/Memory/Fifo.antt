-- ===== src/Outbox/Memory/Fifo.antt =====
-- The outbox is a queue of each subject: what the bus has acknowledged, followed by what the table
-- still holds, is what was enqueued, whatever fails.
use eidolon_agent.Base.{
  ℕ, ◌+◌, ◌≡◌, ◌⊎◌, refl, sym, ap, ◌∙◌, true, false, List, [], ◌∷◌, ◌++◌, String, arith,
  if◌then◌else◌, str_eq, eq_iff, eq_refl, Bool-cases, inl, inr, append_assoc, append-nil, All,
}
use eidolon_agent.Outbox.Memory.{
  Pending, Publish, acked, raised, Dispatch, mark_published, mark_failed, pending_batch, group_rows,
  dispatch_rows, dispatch_groups, dispatch_once,
}
use eidolon_agent.Outbox.Memory.Rows.{
  turns_of, turns_in, IsSound, turns_in-append, turns_of-without, without-IsSound,
  turns_of-fail_first, fail_first-IsSound,
}
use eidolon_agent.Outbox.Memory.Batch.{
  IsFront, pending_batch-IsFront, group_of, group_of_absent, has_group, IsGrouped,
  group_rows-IsGrouped, group_of-group_rows,
}

-- Acknowledged, then waiting: the turns of a subject so far.
abbrev pub history : String → Dispatch → List String
history s d = turns_in s d.log ++ turns_of s d.table.rows

abbrev ack : Pending → Dispatch → Dispatch
ack r d = record {
  table = mark_published r.turn_id d.table;
  log = d.log ++ r ∷ [];
  published = d.published + 1;
}

turns_of-ack :
    (r : Pending) (d : Dispatch) (s : String) (rest : List String)
    → IsSound d.table.rows
    → turns_of r.subject d.table.rows ≡ r.turn_id ∷ rest
    → turns_of s (ack r d).table.rows
      ≡ (if str_eq r.subject s then rest else turns_of s d.table.rows)
unfolding mark_published
turns_of-ack r d s rest sound e = turns_of-without r.subject s r.turn_id rest d.table.rows sound e

history-ack :
    (r : Pending) (d : Dispatch) (s : String) (rest : List String)
    → IsSound d.table.rows
    → turns_of r.subject d.table.rows ≡ r.turn_id ∷ rest
    → history s (ack r d) ≡ history s d
history-ack r d s rest sound e =
    let moved = turns_of-ack r d s rest sound e in
    let logged : turns_in s (ack r d).log ≡ turns_in s d.log ++ turns_in s (r ∷ []) =
      turns_in-append s d.log (r ∷ []) in
    elim (Bool-cases (str_eq r.subject s)) [
      | inl same ↦
          let here : turns_of s d.table.rows ≡ r.turn_id ∷ rest =
            ap (λ t. turns_of t d.table.rows) (sym ((eq_iff r.subject s).0 same)) ∙ e in
          ground (arith, logged, moved, here, append_assoc (turns_in s d.log) (r.turn_id ∷ []) rest)
      | inr other ↦ ground (arith, logged, moved, append-nil (turns_in s d.log))
    ]

-- What a step of the dispatcher keeps: the table's invariant, and every subject's history.
pub record Keeps (d d' : Dispatch) : Type 0 where
  pub sound : IsSound d'.table.rows
  pub same_history : (s : String) → history s d' ≡ history s d

Keeps-trans : {a b c : Dispatch} → Keeps a b → Keeps b c → Keeps a c
Keeps-trans h k = record {
  sound = k.sound;
  same_history = λ s. k.same_history s ∙ h.same_history s;
}

Keeps-same :
    {d : Dispatch} {n : ℕ} {d' : Dispatch} → Keeps (record d { published = n }) d' → Keeps d d'
Keeps-same k = record { sound = k.sound; same_history = k.same_history }

fail_Keeps :
    (r : Pending) (error : String) (now : ℕ) (d : Dispatch)
    → IsSound d.table.rows
    → Keeps d (record d { table = mark_failed r.turn_id error now d.table })
unfolding mark_failed
fail_Keeps r error now d sound = record {
  sound = fail_first-IsSound r.turn_id error now d.table.rows sound;
  same_history =
      λ s. ap (λ z. turns_in s d.log ++ z) (turns_of-fail_first s r.turn_id error now d.table.rows);
}

fail_turns_of :
    (r : Pending) (error : String) (now : ℕ) (d : Dispatch) (s : String)
    → turns_of s (mark_failed r.turn_id error now d.table).rows ≡ turns_of s d.table.rows
unfolding mark_failed
fail_turns_of r error now d s = turns_of-fail_first s r.turn_id error now d.table.rows

ack-Keeps :
    (r : Pending) (d : Dispatch) (rest : List String)
    → IsSound d.table.rows
    → turns_of r.subject d.table.rows ≡ r.turn_id ∷ rest
    → Keeps d (ack r d)
ack-Keeps r d rest sound e = record {
  sound = unfold mark_published in without-IsSound r.turn_id d.table.rows sound;
  same_history = λ s. history-ack r d s rest sound e;
}

Publish-cases :
    (p : Publish) → (p ≡ acked) ⊎ (record { error : String; now : ℕ; is : p ≡ raised error now })
Publish-cases acked = inl refl
Publish-cases (raised error now) = inr (record { error = error; now = now; is = refl })

-- The first row of a group is its subject's oldest.
group_head :
    (j : String) (r : Pending) (rs : List Pending) (rest : List String) (d : Dispatch)
    → str_eq r.subject j ≡ true
    → turns_of j d.table.rows ≡ turns_in j (r ∷ rs) ++ rest
    → turns_of r.subject d.table.rows ≡ r.turn_id ∷ turns_in j rs ++ rest
group_head j r rs rest d own e =
    ap (λ t. turns_of t d.table.rows) ((eq_iff r.subject j).0 own) ∙ e ∙ rw own refl

-- After a dispatch of rows of `j`, no other subject's rows have changed.
abbrev Leaves : String → Dispatch → Dispatch → Type 0
Leaves j d d' =
    (s : String) → str_eq j s ≡ false → turns_of s d'.table.rows ≡ turns_of s d.table.rows

ack-Leaves :
    (j : String) (r : Pending) (d : Dispatch) (rest : List String)
    → str_eq r.subject j ≡ true
    → IsSound d.table.rows
    → turns_of r.subject d.table.rows ≡ r.turn_id ∷ rest
    → Leaves j d (ack r d)
ack-Leaves j r d rest own sound e s n =
    ground
      (arith, turns_of-ack r d s rest sound e, eq_iff r.subject j, eq_iff r.subject s, eq_iff j s)

module _ (bus : Pending → Publish) where
  -- The rows of one subject, which are the oldest that the table has of it.
  dispatch_rows-Keeps :
      (j : String) (rs : List Pending) (rest : List String) (d : Dispatch)
      → All (λ (r : Pending). str_eq r.subject j ≡ true) rs
      → IsSound d.table.rows
      → turns_of j d.table.rows ≡ turns_in j rs ++ rest
      → Keeps d (dispatch_rows bus rs d) × Leaves j d (dispatch_rows bus rs d)
  unfolding dispatch_rows
  dispatch_rows-Keeps j [] rest d own sound e =
      (record { sound = sound; same_history = λ s. refl }, λ s n. refl)
  dispatch_rows-Keeps j (r ∷ rs) rest d own sound e =
      let head = group_head j r rs rest d own.0 e in
      let kept = ack-Keeps r d (turns_in j rs ++ rest) sound head in
      let left = ack-Leaves j r d (turns_in j rs ++ rest) own.0 sound head in
      let next : turns_of j (ack r d).table.rows ≡ turns_in j rs ++ rest =
        turns_of-ack r d j (turns_in j rs ++ rest) sound head ∙ rw own.0 refl in
      let (k, l) = dispatch_rows-Keeps j rs rest (ack r d) own.1 kept.sound next in
      elim (Publish-cases (bus r)) [
        | inl e ↦ rw (e, dispatch_rows) (Keeps-trans kept k, λ s n. l s n ∙ left s n)
        | inr f ↦
            rw (f.is, dispatch_rows)
              (fail_Keeps r f.error f.now d sound, λ s n. fail_turns_of r f.error f.now d s)
      ]

  -- Every group holds the oldest rows of its subject.
  abbrev Fronts : List (String × List Pending) → Dispatch → Type 0
  Fronts [] d = Unit
  Fronts ((s, rs) ∷ gs) d =
      ((rest : List String) × (turns_of s d.table.rows ≡ turns_in s rs ++ rest)) × Fronts gs d

  Fronts-Leaves :
      (j : String) (gs : List (String × List Pending)) (d d' : Dispatch)
      → has_group j gs ≡ false
      → Leaves j d d'
      → Fronts gs d
      → Fronts gs d'
  Fronts-Leaves j [] d d' h l f = tt
  Fronts-Leaves j ((s, rs) ∷ gs) d d' h l f = (
    (f.0.0, l s (ground (arith, eq_iff s j, eq_iff j s)) ∙ f.0.1),
    Fronts-Leaves j gs d d' (ground arith) l f.1,
  )

  dispatch_groups-Keeps :
      (gs : List (String × List Pending)) (d : Dispatch)
      → IsGrouped gs
      → IsSound d.table.rows
      → Fronts gs d
      → Keeps d (dispatch_groups bus gs d)
  unfolding dispatch_groups
  dispatch_groups-Keeps [] d g sound f = record { sound = sound; same_history = λ s. refl }
  dispatch_groups-Keeps ((s, rs) ∷ gs) d g sound f =
      let d' = dispatch_rows bus rs d in
      let (k, l) = dispatch_rows-Keeps s rs f.0.0 d g.1 sound f.0.1 in
      Keeps-trans k (dispatch_groups-Keeps gs d' g.2 k.sound (Fronts-Leaves s gs d d' g.0 l f.1))

  later_fronts :
      (s : String) (rs : List Pending) (gs : List (String × List Pending)) (d : Dispatch)
      → has_group s gs ≡ false
      → ((j : String) → IsFront (turns_in j (group_of j ((s, rs) ∷ gs))) (turns_of j d.table.rows))
      → (j : String) → IsFront (turns_in j (group_of j gs)) (turns_of j d.table.rows)
  later_fronts s rs gs d h f j = elim (Bool-cases (str_eq s j)) [
    | inl e ↦
        let gone : has_group j gs ≡ false = ap (λ t. has_group t gs) (sym ((eq_iff s j).0 e)) ∙ h in
        (turns_of j d.table.rows, rw (group_of_absent j gs gone) refl)
    | inr e ↦ rw e at (f j)
  ]

  Fronts-of_groups :
      (gs : List (String × List Pending)) (d : Dispatch)
      → IsGrouped gs
      → ((s : String) → IsFront (turns_in s (group_of s gs)) (turns_of s d.table.rows))
      → Fronts gs d
  Fronts-of_groups [] d g f = tt
  Fronts-of_groups ((s, rs) ∷ gs) d g f =
      (rw (eq_refl s) at (f s), Fronts-of_groups gs d g.2 (later_fronts s rs gs d g.0 f))

  -- A dispatch round, whichever publications fail, keeps the table sound and the history of every
  -- subject: the acknowledged turns followed by the waiting ones are the same list as before, so
  -- none is lost, sent twice or overtaken.
  pub dispatch_once-Keeps :
      (batch_size now : ℕ) (d : Dispatch)
      → IsSound d.table.rows
      → Keeps d (dispatch_once bus batch_size now d)
  unfolding dispatch_once
  dispatch_once-Keeps batch_size now d sound =
      let batch = pending_batch batch_size now d.table in
      let fresh : Dispatch = record d { published = 0 } in
      Keeps-same (
        dispatch_groups-Keeps (group_rows [] batch) fresh (group_rows-IsGrouped [] batch tt) sound (
          Fronts-of_groups (group_rows [] batch) fresh (group_rows-IsGrouped [] batch tt) (λ s.
            rw (group_of-group_rows s [] batch)
              (pending_batch-IsFront batch_size now d.table s sound))))
