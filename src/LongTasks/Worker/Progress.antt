-- ===== src/LongTasks/Worker/Progress.antt =====
-- Where the calls of the worker, of eidolon_agent/infra/long_tasks/mementos.py, bring a task in the
-- store, and how this composes along its awaits.
use eidolon_agent.Base.{
  ℕ, ◌≡◌, refl, ap, ◌∙◌, Bool, true, false, Option, none, some, String, arith, if◌then◌else◌,
  is_some, str_eq,
}
use eidolon_agent.LongTasks.{LongTaskStatus, is_terminal}
use eidolon_agent.LongTasks.Jobs.{JobStore}
use eidolon_agent.LongTasks.Jobs.Lifecycle.{
  StoreCall, polls, completes, summarizes, fails, claims, perform, Life, live, status_in, life_of,
}
use eidolon_agent.LongTasks.Jobs.Keyed.{IsKeyed, perform-IsKeyed}
use eidolon_agent.LongTasks.Jobs.Refines.{life-perform}
use eidolon_agent.LongTasks.Events.{Answer, answered, raised}
use eidolon_agent.LongTasks.Worker.{World, Attempt, returned, threw, unfinished, Proc, go_on, await}

abbrev pub is_over : Option LongTaskStatus → Bool
is_over none = false
is_over (some st) = is_terminal st

-- The task has a row, in a table of rows under their ids.
abbrev pub HasRow : String → JobStore → Type 0
HasRow id s = IsKeyed s.rows × (is_some (status_in id s.rows) ≡ true)

-- And it is over.
abbrev pub HasEnded : String → JobStore → Type 0
HasEnded id s = IsKeyed s.rows × (is_over (status_in id s.rows) ≡ true)

pub ended-HasRow : (id : String) (s : JobStore) → HasEnded id s → HasRow id s
ended-HasRow id s (w, h) = (w, by_status (status_in id s.rows) h)
  where
    by_status : (o : Option LongTaskStatus) → is_over o ≡ true → is_some o ≡ true
    by_status none h = h
    by_status (some st) h = refl

-- The calls that bring the task to an end, and those that leave it where it is.
abbrev ends_task : String → StoreCall → Bool
ends_task id (completes j _) = str_eq j id
ends_task id (fails j f) = if str_eq j id then is_terminal f.end else false
ends_task id _ = false

abbrev leaves_task : StoreCall → Bool
leaves_task (polls _ _ _) = true
leaves_task (summarizes _ _) = true
leaves_task (claims _ _) = true
leaves_task _ = false

live_keeps_row :
    (id : String) (c : StoreCall) (l : Life)
    → is_some l.status ≡ true
    → is_some (live id c l).status ≡ true
unfolding live
live_keeps_row id c l h = ground arith

live_ends :
    (id : String) (c : StoreCall) (l : Life)
    → ends_task id c ≡ true
    → is_some l.status ≡ true
    → is_over (live id c l).status ≡ true
unfolding live
live_ends id c l e h = ground arith

live_leaves : (id : String) (c : StoreCall) (l : Life) → leaves_task c ≡ true → live id c l ≡ l
unfolding live
live_leaves id c l e = ground arith

module _ (id : String) (c : StoreCall) (now : ℕ) (s : JobStore) where
  status-perform :
      IsKeyed s.rows → status_in id (perform c now s).rows ≡ (live id c (life_of id s)).status
  unfolding life_of
  status-perform w = ap (λ (l : Life). l.status) (life-perform id c now s w)

  pub perform-HasRow : HasRow id s → HasRow id (perform c now s)
  unfolding life_of
  perform-HasRow (w, h) = (
    perform-IsKeyed c now s w,
    ap is_some (status-perform w) ∙ live_keeps_row id c (life_of id s) h,
  )

  pub perform-HasEnded : ends_task id c ≡ true → HasRow id s → HasEnded id (perform c now s)
  unfolding life_of
  perform-HasEnded e (w, h) =
      (perform-IsKeyed c now s w, ap is_over (status-perform w) ∙ live_ends id c (life_of id s) e h)

  pub perform_leaves : leaves_task c ≡ true → HasEnded id s → HasEnded id (perform c now s)
  unfolding life_of
  perform_leaves e (w, h) = (
    perform-IsKeyed c now s w,
    ap is_over (status-perform w ∙ ap (λ (l : Life). l.status) (live_leaves id c (life_of id s) e))
        ∙ h,
  )

-- What holds after a part of the worker: `Q` if it returns, `R` if it raises; it does finish.
abbrev pub Leads :
    {A : Type 0} → (JobStore → Type 0) → (JobStore → Type 0) → Attempt A × World → Type 0
Leads Q R (returned a, w) = Q w.store
Leads Q R (threw e, w) = R w.store
Leads Q R (unfinished, w) = ⊥

pub Leads-then :
    {A B : Type 0} (Q Q' R : JobStore → Type 0) (x : Attempt A × World) (f : A → Proc B)
    → Leads Q R x
    → ((a : A) (w : World) → Q w.store → Leads Q' R (f a w))
    → Leads Q' R (go_on f x)
Leads-then Q Q' R (returned a, w) f h k = k a w h
Leads-then Q Q' R (threw e, w) f h k = h
Leads-then Q Q' R (unfinished, w) f h k = absurd h

pub Leads-await :
    {A : Type 0} (Q R : JobStore → Type 0) (a : Answer A) (w : World)
    → Q w.store
    → R w.store
    → Leads Q R (await a w)
Leads-await Q R (answered a) w q r = q
Leads-await Q R (raised e) w q r = r

pub Leads-if :
    {A : Type 0} (Q R : JobStore → Type 0) (b : Bool) (p q : Proc A) (w : World)
    → Leads Q R (p w)
    → Leads Q R (q w)
    → Leads Q R ((if b then p else q) w)
Leads-if Q R true p q w h k = h
Leads-if Q R false p q w h k = k
