-- ===== src/Bus/InMemory/Delivery.antt =====
-- An event goes to every matching subscription without a group, and to one of each group.
use eidolon_agent.Base.{
  ℕ, ◌≡◌, refl, Bool, true, not, ◌&&◌, some, List, [], ◌∷◌, String, arith, str_mem, eq_iff, opt_eq,
  if◌then◌else◌, keep_if, any, length, All, is_some, Option-cases, inl, inr,
}
use eidolon_agent.Bus.Glob.{matches}
use eidolon_agent.Bus.InMemory.{Subscription, add_seen, targets_from, publish}

abbrev pub in_group : String → Subscription → Bool
in_group g s = opt_eq s.queue_group (some g)

abbrev pub alone : Subscription → Bool
alone s = not (is_some s.queue_group)

abbrev pub listens : String → Subscription → Bool
listens subject s = matches s.pattern subject

-- How many of a group get the event: one, if the group has not been seen and one of it listens.
abbrev share : String → String → List String → List Subscription → ℕ
share subject g seen subs =
    if not (str_mem g seen) && any (λ s. in_group g s && listens subject s) subs then 1 else 0

one_of_group :
    (subject g : String) (seen : List String) (subs : List Subscription)
    → length (keep_if (in_group g) (targets_from subject seen subs)) ≡ share subject g seen subs
unfolding targets_from
one_of_group subject g seen [] = ground arith
one_of_group subject g seen (s ∷ subs) = elim (Option-cases s.queue_group) [
  | inl e ↦ rw e (ground (arith, one_of_group subject g seen subs))
  | inr (h, e) ↦ rw e (
      ground (
        arith,
        one_of_group subject g seen subs,
        one_of_group subject g (h ∷ seen) subs,
        eq_iff h g,
        eq_iff g h,
      ))
]

all_alone :
    (subject : String) (seen : List String) (subs : List Subscription)
    → keep_if alone (targets_from subject seen subs)
      ≡ keep_if (λ s. alone s && listens subject s) subs
unfolding targets_from
all_alone subject seen [] = refl
all_alone subject seen (s ∷ subs) = elim (Option-cases s.queue_group) [
  | inl e ↦ rw e (ground (arith, all_alone subject seen subs))
  | inr (h, e) ↦
      rw e (ground (arith, all_alone subject seen subs, all_alone subject (h ∷ seen) subs))
]

All-listens :
    (subject : String) (seen : List String) (subs : List Subscription)
    → All (λ s. listens subject s ≡ true) (targets_from subject seen subs)
unfolding targets_from
All-listens subject seen [] = tt
All-listens subject seen (s ∷ subs) =
    ground
      (arith, All-listens subject seen subs, All-listens subject (add_seen s.queue_group seen) subs)

-- Only subscriptions whose pattern matches get an event; of those without a queue group each gets
-- it once, in the order of their subscription, and of every queue group exactly one gets it if
-- one of the group matches, and none otherwise.
pub publish_delivers :
    (subject g : String) (subs : List Subscription)
    → All (λ s. listens subject s ≡ true) (publish subject subs)
      × (keep_if alone (publish subject subs) ≡ keep_if (λ s. alone s && listens subject s) subs)
      × (length (keep_if (in_group g) (publish subject subs))
          ≡ (if any (λ s. in_group g s && listens subject s) subs then 1 else 0))
unfolding publish
publish_delivers subject g subs =
    (All-listens subject [] subs, all_alone subject [] subs, one_of_group subject g [] subs)
