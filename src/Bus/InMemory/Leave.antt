-- ===== src/Bus/InMemory/Leave.antt =====
-- What the function that `subscribe` returns removes.
use eidolon_agent.Base.{
  ℕ, ◌≡◌, refl, true, false, Option, none, some, List, [], ◌∷◌, String, arith, opt_eq, eq_refl, any,
}
use eidolon_agent.Bus.InMemory.{Subscription, subscribe, unsubscribe, same}

abbrev pub subscription : String → ℕ → Option String → Subscription
subscription subject handler group = record {
  pattern = subject;
  handler = handler;
  queue_group = group;
}

opt_eq_refl : (o : Option String) → opt_eq o o ≡ true
opt_eq_refl none = refl
opt_eq_refl (some s) = eq_refl s

same_refl : (s : Subscription) → same s s ≡ true
same_refl s = ground (arith, eq_refl s.pattern, opt_eq_refl s.queue_group)

-- Leaving takes back a subscription that equals no other.
pub unsubscribe-subscribe :
    (subject : String) (handler : ℕ) (group : Option String) (subs : List Subscription)
    → any (λ s. same s (subscription subject handler group)) subs ≡ false
    → unsubscribe (subscription subject handler group) (subscribe subject handler group subs) ≡ subs
unfolding subscribe unsubscribe
unsubscribe-subscribe subject handler group [] h =
    rw (same_refl (subscription subject handler group)) refl
unsubscribe-subscribe subject handler group (s ∷ subs) h =
    ground (arith, unsubscribe-subscribe subject handler group subs)

-- If no subscription equals this one yet and it is made twice: leaving one of the two twice removes
-- both, since the second call does not find its own subscription, but an equal one.
pub unsubscribe_twice :
    (subject : String) (handler : ℕ) (group : Option String) (subs : List Subscription)
    → any (λ s. same s (subscription subject handler group)) subs ≡ false
    → let sub = subscription subject handler group in
      unsubscribe sub
        (unsubscribe sub (subscribe subject handler group (subscribe subject handler group subs)))
      ≡ subs
unfolding subscribe unsubscribe
unsubscribe_twice subject handler group [] h =
    rw (same_refl (subscription subject handler group))
      (rw (same_refl (subscription subject handler group)) refl)
unsubscribe_twice subject handler group (s ∷ subs) h =
    ground (arith, unsubscribe_twice subject handler group subs)
