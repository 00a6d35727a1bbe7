-- ===== src/Bus/InMemory/Tests.antt =====
-- Deliveries to a few subscriptions.
use eidolon_agent.Base.{
  ◌≡◌, refl, true, ◌&&◌, none, some, List, [], ◌∷◌, if◌then◌else◌, any, keep_if, length, All,
}
use eidolon_agent.Bus.Glob.{matches}
use eidolon_agent.Bus.InMemory.{Subscription, publish, subscribe, targets_from, unsubscribe}
use eidolon_agent.Bus.InMemory.Delivery.{in_group, alone, listens, publish_delivers}
use eidolon_agent.Bus.InMemory.Leave.{subscription, unsubscribe_twice}

abbrev subs : List Subscription
subs =
    subscription "memory.>" 1 none
    ∷ subscription "memory.*" 2 (some "g")
    ∷ subscription "memory.turn" 3 (some "g")
    ∷ subscription "home" 4 none
    ∷ []

delivered :
    publish "memory.turn" subs
    ≡ subscription "memory.>" 1 none ∷ subscription "memory.*" 2 (some "g") ∷ []
unfolding publish targets_from matches
delivered = refl

publish_delivers_example :
    All (λ s. listens "memory.turn" s ≡ true) (publish "memory.turn" subs)
    × (keep_if alone (publish "memory.turn" subs)
        ≡ keep_if (λ s. alone s && listens "memory.turn" s) subs)
    × (length (keep_if (in_group "g") (publish "memory.turn" subs))
        ≡ (if any (λ s. in_group "g" s && listens "memory.turn" s) subs then 1 else 0))
publish_delivers_example = publish_delivers "memory.turn" "g" subs

unsubscribe_twice_example :
    unsubscribe (subscription "memory.turn" 7 none) (
      unsubscribe
        (subscription "memory.turn" 7 none)
        (subscribe "memory.turn" 7 none (subscribe "memory.turn" 7 none subs)))
    ≡ subs
unsubscribe_twice_example = unsubscribe_twice "memory.turn" 7 none subs refl
