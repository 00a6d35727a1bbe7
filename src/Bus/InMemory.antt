-- ===== src/Bus/InMemory.antt =====
-- `InMemoryEventBus` of eidolon_agent/infra/events/adapters/inmem.py: who gets an event. A handler
-- stands by its number; what the handlers do runs in tasks of its own, as does `request`.
pub mod Delivery
pub mod Leave
mod Tests
use eidolon_agent.Base.{
  ℕ, Bool, true, false, not, ◌&&◌, ◌||◌, Option, none, some, List, [], ◌∷◌, ◌++◌, String, str_eq,
  str_mem, opt_eq, if◌then◌else◌, ◌==◌, any,
}
use eidolon_agent.Bus.Glob.{matches}

-- `_Subscription`
pub record Subscription : Type 0 where
  pub pattern : String
  pub handler : ℕ
  pub queue_group : Option String

-- `subscribe`: the list `_subs` with the new subscription.
unfoldable pub subscribe : String → ℕ → Option String → List Subscription → List Subscription
subscribe subject handler queue_group subs =
    subs ++ record { pattern = subject; handler = handler; queue_group = queue_group } ∷ []

-- Dataclass equality.
abbrev pub same : Subscription → Subscription → Bool
same a b =
    str_eq a.pattern b.pattern && a.handler == b.handler && opt_eq a.queue_group b.queue_group

-- `_unsub`: the first subscription that equals this one is removed, if there is one.
unfoldable pub unsubscribe : Subscription → List Subscription → List Subscription
unsubscribe sub [] = []
unsubscribe sub (s ∷ subs) =
    let rest = unsubscribe sub subs in if same s sub then subs else s ∷ rest

abbrev pub in_seen : Option String → List String → Bool
in_seen none seen = false
in_seen (some g) seen = str_mem g seen

abbrev pub add_seen : Option String → List String → List String
add_seen none seen = seen
add_seen (some g) seen = g ∷ seen

-- The loop of `publish`, with the groups seen so far.
unfoldable pub targets_from : String → List String → List Subscription → List Subscription
targets_from subject seen [] = []
targets_from subject seen (s ∷ subs) =
    let skipped = targets_from subject seen subs in
    let taken = targets_from subject (add_seen s.queue_group seen) subs in
    if not (matches s.pattern subject)
    then skipped
    else if in_seen s.queue_group seen
    then skipped
    else s ∷ taken

-- The subscriptions that `publish` starts a delivery for, in order.
unfoldable pub publish : String → List Subscription → List Subscription
unfolding targets_from
publish subject subs = targets_from subject [] subs
