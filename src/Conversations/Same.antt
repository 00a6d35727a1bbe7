-- ===== src/Conversations/Same.antt =====
-- The tests of `_verify_conversation_scope`, of eidolon_agent/infra/persistence/agent_runtime.py, as
-- equations.
use eidolon_agent.Base.{
  ℕ, ◌≡◌, refl, Bool, true, false, not, ◌&&◌, ◌||◌, Option, none, some, String, opt_eq, eq_iff,
  arith, Bool-cases, ◌↔◌, ◌⊎◌, inl, inr,
}
use eidolon_agent.Conversations.Guard.{
  Refusal, require, other_scope, provisional_changed, memory_changed, other_person,
  identity_changed, bool_eq, number_eq, ScopeFacts, is_personal, same_room, same_target,
  same_identity,
}

bool_eq_iff : (a b : Bool) → (bool_eq a b ≡ true) ↔ (a ≡ b)
bool_eq_iff a b = ground arith

opt_eq_iff : (a b : Option String) → (opt_eq a b ≡ true) ↔ (a ≡ b)
opt_eq_iff none none = ground arith
opt_eq_iff none (some b) = ground arith
opt_eq_iff (some a) none = ground arith
opt_eq_iff (some a) (some b) = ground (arith, eq_iff a b)

number_eq_iff : (a b : Option ℕ) → (number_eq a b ≡ true) ↔ (a ≡ b)
number_eq_iff none none = ground arith
number_eq_iff none (some b) = ground arith
number_eq_iff (some a) none = ground arith
number_eq_iff (some a) (some b) = ground arith

and_iff : (a b : Bool) → ((a && b) ≡ true) ↔ ((a ≡ true) × (b ≡ true))
and_iff a b = ground arith

pub require_iff :
    (b : Bool) (e : Refusal) (o : Option Refusal)
    → (require b e o ≡ none) ↔ ((b ≡ true) × (o ≡ none))
require_iff b e o = ground arith

five_iff :
    (a b c d e : Bool)
    → (require a other_scope (
          require b provisional_changed
            (require c memory_changed (require d other_person (require e identity_changed none))))
        ≡ none)
      ↔ ((a ≡ true) × (b ≡ true) × (c ≡ true) × (d ≡ true) × (e ≡ true))
five_iff a b c d e = ground arith

-- The equations that a test of several fields stands for.
abbrev pub SameRoom : ScopeFacts → ScopeFacts → Type 0
SameRoom f g =
    (f.owner ≡ g.owner)
    × (f.companion ≡ g.companion)
    × (f.device ≡ g.device)
    × (f.source ≡ g.source)
    × (f.session ≡ g.session)

abbrev pub SameIdentity : ScopeFacts → ScopeFacts → Type 0
SameIdentity f g =
    (f.epoch ≡ g.epoch)
    × (f.revision ≡ g.revision)
    × (f.session ≡ g.session)
    × (f.device ≡ g.device)

-- What the tests for a conversation that is no room's come to.
abbrev pub SameBound : ScopeFacts → ScopeFacts → Type 0
SameBound f g =
    (f.owner ≡ g.owner)
    × (f.companion ≡ g.companion)
    × (f.realm ≡ g.realm)
    × (f.save ≡ g.save)
    × (f.recall ≡ g.recall)
    × (f.enabled ≡ g.enabled)
    × (f.person ≡ g.person)
    × ((is_personal g ≡ false) ⊎ SameIdentity f g)

module _ (f g : ScopeFacts) where
  pub same_room_iff : (same_room f g ≡ true) ↔ SameRoom f g
  same_room_iff = ground (
    arith,
    eq_iff f.owner g.owner,
    eq_iff f.companion g.companion,
    opt_eq_iff f.device g.device,
    opt_eq_iff f.source g.source,
    opt_eq_iff f.session g.session,
  )

  same_identity_iff : (same_identity f g ≡ true) ↔ SameIdentity f g
  same_identity_iff = ground (
    arith,
    number_eq_iff f.epoch g.epoch,
    number_eq_iff f.revision g.revision,
    opt_eq_iff f.session g.session,
    opt_eq_iff f.device g.device,
  )

  -- The tests of the second half.
  abbrev pub bound_tests : Option Refusal
  bound_tests = require (same_target f g) other_scope (
      require (bool_eq f.save g.save && bool_eq f.recall g.recall) provisional_changed (
        require (bool_eq f.enabled g.enabled) memory_changed (
          require (opt_eq f.person g.person) other_person
            (require (not (is_personal g) || same_identity f g) identity_changed none))))

  same_target_iff :
      (same_target f g ≡ true)
      ↔ ((f.owner ≡ g.owner) × (f.companion ≡ g.companion) × (f.realm ≡ g.realm))
  same_target_iff =
      ground
        (arith, eq_iff f.owner g.owner, eq_iff f.companion g.companion, opt_eq_iff f.realm g.realm)

  same_policy_iff :
      ((bool_eq f.save g.save && bool_eq f.recall g.recall) ≡ true)
      ↔ ((f.save ≡ g.save) × (f.recall ≡ g.recall))
  same_policy_iff = ground (arith, bool_eq_iff f.save g.save, bool_eq_iff f.recall g.recall)

  as_personal_iff :
      ((not (is_personal g) || same_identity f g) ≡ true)
      ↔ ((is_personal g ≡ false) ⊎ SameIdentity f g)
  as_personal_iff = elim (Bool-cases (is_personal g)) [
    | inl p ↦ rw p (
      (λ h. inr (same_identity_iff.0 h)),
      λ h. elim h [ inl q ↦ absurd (cc) | inr q ↦ same_identity_iff.1 q ],
    )
    | inr p ↦ rw p ((λ h. inl refl), λ h. refl)
  ]

  pub bound_tests_iff : (bound_tests ≡ none) ↔ SameBound f g
  bound_tests_iff =
      let chain =
        five_iff (same_target f g) (bool_eq f.save g.save && bool_eq f.recall g.recall)
          (bool_eq f.enabled g.enabled) (opt_eq f.person g.person)
          (not (is_personal g) || same_identity f g) in
      (
        (λ h.
            let (t, p, e, n, i) = chain.0 h in
            let (o, c, r) = same_target_iff.0 t in
            let (s, q) = same_policy_iff.0 p in
            (o, c, r, s, q, (bool_eq_iff _ _).0 e, (opt_eq_iff _ _).0 n, as_personal_iff.0 i)),
        λ h.
            let (o, c, r, s, q, e, n, i) = h in
            chain.1 (
              same_target_iff.1 (o, c, r),
              same_policy_iff.1 (s, q),
              (bool_eq_iff _ _).1 e,
              (opt_eq_iff _ _).1 n,
              as_personal_iff.1 i,
            ),
      )
