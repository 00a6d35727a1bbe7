-- ===== src/Conversations/Admitted.antt =====
-- Which turns the guard and the persister admit to one conversation.
use eidolon_agent.Base.{
  ℕ, ◌≡◌, refl, sym, ap, ◌∙◌, false, Option, none, some, List, [], ◌∷◌, String, str_eq, eq_refl,
  eq_iff, some_inj, Bool-cases, ◌⊎◌, ◌↔◌, inl, inr,
}
use eidolon_agent.Base.Dict.{lookup}
use eidolon_agent.Conversations.{TurnInput, ConversationRow, Tables}
use eidolon_agent.Conversations.Guard.{
  Refusal, verify_conversation_scope, verify_turn, present, and_then, claimed_row, commit, guard,
  row_facts, input_facts,
}
use eidolon_agent.Conversations.Scope.{
  Scope, scope, compare_scope_iff, scope-claimed_row, InOneRoom, InOneTalk, scope_parts,
}
use eidolon_agent.Conversations.Calls.{Call, input_of, perform, perform_all}
use eidolon_agent.Conversations.Fate.{row_scope, scope_at, scope_of, Fate, guard-Fate, perform-Fate}

-- What an admitted call finds and leaves.
admits :
    (o : Call) (s : Tables)
    → (perform o s).0 ≡ none
    → scope_at (input_of o).conversation_id (perform o s).1 ≡ some (scope_of (input_of o))
admits o s h = by_fate (perform-Fate o s)
  where
    by_fate :
        Fate (input_of o) s (perform o s)
        → scope_at (input_of o).conversation_id (perform o s).1 ≡ some (scope_of (input_of o))
    by_fate (inl (e, q)) = absurd (cc (sym h ∙ ap (λ x. x.0) q))
    by_fate (inr (_, at, _)) =
        at (input_of o).conversation_id ∙ rw (eq_refl (input_of o).conversation_id) refl

-- A conversation's scope stays as it is.
keeps :
    (o : Call) (s : Tables) (c : String) (k : Scope)
    → scope_at c s ≡ some k
    → scope_at c (perform o s).1 ≡ some k
keeps o s c k h = by_fate (perform-Fate o s)
  where
    by_fate : Fate (input_of o) s (perform o s) → scope_at c (perform o s).1 ≡ some k
    by_fate (inl (e, q)) = ap (λ x. scope_at c x.1) q ∙ h
    by_fate (inr (_, at, open_to)) = elim (Bool-cases (str_eq (input_of o).conversation_id c)) [
      | inl t ↦
          let here : scope_at (input_of o).conversation_id s ≡ some k =
            ap (λ z. scope_at z s) ((eq_iff _ _).0 t) ∙ h in
          at c
          ∙ rw t (elim open_to [
            | inl missing ↦ absurd (cc (sym missing ∙ here))
            | inr found ↦ sym found ∙ here
          ])
      | inr t ↦ at c ∙ rw t h
    ]

keeps_all :
    (os : List Call) (s : Tables) (c : String) (k : Scope)
    → scope_at c s ≡ some k
    → scope_at c (perform_all os s) ≡ some k
unfolding perform_all
keeps_all [] s c k h = h
keeps_all (o ∷ os) s c k h = keeps_all os (perform o s).1 c k (keeps o s c k h)

one_scope :
    (o o' : Call) (os : List Call) (s : Tables)
    → (input_of o).conversation_id ≡ (input_of o').conversation_id
    → (perform o s).0 ≡ none
    → (perform o' (perform_all os (perform o s).1)).0 ≡ none
    → scope_of (input_of o) ≡ scope_of (input_of o')
one_scope o o' os s e h h' =
    let later = perform_all os (perform o s).1 in
    let k = scope_of (input_of o) in
    let kept =
      keeps o' later (input_of o).conversation_id k
        (keeps_all os (perform o s).1 (input_of o).conversation_id k (admits o s h)) in
    some_inj (sym kept ∙ ap (λ z. scope_at z (perform o' later).1) e ∙ admits o' later h')

-- If a transaction of the guard or the persister is admitted to a conversation, and later, whatever
-- transactions come between, another one of the same conversation is admitted too: either both turns
-- speak in one room, with one Owner, companion, device and session; or they have one Owner, companion,
-- realm, Person and memory policy, and, where there is a Person or the memory is disabled, one epoch,
-- revision, session and device. It holds whatever rows the tables held at first.
pub admitted_agree :
    (o o' : Call) (os : List Call) (s : Tables)
    → (input_of o).conversation_id ≡ (input_of o').conversation_id
    → (perform o s).0 ≡ none
    → (perform o' (perform_all os (perform o s).1)).0 ≡ none
    → InOneRoom (input_facts (input_of o)) (input_facts (input_of o'))
      ⊎ InOneTalk (input_facts (input_of o)) (input_facts (input_of o'))
admitted_agree o o' os s e h h' = scope_parts _ _ (one_scope o o' os s e h h')

-- A conversation that is new, or has this scope.
abbrev pub IsOpen : TurnInput → Tables → Type 0
IsOpen ti s =
    (scope_at ti.conversation_id s ≡ none) ⊎ (scope_at ti.conversation_id s ≡ some (scope_of ti))

pub open_verifies :
    (ti : TurnInput) (row : ConversationRow) (old : Option ConversationRow)
    → scope (row_facts row) ≡ scope_of ti
    → ((row_scope old ≡ none) ⊎ (row_scope old ≡ some (scope_of ti)))
    → verify_conversation_scope (present row old) ti ≡ none
unfolding verify_conversation_scope
open_verifies ti row none e h = (compare_scope_iff (row_facts row) (input_facts ti)).1 e
open_verifies ti row (some old) e (inl h) = absurd (cc)
open_verifies ti row (some old) e (inr h) =
    (compare_scope_iff (row_facts old) (input_facts ti)).1 (some_inj h)

commit_verdict : (v : Option Refusal) (s' s : Tables) → (commit v s' s).0 ≡ v
commit_verdict none s' s = refl
commit_verdict (some e) s' s = refl

-- The guard admits an input that has a session, and whose turn is not stored yet, exactly when its
-- conversation is new or has the scope of the input.
pub guard_iff :
    (ti : TurnInput) (now : ℕ) (s : Tables)
    → str_eq ti.session_id "" ≡ false
    → lookup ti.turn_id s.turns ≡ none
    → ((guard ti now s).0 ≡ none) ↔ IsOpen ti s
unfolding guard
guard_iff ti now s t fresh = (
  (λ h. by_fate h (guard-Fate ti now s)),
  λ h. rw t (
      commit_verdict _ _ _
      ∙ ap (and_then _) (ap (λ z. verify_turn z ti) fresh)
      ∙ rw
          (open_verifies ti (claimed_row ti now) (lookup ti.conversation_id s.conversations)
            (scope-claimed_row ti now) h)
          refl),
)
  where
    by_fate : (guard ti now s).0 ≡ none → Fate ti s (guard ti now s) → IsOpen ti s
    by_fate h (inl (e, q)) = absurd (cc (sym h ∙ ap (λ x. x.0) q))
    by_fate h (inr (_, _, open_to)) = open_to
