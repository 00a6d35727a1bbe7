-- ===== src/Conversations/Fate.antt =====
-- What a transaction of the guard or the persister, of
-- eidolon_agent/infra/persistence/agent_runtime.py, does to the scopes of the conversations.
use eidolon_agent.Base.{
  ℕ, ◌≡◌, refl, sym, ap, ◌∙◌, Bool, true, false, Option, none, some, String, str_eq, eq_iff,
  if◌then◌else◌, is_some, Bool-cases, ◌⊎◌, inl, inr, arith,
}
use eidolon_agent.Base.Dict.{Dict, lookup, insert, lookup-insert}
use eidolon_agent.Conversations.{TurnInput, ConversationRow, TurnRow, Tables}
use eidolon_agent.Conversations.Guard.{
  Refusal, verify_conversation_scope, insert_absent, present, and_then, claimed_row, commit, guard,
  row_facts, input_facts,
}
use eidolon_agent.Conversations.Rows.{FinishedTurn, persisted_row, touched_row}
use eidolon_agent.Conversations.Persist.{write_turn, finish_attempt, written_tables, persist_once}
use eidolon_agent.Conversations.Scope.{
  Scope, scope, compare_scope_iff, scope-refresh, scope-claimed_row,
}
use eidolon_agent.Conversations.Calls.{Call, guards, persists, input_of, perform}

abbrev pub row_scope : Option ConversationRow → Option Scope
row_scope none = none
row_scope (some row) = some (scope (row_facts row))

-- Whose a conversation is, if there is one.
abbrev pub scope_at : String → Tables → Option Scope
scope_at c s = row_scope (lookup c s.conversations)

-- The scope that a turn comes with.
abbrev pub scope_of : TurnInput → Scope
scope_of ti = scope (input_facts ti)

-- A call is refused and changes nothing, or its conversation has the call's scope after it, and had
-- no other before, and every other conversation is as it was.
abbrev pub Fate : TurnInput → Tables → Option Refusal × Tables → Type 0
Fate ti s x =
    ((e : Refusal) × (x ≡ (some e, s)))
    ⊎ ((x.0 ≡ none)
        × ((c : String)
            → scope_at c x.1
              ≡ (if str_eq ti.conversation_id c then some (scope_of ti) else scope_at c s))
        × ((scope_at ti.conversation_id s ≡ none)
            ⊎ (scope_at ti.conversation_id s ≡ some (scope_of ti))))

verified :
    (row : ConversationRow) (ti : TurnInput)
    → verify_conversation_scope row ti ≡ none
    → scope (row_facts row) ≡ scope_of ti
unfolding verify_conversation_scope
verified row ti h = (compare_scope_iff (row_facts row) (input_facts ti)).0 h

and_then-none : (a b : Option Refusal) → and_then a b ≡ none → (a ≡ none) × (b ≡ none)
and_then-none a b h = ground arith

scope_at-insert :
    (c k : String) (row : ConversationRow) (d : Dict ConversationRow)
    → row_scope (lookup c (insert k row d))
      ≡ (if str_eq k c then some (scope (row_facts row)) else row_scope (lookup c d))
scope_at-insert c k row d = ap row_scope (lookup-insert k c row d) ∙ by_key (str_eq k c)
  where
    by_key :
        (b : Bool)
        → row_scope (if b then some row else lookup c d)
          ≡ (if b then some (scope (row_facts row)) else row_scope (lookup c d))
    by_key true = refl
    by_key false = refl

-- An unchanged table, where the conversation's row has the scope.
unchanged :
    (ti : TurnInput) (s : Tables) (row : ConversationRow) (c : String)
    → lookup ti.conversation_id s.conversations ≡ some row
    → scope (row_facts row) ≡ scope_of ti
    → scope_at c s ≡ (if str_eq ti.conversation_id c then some (scope_of ti) else scope_at c s)
unchanged ti s row c e h = elim (Bool-cases (str_eq ti.conversation_id c)) [
  | inl t ↦ rw t (ap (λ z. scope_at z s) (sym ((eq_iff _ _).0 t)) ∙ ap row_scope e ∙ ap some h)
  | inr t ↦ rw t refl
]

module _ (ti : TurnInput) (now : ℕ) (s : Tables) where
  commit-Fate :
      (old : Option ConversationRow) (v : Option Refusal)
      → lookup ti.conversation_id s.conversations ≡ old
      → (v ≡ none → verify_conversation_scope (present (claimed_row ti now) old) ti ≡ none)
      → Fate ti s (
          commit v
            (record s {
              conversations =
                  insert_absent ti.conversation_id (claimed_row ti now) s.conversations old;
            })
            s)
  commit-Fate old (some e) q h = inl (e, refl)
  commit-Fate none none q h = inr (
    refl,
    (λ c.
        scope_at-insert c ti.conversation_id (claimed_row ti now) s.conversations
        ∙ ap (λ z. if str_eq ti.conversation_id c then some z else scope_at c s)
            (scope-claimed_row ti now)),
    inl (ap row_scope q),
  )
  commit-Fate (some row) none q h =
      let same = verified row ti (h refl) in
      inr (refl, (λ c. unchanged ti s row c q same), inr (ap row_scope q ∙ ap some same))

  pub guard-Fate : Fate ti s (guard ti now s)
  unfolding guard
  guard-Fate = elim (Bool-cases (str_eq ti.session_id "")) [
    | inl t ↦ rw t (inl (_, refl))
    | inr t ↦ rw t (
        commit-Fate (lookup ti.conversation_id s.conversations) _ refl
          (λ h. (and_then-none _ _ h).0))
  ]

module _ (p : FinishedTurn) (model_id : Option String) (now : ℕ) (s : Tables) where
  touched-scope :
      (row : ConversationRow)
      → scope (row_facts row) ≡ scope_of p.ti
      → scope (row_facts (touched_row p row)) ≡ scope_of p.ti
  touched-scope row h = scope-refresh (row_facts row) (input_facts p.ti) h ∙ h

  was_open :
      (old : Option ConversationRow)
      → lookup p.ti.conversation_id s.conversations ≡ old
      → scope (row_facts (present (persisted_row p) old)) ≡ scope_of p.ti
      → (scope_at p.ti.conversation_id s ≡ none)
        ⊎ (scope_at p.ti.conversation_id s ≡ some (scope_of p.ti))
  was_open none e h = inl (ap row_scope e)
  was_open (some row) e h = inr (ap row_scope e ∙ ap some h)

  written-Fate :
      (old : Option ConversationRow) (turns : Dict TurnRow)
      → lookup p.ti.conversation_id s.conversations ≡ old
      → verify_conversation_scope (present (persisted_row p) old) p.ti ≡ none
      → Fate p.ti s (none, written_tables p model_id now (present (persisted_row p) old) turns s)
  written-Fate old turns e v =
      let row = present (persisted_row p) old in
      let same = verified row p.ti v in
      inr (
        refl,
        (λ c.
            scope_at-insert c p.ti.conversation_id (touched_row p row) s.conversations
            ∙ ap (λ z. if str_eq p.ti.conversation_id c then some z else scope_at c s)
                (touched-scope row same)),
        was_open old e same,
      )

  finish-Fate :
      (old : Option ConversationRow) (v : Option Refusal) (turn : Option TurnRow)
      → lookup p.ti.conversation_id s.conversations ≡ old
      → (v ≡ none → verify_conversation_scope (present (persisted_row p) old) p.ti ≡ none)
      → Fate p.ti s (finish_attempt p model_id now (present (persisted_row p) old) v turn s)
  finish-Fate old (some e) turn q h = inl (e, refl)
  finish-Fate old none turn q h = by_write (write_turn p model_id turn s.turns)
    where
      by_write :
          (x : Option Refusal × Dict TurnRow)
          → Fate p.ti s (
              if is_some x.0
              then (x.0, s)
              else (none, written_tables p model_id now (present (persisted_row p) old) x.1 s))
      by_write (some e, turns) = inl (e, refl)
      by_write (none, turns) = written-Fate old turns q (h refl)

  persist_once-Fate : Fate p.ti s (persist_once p model_id now s)
  unfolding persist_once
  persist_once-Fate = elim (Bool-cases (str_eq p.ti.session_id "")) [
    | inl t ↦ rw t (inl (_, refl))
    | inr t ↦ rw t (
        finish-Fate (lookup p.ti.conversation_id s.conversations) _ (lookup p.ti.turn_id s.turns)
          refl (λ h. (and_then-none _ _ h).0))
  ]

pub perform-Fate : (o : Call) (s : Tables) → Fate (input_of o) s (perform o s)
unfolding perform
perform-Fate (guards ti now) s = guard-Fate ti now s
perform-Fate (persists p model_id now) s = persist_once-Fate p model_id now s
