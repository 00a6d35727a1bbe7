-- ===== src/Conversations/Stored.antt =====
-- What the persister leaves in the tables.
use eidolon_agent.Base.{
  ℕ, ◌≡◌, refl, sym, ap, ◌∙◌, false, ◌&&◌, Option, none, some, List, [], ◌∷◌, String, arith, str_eq,
  eq_iff, eq_refl, if◌then◌else◌, ◌==◌, Bool-cases, inl, inr,
}
use eidolon_agent.Base.Dict.{Dict, lookup, insert, lookup-insert}
use eidolon_agent.Conversations.{ConversationRow, TurnRow, MessageRow, Tables}
use eidolon_agent.Conversations.Guard.{Refusal, verify_turn, verify_existing_turn_scope, present}
use eidolon_agent.Conversations.Rows.{
  FinishedTurn, persisted_row, new_turn, rewritten_turn, user_message_row, assistant_message_row,
}
use eidolon_agent.Conversations.Persist.{
  next_turn_seq, finish_attempt, persist_once, put_message, find_message, put_text, write_messages,
  persist_from, persist, retry,
}
use eidolon_agent.Conversations.Scope.{scope-claimed_row}
use eidolon_agent.Conversations.Numbered.{IsNumbered, next_is_free}
use eidolon_agent.Conversations.Admitted.{IsOpen, open_verifies}

abbrev pub content_in : Option MessageRow → Option String
content_in none = none
content_in (some m) = some m.content

-- The text of a turn's message.
abbrev pub text_at : String → ℕ → List MessageRow → Option String
text_at turn_id seq ms = content_in (find_message turn_id seq ms)

text_at-put_message :
    (t : String) (q : ℕ) (m : MessageRow) (ms : List MessageRow)
    → text_at t q (put_message m ms)
      ≡ (if str_eq m.turn_id t && m.seq == q then some m.content else text_at t q ms)
unfolding put_message find_message
text_at-put_message t q m [] = ground arith
text_at-put_message t q m (x ∷ xs) = ground (
  arith,
  eq_iff m.turn_id t,
  eq_iff x.turn_id t,
  eq_iff x.turn_id m.turn_id,
  text_at-put_message t q m xs,
)

text_at-put_text :
    (text t : String) (q : ℕ) (m : MessageRow) (ms : List MessageRow)
    → text_at t q (put_text text m ms) ≡ (
        if str_eq text ""
        then text_at t q ms
        else (if str_eq m.turn_id t && m.seq == q then some m.content else text_at t q ms))
text_at-put_text text t q m ms = elim (Bool-cases (str_eq text "")) [
  | inl e ↦ rw e refl
  | inr e ↦ rw e (text_at-put_message t q m ms)
]

module _ (p : FinishedTurn) (model_id : Option String) (ms : List MessageRow) where
  user_text_at :
      text_at p.ti.turn_id 0 (write_messages p model_id ms)
      ≡ (if str_eq p.user_text "" then text_at p.ti.turn_id 0 ms else some p.user_text)
  user_text_at = ground (
    arith,
    eq_refl p.ti.turn_id,
    text_at-put_text p.assistant_text p.ti.turn_id 0 (assistant_message_row p model_id)
        (put_text p.user_text (user_message_row p) ms),
    text_at-put_text p.user_text p.ti.turn_id 0 (user_message_row p) ms,
  )

  assistant_text_at :
      text_at p.ti.turn_id 1 (write_messages p model_id ms)
      ≡ (if str_eq p.assistant_text "" then text_at p.ti.turn_id 1 ms else some p.assistant_text)
  assistant_text_at = ground (
    arith,
    eq_refl p.ti.turn_id,
    text_at-put_text p.assistant_text p.ti.turn_id 1 (assistant_message_row p model_id)
        (put_text p.user_text (user_message_row p) ms),
    text_at-put_text p.user_text p.ti.turn_id 1 (user_message_row p) ms,
  )

-- The number of a turn: the one that it has, or the next.
abbrev pub seq_or : Option TurnRow → ℕ → ℕ
seq_or none n = n
seq_or (some row) n = row.seq

-- The turn's row and texts after the writes, with the tables before them.
pub record IsStored (p : FinishedTurn) (s s' : Tables) : Type 0 where
  pub row : TurnRow
  pub found : lookup p.ti.turn_id s'.turns ≡ some row
  pub belongs : row.conversation_id ≡ p.ti.conversation_id
  pub numbered :
      row.seq ≡ seq_or (lookup p.ti.turn_id s.turns) (next_turn_seq p.ti.conversation_id s.turns)
  pub stated : row.status ≡ p.status
  pub heard :
      text_at p.ti.turn_id 0 s'.messages
      ≡ (if str_eq p.user_text "" then text_at p.ti.turn_id 0 s.messages else some p.user_text)
  pub said : text_at p.ti.turn_id 1 s'.messages ≡ (
      if str_eq p.assistant_text ""
      then text_at p.ti.turn_id 1 s.messages
      else some p.assistant_text)

module _ (p : FinishedTurn) (model_id : Option String) (s : Tables) where
  -- A turn that may be stored: it has a session, its conversation is new or of its scope, and the
  -- row that it has, if any, is of its conversation and memory scope.
  abbrev pub MayStore : Type 0
  MayStore =
      (str_eq p.ti.session_id "" ≡ false)
      × IsOpen p.ti s
      × (verify_turn (lookup p.ti.turn_id s.turns) p.ti ≡ none)
      × IsNumbered p.ti.conversation_id s.turns

  same_conversation :
      (row : TurnRow)
      → verify_turn (some row) p.ti ≡ none
      → row.conversation_id ≡ p.ti.conversation_id
  unfolding verify_existing_turn_scope
  same_conversation row h = elim (Bool-cases (str_eq row.conversation_id p.ti.conversation_id)) [
    | inl t ↦ (eq_iff _ _).0 t
    | inr t ↦ absurd (cc (rw t at h))
  ]

  insert_found :
      (r : TurnRow) (d : Dict TurnRow) → lookup p.ti.turn_id (insert p.ti.turn_id r d) ≡ some r
  insert_found r d = lookup-insert p.ti.turn_id p.ti.turn_id r d ∙ rw (eq_refl p.ti.turn_id) refl

  finish-IsStored :
      (now : ℕ) (row : ConversationRow) (old : Option TurnRow)
      → lookup p.ti.turn_id s.turns ≡ old
      → verify_turn old p.ti ≡ none
      → IsNumbered p.ti.conversation_id s.turns
      → ((finish_attempt p model_id now row none old s).0 ≡ none)
        × IsStored p s (finish_attempt p model_id now row none old s).1
  finish-IsStored now row none e v h =
      let n = next_turn_seq p.ti.conversation_id s.turns in
      let r : TurnRow = new_turn p model_id n in
      rw (next_is_free p.ti.conversation_id s.turns h) (
        refl,
        record {
          row = r;
          found = insert_found r s.turns;
          belongs = refl;
          numbered = ap (λ z. seq_or z n) (sym e);
          stated = refl;
          heard = user_text_at p model_id s.messages;
          said = assistant_text_at p model_id s.messages;
        },
      )
  finish-IsStored now row (some old) e v h =
      let r : TurnRow = rewritten_turn p model_id old in
      (
        refl,
        record {
          row = r;
          found = insert_found r s.turns;
          belongs = same_conversation old v;
          numbered = ap (λ z. seq_or z (next_turn_seq p.ti.conversation_id s.turns)) (sym e);
          stated = refl;
          heard = user_text_at p model_id s.messages;
          said = assistant_text_at p model_id s.messages;
        },
      )

  persist_once-IsStored :
      (now : ℕ)
      → MayStore
      → ((persist_once p model_id now s).0 ≡ none) × IsStored p s (persist_once p model_id now s).1
  unfolding persist_once
  persist_once-IsStored now (t, o, v, h) =
      rw
        (
          t,
          open_verifies p.ti (persisted_row p) (lookup p.ti.conversation_id s.conversations)
              (scope-claimed_row p.ti 0) o,
          v,
        )
        (finish-IsStored now
          (present (persisted_row p) (lookup p.ti.conversation_id s.conversations))
          (lookup p.ti.turn_id s.turns) refl v h)

-- For a turn with a session, whose conversation is new or has its scope and numbers its turns from
-- 0 on, and whose row, if there is one, is of its conversation and memory scope: the persister
-- returns, whatever others would do between its attempts; the turn's row has its conversation and
-- status, and the number that it had or else the next one; its texts are stored, and an empty text
-- leaves what was there.
pub persist-IsStored :
    (others : ℕ → Tables → Tables) (p : FinishedTurn) (model_id : Option String) (now : ℕ → ℕ)
    (s : Tables)
    → MayStore p model_id s
    → ((persist others p model_id now s).0 ≡ none)
      × IsStored p s (persist others p model_id now s).1
unfolding persist_from
persist-IsStored others p model_id now s h =
    first (persist_once p model_id (now 0) s) _ (persist_once-IsStored p model_id s (now 0) h)
  where
    first :
        (x next : Option Refusal × Tables)
        → (x.0 ≡ none) × IsStored p s x.1
        → ((retry x next).0 ≡ none) × IsStored p s (retry x next).1
    first (none, s') next k = k
    first (some e, s') next k = absurd (cc (k.0))
