-- ===== src/Store/Delete.antt =====
-- `delete_owner_runtime` and `delete_companion_runtime`, with what the foreign keys do: turns go
-- with their conversation and messages with their turn (CASCADE), and a conversation or a turn
-- loses its reference to a session that goes (SET NULL).
pub mod Integrity
pub mod Others
mod Tests
use eidolon_agent.Base.{
  ℕ, Bool, true, false, not, ◌&&◌, Option, none, some, List, String, map, str_eq, opt_eq,
  if◌then◌else◌, keep_if, any, length,
}
use eidolon_agent.Outbox.Memory.{Row}
use eidolon_agent.Store.Rows.{Session, Conversation, StoredTurn, Message, Job, Tables}

-- What is deleted: rows by owner and companion; a job may have no companion.
pub record Scope : Type 0 where
  pub row : String → String → Bool
  pub job : String → Option String → Bool

abbrev pub owner_scope : String → Scope
owner_scope owner_id = record { row = λ o c. str_eq o owner_id; job = λ o c. str_eq o owner_id }

abbrev pub companion_scope : String → String → Scope
companion_scope owner_id companion_id = record {
  row = λ o c. str_eq o owner_id && str_eq c companion_id;
  job = λ o c. str_eq o owner_id && opt_eq c (some companion_id);
}

pub record Counts : Type 0 where
  pub messages : ℕ
  pub turns : ℕ
  pub memory_turn_outbox : ℕ
  pub jobs : ℕ
  pub conversations : ℕ
  pub runtime_sessions : ℕ

-- The rows that a delete leaves.
abbrev pub without {ℓ} : {A : Type ℓ} → (A → Bool) → List A → List A
without p xs = keep_if (λ x. not (p x)) xs

abbrev pub is_session : String → Session → Bool
is_session id s = str_eq s.session_id id

-- A reference to a session that goes becomes NULL.
abbrev pub unlinked : List Session → Option String → Option String
unlinked gone none = none
unlinked gone (some id) = if any (is_session id) gone then none else some id

module _ (scope : Scope) where
  abbrev pub conversation_goes : Conversation → Bool
  conversation_goes c = scope.row c.owner_id c.companion_id

  abbrev pub session_goes : Session → Bool
  session_goes s = scope.row s.owner_id s.companion_id

  abbrev pub outbox_goes : Row → Bool
  outbox_goes r = scope.row r.owner_id r.companion_id

  abbrev pub job_goes : Job → Bool
  job_goes j = scope.job j.owner_id j.companion_id

  -- The join of turns with the conversations of the scope.
  abbrev pub turn_goes : List Conversation → StoredTurn → Bool
  turn_goes cs t =
      any (λ (c : Conversation). str_eq c.conversation_id t.conversation_id && conversation_goes c)
        cs

  -- The join of messages with those turns.
  abbrev pub message_goes : List Conversation → List StoredTurn → Message → Bool
  message_goes cs ts m = any (λ (t : StoredTurn). str_eq t.turn_id m.turn_id && turn_goes cs t) ts

  unfoldable pub counts : Tables → Counts
  counts t = record {
    messages = length (keep_if (message_goes t.conversations t.turns) t.messages);
    turns = length (keep_if (turn_goes t.conversations) t.turns);
    memory_turn_outbox = length (keep_if outbox_goes t.outbox);
    jobs = length (keep_if job_goes t.jobs);
    conversations = length (keep_if conversation_goes t.conversations);
    runtime_sessions = length (keep_if session_goes t.sessions);
  }

  -- The deletes in their order, each with its cascade.
  pub delete_outbox : Tables → Tables
  delete_outbox t = record t { outbox = without outbox_goes t.outbox }

  pub delete_jobs : Tables → Tables
  delete_jobs t = record t { jobs = without job_goes t.jobs }

  pub delete_conversations : Tables → Tables
  delete_conversations t = record t {
    conversations = without conversation_goes t.conversations;
    turns = without (turn_goes t.conversations) t.turns;
    messages = without (message_goes t.conversations t.turns) t.messages;
  }

  pub delete_sessions : Tables → Tables
  delete_sessions t =
      let gone = keep_if session_goes t.sessions in
      record t {
        sessions = without session_goes t.sessions;
        conversations =
            map
              (λ (c : Conversation). record c {
                runtime_session_id = unlinked gone c.runtime_session_id;
              })
              t.conversations;
        turns =
            map
              (λ (x : StoredTurn). record x {
                runtime_session_id = unlinked gone x.runtime_session_id;
              })
              t.turns;
      }

  unfoldable pub delete_scope : Tables → Counts × Tables
  unfolding delete_outbox delete_jobs delete_conversations delete_sessions
  delete_scope t =
      (counts t, delete_sessions (delete_conversations (delete_jobs (delete_outbox t))))

unfoldable pub delete_owner_runtime : String → Tables → Counts × Tables
delete_owner_runtime owner_id t = delete_scope (owner_scope owner_id) t

unfoldable pub delete_companion_runtime : String → String → Tables → Counts × Tables
delete_companion_runtime owner_id companion_id t =
    delete_scope (companion_scope owner_id companion_id) t
