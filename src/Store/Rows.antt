-- ===== src/Store/Rows.antt =====
-- The rows of `AgentRuntimeStore`: sessions, conversations, turns, messages and jobs. A JSON column
-- stands by its text, a time by its microseconds.
use eidolon_agent.Base.{ℕ, Option, List, String}
use eidolon_agent.Outbox.Memory.{Row}

-- `RuntimeSessionRow`
pub record Session : Type 0 where
  pub session_id : String
  pub owner_id : String
  pub companion_id : String
  pub source_device_id : Option String
  pub transport : String
  pub status : String
  pub metadata : String
  pub started_at : ℕ
  pub last_seen_at : ℕ
  pub ended_at : Option ℕ
  pub created_at : ℕ
  pub updated_at : ℕ

-- `ConversationRow`
pub record Conversation : Type 0 where
  pub conversation_id : String
  pub owner_id : String
  pub companion_id : String
  pub runtime_session_id : Option String
  pub source_device_id : Option String
  pub title : Option String
  pub status : String
  pub started_at : ℕ
  pub updated_at : ℕ
  pub ended_at : Option ℕ
  pub metadata : String

-- `TurnRow`
pub record StoredTurn : Type 0 where
  pub turn_id : String
  pub conversation_id : String
  pub seq : ℕ
  pub runtime_session_id : Option String
  pub source_device_id : Option String
  pub trigger : String
  pub status : String
  pub started_at : ℕ
  pub finished_at : Option ℕ
  pub trace_id : Option String
  pub trace : String
  pub metrics : String
  pub metadata : String

-- `MessageRow`
pub record Message : Type 0 where
  pub message_id : String
  pub turn_id : String
  pub seq : ℕ
  pub role : String
  pub content : String
  pub content_type : String
  pub visibility : String
  pub created_at : ℕ
  pub metadata : String

-- `JobRow`
pub record Job : Type 0 where
  pub job_id : String
  pub owner_id : String
  pub companion_id : Option String
  pub conversation_id : Option String
  pub turn_id : Option String
  pub provider : String
  pub kind : String
  pub status : String
  pub input : String
  pub provider_ref : String
  pub progress : String
  pub result : String
  pub error : String
  pub created_at : ℕ
  pub updated_at : ℕ
  pub completed_at : Option ℕ

pub record Tables : Type 0 where
  pub sessions : List Session
  pub conversations : List Conversation
  pub turns : List StoredTurn
  pub messages : List Message
  pub jobs : List Job
  pub outbox : List Row
