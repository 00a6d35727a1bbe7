-- ===== src/Conversations.antt =====
-- The conversations, turns and messages of eidolon_agent/infra/persistence/agent_runtime.py, whose
-- tables are dictionaries of rows by their primary keys. Of a turn's input and of the JSON columns
-- the model has what the conversation guard and the turn persister read and write; traces and the
-- observation of the speaker are left out. Epochs and revisions are natural numbers.
pub mod Guard
pub mod Rows
pub mod Persist
pub mod Calls
pub mod Same
pub mod Scope
pub mod Numbered
pub mod Fate
pub mod Admitted
pub mod Stored
mod Tests
use eidolon_agent.Base.{ℕ, Bool, Option, List, String}
use eidolon_agent.Base.Dict.{Dict}
use eidolon_agent.Base.Json.{Fields}

-- `TurnContext`
pub record TurnContext : Type 0 where
  pub owner_id : String
  pub companion_id : String
  pub device_id : Option String
  pub memory_realm_id : String
  pub genome_id : String
  pub trace_id : String
  pub request_id : String
  pub person_id : Option String
  pub identity_epoch : Option ℕ
  pub person_revision : Option ℕ
  pub schema_version : String
  pub genome_hash : String
  pub realizer_version : String
  pub memory_enabled : Bool
  pub source_session_id : Option String
  pub provisional_memory_save : Bool
  pub provisional_memory_recall : Bool

-- `TurnInput`; an enum stands by its value.
pub record TurnInput : Type 0 where
  pub turn_id : String
  pub conversation_id : String
  pub session_id : String
  pub context : TurnContext
  pub input_modality : String
  pub trigger : String

-- The keys that say whose a conversation or a turn is; an older row may lack any.
pub record Metadata : Type 0 where
  pub owner_id : Option String
  pub companion_id : Option String
  pub runtime_session_id : Option String
  pub memory_realm_id : Option String
  pub memory_enabled : Option Bool
  pub provisional_memory_save : Option Bool
  pub provisional_memory_recall : Option Bool
  pub person_id : Option String
  pub identity_epoch : Option ℕ
  pub person_revision : Option ℕ
  pub genome_id : Option String
  pub genome_hash : Option String
  pub schema_version : Option String
  pub realizer_version : Option String
  pub session_id : Option String
  pub source_session_id : Option String

-- What a turn's metadata has beside.
pub record TurnMetadata : Type 0 where
  pub timings : Fields
  pub bound : Metadata
  pub input_modality : String
  pub device_id : Option String
  pub triage_kind : String
  pub trace_id : String
  pub request_id : String

-- `_turn_metrics_json`
pub record Metrics : Type 0 where
  pub latency_first_delta_ms : Option ℕ
  pub total_latency_ms : ℕ
  pub tokens_in : ℕ
  pub tokens_out : ℕ
  pub model : Option String
  pub error_code : Option String
  pub device_id : Option String
  pub input_modality : String
  pub triage_kind : String

pub record SessionRow : Type 0 where
  pub owner_id : String
  pub companion_id : String
  pub source_device_id : Option String
  pub transport : String
  pub status : String
  pub input_modality : String
  pub conversation_id : String
  pub trace_id : String
  pub request_id : String
  pub started_at : ℕ
  pub last_seen_at : ℕ
  pub updated_at : ℕ

pub record ConversationRow : Type 0 where
  pub owner_id : String
  pub companion_id : String
  pub runtime_session_id : Option String
  pub source_device_id : Option String
  pub started_at : ℕ
  pub updated_at : ℕ
  pub metadata : Metadata

pub record TurnRow : Type 0 where
  pub conversation_id : String
  pub seq : ℕ
  pub runtime_session_id : Option String
  pub source_device_id : Option String
  pub trigger : String
  pub status : String
  pub started_at : ℕ
  pub finished_at : ℕ
  pub trace_id : Option String
  pub metrics : Metrics
  pub metadata : TurnMetadata

pub record MessageRow : Type 0 where
  pub message_id : String
  pub turn_id : String
  pub seq : ℕ
  pub role : String
  pub content : String
  pub content_type : String
  pub visibility : String
  pub tokens : Option ℕ
  pub model : Option String
  pub created_at : ℕ

pub record Tables : Type 0 where
  pub sessions : Dict SessionRow
  pub conversations : Dict ConversationRow
  pub turns : Dict TurnRow
  pub messages : List MessageRow
