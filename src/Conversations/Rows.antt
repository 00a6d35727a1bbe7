-- ===== src/Conversations/Rows.antt =====
-- The rows that `_persist_once` of eidolon_agent/infra/persistence/agent_runtime.py writes.
use eidolon_agent.Base.{
  ℕ, zero, suc, Bool, true, false, Option, none, some, String, str_eq, if◌then◌else◌,
}
use Prim.Native.String.{◌++◌ as ◌+++◌}
use eidolon_agent.Base.Json.{Fields}
use eidolon_agent.Conversations.{
  TurnInput, TurnMetadata, Metrics, SessionRow, ConversationRow, TurnRow, MessageRow,
}
use eidolon_agent.Conversations.Guard.{full_metadata, conversation_metadata}

-- The arguments of `_persist`.
pub record FinishedTurn : Type 0 where
  pub ti : TurnInput
  pub status : String
  pub triage_kind : String
  pub started_at : ℕ
  pub finished_at : ℕ
  pub first_delta_ms : Option ℕ
  pub total_ms : ℕ
  pub usage_in : ℕ
  pub usage_out : ℕ
  pub error_code : Option String
  pub timings : Fields
  pub user_text : String
  pub assistant_text : String
  pub is_private : Bool

abbrev text_or_none : String → Option String
text_or_none t = if str_eq t "" then none else some t

abbrev number_or_none : ℕ → Option ℕ
number_or_none zero = none
number_or_none (suc n) = some (suc n)

abbrev first_seen : ℕ → Option SessionRow → ℕ
first_seen now none = now
first_seen now (some row) = row.started_at

-- `_upsert_runtime_session`
abbrev pub session_row : TurnInput → ℕ → Option SessionRow → SessionRow
session_row ti now old = record {
  owner_id = ti.context.owner_id;
  companion_id = ti.context.companion_id;
  source_device_id = ti.context.device_id;
  transport = "grpc_chat";
  status = "active";
  input_modality = ti.input_modality;
  conversation_id = ti.conversation_id;
  trace_id = ti.context.trace_id;
  request_id = ti.context.request_id;
  started_at = first_seen now old;
  last_seen_at = now;
  updated_at = now;
}

-- `_turn_metadata_json`
abbrev pub turn_metadata : FinishedTurn → TurnMetadata
turn_metadata p = record {
  timings = p.timings;
  bound = full_metadata p.ti;
  input_modality = p.ti.input_modality;
  device_id = p.ti.context.device_id;
  triage_kind = p.triage_kind;
  trace_id = p.ti.context.trace_id;
  request_id = p.ti.context.request_id;
}

-- `_turn_metrics_json`
abbrev pub turn_metrics : FinishedTurn → Option String → Metrics
turn_metrics p model_id = record {
  latency_first_delta_ms = p.first_delta_ms;
  total_latency_ms = p.total_ms;
  tokens_in = p.usage_in;
  tokens_out = p.usage_out;
  model = model_id;
  error_code = p.error_code;
  device_id = p.ti.context.device_id;
  input_modality = p.ti.input_modality;
  triage_kind = p.triage_kind;
}

abbrev pub new_turn : FinishedTurn → Option String → ℕ → TurnRow
new_turn p model_id seq = record {
  conversation_id = p.ti.conversation_id;
  seq = seq;
  runtime_session_id = some p.ti.session_id;
  source_device_id = p.ti.context.device_id;
  trigger = p.ti.trigger;
  status = p.status;
  started_at = p.started_at;
  finished_at = p.finished_at;
  trace_id = text_or_none p.ti.context.trace_id;
  metrics = turn_metrics p model_id;
  metadata = turn_metadata p;
}

abbrev pub merged_metrics : FinishedTurn → Option String → Metrics → Metrics
merged_metrics p model_id old = record old {
  latency_first_delta_ms = p.first_delta_ms;
  total_latency_ms = p.total_ms;
  tokens_in = p.usage_in;
  tokens_out = p.usage_out;
  model = model_id;
  error_code = p.error_code;
}

-- A turn that is there keeps its conversation and its number.
abbrev pub rewritten_turn : FinishedTurn → Option String → TurnRow → TurnRow
rewritten_turn p model_id row = record row {
  trigger = p.ti.trigger;
  status = p.status;
  started_at = p.started_at;
  finished_at = p.finished_at;
  runtime_session_id = some p.ti.session_id;
  source_device_id = p.ti.context.device_id;
  trace_id = text_or_none p.ti.context.trace_id;
  metrics = merged_metrics p model_id row.metrics;
  metadata = turn_metadata p;
}

abbrev visibility_of : Bool → String
visibility_of true = "private"
visibility_of false = "normal"

-- The messages of a turn, whose ids are those of `_turn_message_id`.
abbrev pub user_message_row : FinishedTurn → MessageRow
user_message_row p = record {
  message_id = "msg_" +++ p.ti.turn_id +++ "_0";
  turn_id = p.ti.turn_id;
  seq = 0;
  role = "user";
  content = p.user_text;
  content_type = "text/plain";
  visibility = visibility_of p.is_private;
  tokens = none;
  model = none;
  created_at = p.started_at;
}

abbrev pub assistant_message_row : FinishedTurn → Option String → MessageRow
assistant_message_row p model_id = record {
  message_id = "msg_" +++ p.ti.turn_id +++ "_1";
  turn_id = p.ti.turn_id;
  seq = 1;
  role = "assistant";
  content = p.assistant_text;
  content_type = "text/plain";
  visibility = visibility_of p.is_private;
  tokens = number_or_none p.usage_out;
  model = model_id;
  created_at = p.finished_at;
}

abbrev pub persisted_row : FinishedTurn → ConversationRow
persisted_row p = record {
  owner_id = p.ti.context.owner_id;
  companion_id = p.ti.context.companion_id;
  runtime_session_id = some p.ti.session_id;
  source_device_id = p.ti.context.device_id;
  started_at = p.started_at;
  updated_at = p.finished_at;
  metadata = conversation_metadata p.ti;
}

abbrev pub touched_row : FinishedTurn → ConversationRow → ConversationRow
touched_row p row = record row {
  updated_at = p.finished_at;
  runtime_session_id = some p.ti.session_id;
  source_device_id = p.ti.context.device_id;
}
