-- ===== src/Store/Delete/Tests.antt =====
-- Deletions from small tables.
use eidolon_agent.Base.{◌≡◌, refl, none, some, [], ◌∷◌, String, map, str_eq, keep_if}
use eidolon_agent.Outbox.Memory.{Row}
use eidolon_agent.Store.Rows.{Session, Conversation, StoredTurn, Message, Job, Tables}
use eidolon_agent.Store.Delete.{
  owner_scope, companion_scope, counts, delete_outbox, delete_jobs, delete_conversations,
  delete_sessions, delete_scope, delete_owner_runtime, delete_companion_runtime,
}
use eidolon_agent.Store.Delete.Integrity.{
  IsLinked, delete_scope-IsLinked, IsDeleted, delete_scope-IsDeleted,
}
use eidolon_agent.Store.Delete.Others.{conversation_ids, delete_owner_runtime-others}

abbrev session : String → String → Session
session id owner = record {
  session_id = id;
  owner_id = owner;
  companion_id = "c";
  source_device_id = none;
  transport = "";
  status = "active";
  metadata = "{}";
  started_at = 0;
  last_seen_at = 0;
  ended_at = none;
  created_at = 0;
  updated_at = 0;
}

abbrev conversation : String → String → String → Conversation
conversation id owner at = record {
  conversation_id = id;
  owner_id = owner;
  companion_id = "c";
  runtime_session_id = some at;
  source_device_id = none;
  title = none;
  status = "active";
  started_at = 0;
  updated_at = 0;
  ended_at = none;
  metadata = "{}";
}

abbrev turn : String → String → StoredTurn
turn id conversation_id = record {
  turn_id = id;
  conversation_id = conversation_id;
  seq = 1;
  runtime_session_id = none;
  source_device_id = none;
  trigger = "user";
  status = "completed";
  started_at = 0;
  finished_at = none;
  trace_id = none;
  trace = "{}";
  metrics = "{}";
  metadata = "{}";
}

abbrev message : String → String → Message
message id turn_id = record {
  message_id = id;
  turn_id = turn_id;
  seq = 1;
  role = "user";
  content = "hello";
  content_type = "text/plain";
  visibility = "normal";
  created_at = 0;
  metadata = "{}";
}

-- Bob's conversation ran in a session of Ann's.
abbrev tables : Tables
tables = record {
  sessions = session "s1" "ann" ∷ session "s2" "bob" ∷ [];
  conversations = conversation "k1" "ann" "s1" ∷ conversation "k2" "bob" "s1" ∷ [];
  turns = turn "t1" "k1" ∷ turn "t2" "k2" ∷ [];
  messages = message "m1" "t1" ∷ message "m2" "t1" ∷ message "m3" "t2" ∷ [];
  jobs = [];
  outbox = [];
}

abbrev left : Tables
left = (delete_owner_runtime "ann" tables).1

bob_is_left :
    (map (λ (m : Message). m.message_id) left.messages ≡ "m3" ∷ [])
    × (map (λ (c : Conversation). c.runtime_session_id) left.conversations ≡ none ∷ [])
    × ((delete_owner_runtime "ann" tables).0.messages ≡ 2)
    × ((delete_companion_runtime "bob" "d" tables).0.conversations ≡ 0)
unfolding delete_owner_runtime delete_companion_runtime delete_scope delete_outbox delete_jobs
    delete_conversations delete_sessions counts
bob_is_left = (refl, refl, refl, refl)

tables-IsLinked : IsLinked tables
tables-IsLinked = record {
  turns_linked = (refl, (refl, tt));
  messages_linked = (refl, (refl, (refl, tt)));
  conversations_at = (refl, (refl, tt));
  turns_at = (tt, (tt, tt));
}

delete_scope-IsLinked_example : IsLinked (delete_scope (owner_scope "ann") tables).1
delete_scope-IsLinked_example = delete_scope-IsLinked (owner_scope "ann") tables tables-IsLinked

delete_scope-IsDeleted_example :
    IsDeleted
      (companion_scope "ann" "c")
      tables
      (delete_scope (companion_scope "ann" "c") tables).1
      (delete_scope (companion_scope "ann" "c") tables).0
delete_scope-IsDeleted_example = delete_scope-IsDeleted (companion_scope "ann" "c") tables

delete_owner_runtime-others_example :
    (keep_if (λ (s : Session). str_eq s.owner_id "bob") left.sessions
      ≡ keep_if (λ (s : Session). str_eq s.owner_id "bob") tables.sessions)
    × (keep_if (λ (j : Job). str_eq j.owner_id "bob") left.jobs ≡ [])
    × (keep_if (λ (r : Row). str_eq r.owner_id "bob") left.outbox ≡ [])
    × (conversation_ids "bob" left.conversations ≡ conversation_ids "bob" tables.conversations)
delete_owner_runtime-others_example = delete_owner_runtime-others "ann" "bob" tables refl
