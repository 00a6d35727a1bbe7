-- ===== src/Conversations/Tests.antt =====
-- The guard and the persister on concrete turns.
use eidolon_agent.Base.{◌≡◌, refl, true, false, none, some, List, [], ◌∷◌, String, inl, ◌↔◌, ◌⊎◌}
use eidolon_agent.Base.Dict.{lookup, insert}
use eidolon_agent.Base.Json.{no_fields}
use eidolon_agent.Conversations.{TurnContext, TurnInput, Tables}
use eidolon_agent.Conversations.Guard.{
  other_person, identity_changed, no_session, other_conversation, guard, input_facts,
}
use eidolon_agent.Conversations.Rows.{FinishedTurn}
use eidolon_agent.Conversations.Persist.{turn_seqs, persist_once, persist_from, persist}
use eidolon_agent.Conversations.Calls.{Call, guards, persists, perform, perform_all}
use eidolon_agent.Conversations.Numbered.{IsNumbered, perform_all-IsNumbered}
use eidolon_agent.Conversations.Scope.{InOneRoom, InOneTalk}
use eidolon_agent.Conversations.Admitted.{admitted_agree, IsOpen, guard_iff}
use eidolon_agent.Conversations.Stored.{IsStored, persist-IsStored}

-- A Person's context, bound to one session.
abbrev ann : TurnContext
ann = record {
  owner_id = "o";
  companion_id = "c";
  device_id = some "kitchen";
  memory_realm_id = "m";
  genome_id = "g";
  trace_id = "tr";
  request_id = "rq";
  person_id = some "ann";
  identity_epoch = some 2;
  person_revision = some 1;
  schema_version = "1";
  genome_hash = "h";
  realizer_version = "1";
  memory_enabled = true;
  source_session_id = none;
  provisional_memory_save = false;
  provisional_memory_recall = false;
}

abbrev turn_of : TurnContext → String → TurnInput
turn_of who id = record {
  turn_id = id;
  conversation_id = "talk";
  session_id = "s1";
  context = who;
  input_modality = "voice";
  trigger = "user_utterance";
}

abbrev finished : TurnInput → FinishedTurn
finished ti = record {
  ti = ti;
  status = "ok";
  triage_kind = "simple";
  started_at = 5;
  finished_at = 9;
  first_delta_ms = some 100;
  total_ms = 400;
  usage_in = 10;
  usage_out = 3;
  error_code = none;
  timings = no_fields;
  user_text = "hello";
  assistant_text = "hi";
  is_private = false;
}

abbrev no_tables : Tables
no_tables = record { sessions = []; conversations = []; turns = []; messages = [] }

abbrev first_call : Call
first_call = guards (turn_of ann "t1") 1

abbrev calls : List Call
calls =
    persists (finished (turn_of ann "t1")) none 9
    ∷ guards (turn_of (record ann { person_id = some "bob" }) "t2") 10
    ∷ persists (finished (turn_of ann "t3")) (some "model") 11
    ∷ persists (finished (turn_of ann "t1")) none 12
    ∷ []

-- Another Person is refused, so is a new epoch, and an input without a session.
bob_refused :
    (guard
      (turn_of (record ann { person_id = some "bob" }) "t2")
      10
      (perform first_call no_tables).1).0
    ≡ some other_person
unfolding guard perform lookup insert
bob_refused = refl

epoch_refused :
    (guard
      (turn_of (record ann { identity_epoch = some 3 }) "t2")
      10
      (perform first_call no_tables).1).0
    ≡ some identity_changed
unfolding guard perform lookup insert
epoch_refused = refl

empty_session_refused :
    guard (record (turn_of ann "t1") { session_id = "" }) 1 no_tables ≡ (some no_session, no_tables)
unfolding guard lookup insert
empty_session_refused = refl

-- In a room every Person speaks in the same conversation.
room_is_shared :
    (guard
      (turn_of (record ann { person_id = some "bob"; source_session_id = some "s1" }) "t2")
      10
      (guard (turn_of (record ann { source_session_id = some "s1" }) "t1") 1 no_tables).1).0
    ≡ none
unfolding guard lookup insert
room_is_shared = refl

-- A turn that is stored again keeps its number; the next one has the next.
numbers : turn_seqs "talk" (perform_all calls (perform first_call no_tables).1).turns ≡ 0 ∷ 1 ∷ []
unfolding perform_all perform lookup insert
numbers = refl

-- A turn of another conversation under the same id is refused.
moved_turn_refused :
    (persist_once
      (finished (record (turn_of ann "t1") { conversation_id = "other" }))
      none
      12
      (perform_all calls no_tables)).0
    ≡ some other_conversation
unfolding persist_once perform_all lookup insert
moved_turn_refused = refl

admitted_agree_example :
    InOneRoom (input_facts (turn_of ann "t1")) (input_facts (turn_of ann "t4"))
    ⊎ InOneTalk (input_facts (turn_of ann "t1")) (input_facts (turn_of ann "t4"))
unfolding perform_all perform lookup insert
admitted_agree_example =
    admitted_agree first_call (persists (finished (turn_of ann "t4")) none 20) calls no_tables refl
      refl refl

guard_iff_example :
    ((guard (turn_of ann "t2") 20 (perform_all calls no_tables)).0 ≡ none)
    ↔ IsOpen (turn_of ann "t2") (perform_all calls no_tables)
unfolding perform_all lookup insert
guard_iff_example = guard_iff (turn_of ann "t2") 20 (perform_all calls no_tables) refl refl

perform_all-IsNumbered_example : IsNumbered "talk" (perform_all calls no_tables).turns
perform_all-IsNumbered_example = perform_all-IsNumbered "talk" calls no_tables refl

persist-IsStored_example :
    ((persist (λ _ s. s) (finished (turn_of ann "t1")) none (λ k. k) no_tables).0 ≡ none)
    × IsStored
        (finished (turn_of ann "t1"))
        no_tables
        (persist (λ _ s. s) (finished (turn_of ann "t1")) none (λ k. k) no_tables).1
unfolding persist_from lookup insert
persist-IsStored_example =
    persist-IsStored (λ _ s. s) (finished (turn_of ann "t1")) none (λ k. k) no_tables
      (refl, inl refl, refl, refl)
