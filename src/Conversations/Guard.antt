-- ===== src/Conversations/Guard.antt =====
-- `build_agent_conversation_guard` of eidolon_agent/infra/persistence/agent_runtime.py. A call is one
-- transaction: a refusal leaves the tables as they were.
use eidolon_agent.Base.{
  ℕ, Bool, true, false, not, ◌&&◌, ◌||◌, Option, none, some, String, str_eq, opt_eq, or_else,
  is_some, if◌then◌else◌, ◌==◌,
}
use eidolon_agent.Base.Dict.{Dict, lookup, insert}
use eidolon_agent.Conversations.{TurnInput, Metadata, ConversationRow, TurnRow, Tables}

-- What the guard and the persister raise.
pub data Refusal : Type 0 where
  no_session other_room other_scope provisional_changed memory_changed : Refusal
  other_person identity_changed : Refusal
  other_conversation turn_provisional_changed other_memory_scope not_unique : Refusal

-- `raise` under a test, before the rest.
abbrev pub require : Bool → Refusal → Option Refusal → Option Refusal
require true e rest = rest
require false e rest = some e

abbrev pub bool_eq : Bool → Bool → Bool
bool_eq true b = b
bool_eq false b = not b

abbrev pub number_eq : Option ℕ → Option ℕ → Bool
number_eq none none = true
number_eq (some a) (some b) = a == b
number_eq _ _ = false

-- A session that is known, and is the one of the source.
abbrev pub one_session : Option String → Option String → Bool
one_session (some a) (some b) = str_eq a b
one_session _ _ = false

abbrev pub is_shared_input : TurnInput → Bool
is_shared_input ti = one_session ti.context.source_session_id (some ti.session_id)

-- `_conversation_metadata` with every key.
abbrev pub full_metadata : TurnInput → Metadata
full_metadata ti = record {
  owner_id = some ti.context.owner_id;
  companion_id = some ti.context.companion_id;
  runtime_session_id = some ti.session_id;
  memory_realm_id = some ti.context.memory_realm_id;
  memory_enabled = some ti.context.memory_enabled;
  provisional_memory_save = some ti.context.provisional_memory_save;
  provisional_memory_recall = some ti.context.provisional_memory_recall;
  person_id = ti.context.person_id;
  identity_epoch = ti.context.identity_epoch;
  person_revision = ti.context.person_revision;
  genome_id = some ti.context.genome_id;
  genome_hash = some ti.context.genome_hash;
  schema_version = some ti.context.schema_version;
  realizer_version = some ti.context.realizer_version;
  session_id = some ti.session_id;
  source_session_id = ti.context.source_session_id;
}

-- Without the keys that a room's conversation does not keep.
abbrev pub impersonal : Metadata → Metadata
impersonal m = record m {
  memory_realm_id = none;
  memory_enabled = none;
  provisional_memory_save = none;
  provisional_memory_recall = none;
  person_id = none;
  identity_epoch = none;
  person_revision = none;
}

-- `_conversation_metadata`
abbrev pub conversation_metadata : TurnInput → Metadata
conversation_metadata ti =
    if is_shared_input ti then impersonal (full_metadata ti) else full_metadata ti

-- What `_verify_conversation_scope` reads of a row or of an input, with its defaults.
pub record ScopeFacts : Type 0 where
  pub owner : String
  pub companion : String
  pub device : Option String
  pub source : Option String
  pub session : Option String
  pub realm : Option String
  pub enabled : Bool
  pub save : Bool
  pub recall : Bool
  pub person : Option String
  pub epoch : Option ℕ
  pub revision : Option ℕ

abbrev pub row_facts : ConversationRow → ScopeFacts
row_facts row = record {
  owner = row.owner_id;
  companion = row.companion_id;
  device = row.source_device_id;
  source = row.metadata.source_session_id;
  session = row.metadata.session_id;
  realm = row.metadata.memory_realm_id;
  enabled = or_else row.metadata.memory_enabled true;
  save = or_else row.metadata.provisional_memory_save false;
  recall = or_else row.metadata.provisional_memory_recall false;
  person = row.metadata.person_id;
  epoch = row.metadata.identity_epoch;
  revision = row.metadata.person_revision;
}

abbrev pub input_facts : TurnInput → ScopeFacts
input_facts ti = record {
  owner = ti.context.owner_id;
  companion = ti.context.companion_id;
  device = ti.context.device_id;
  source = ti.context.source_session_id;
  session = some ti.session_id;
  realm = some ti.context.memory_realm_id;
  enabled = ti.context.memory_enabled;
  save = ti.context.provisional_memory_save;
  recall = ti.context.provisional_memory_recall;
  person = ti.context.person_id;
  epoch = ti.context.identity_epoch;
  revision = ti.context.person_revision;
}

abbrev pub is_shared : ScopeFacts → Bool
is_shared f = one_session f.source f.session

abbrev pub is_personal : ScopeFacts → Bool
is_personal f = is_some f.person || not f.enabled

abbrev pub same_room : ScopeFacts → ScopeFacts → Bool
same_room f g =
    str_eq f.owner g.owner
    && (str_eq f.companion g.companion
        && (opt_eq f.device g.device && (opt_eq f.source g.source && opt_eq f.session g.session)))

abbrev pub same_target : ScopeFacts → ScopeFacts → Bool
same_target f g =
    str_eq f.owner g.owner && (str_eq f.companion g.companion && opt_eq f.realm g.realm)

abbrev pub same_identity : ScopeFacts → ScopeFacts → Bool
same_identity f g =
    number_eq f.epoch g.epoch
    && (number_eq f.revision g.revision && (opt_eq f.session g.session && opt_eq f.device g.device))

-- The tests of `_verify_conversation_scope`, of a row's facts and an input's.
unfoldable pub compare_scope : ScopeFacts → ScopeFacts → Option Refusal
compare_scope f g =
    if is_shared g || is_shared f
    then require (is_shared g && same_room f g) other_room none
    else require (same_target f g) other_scope (
        require (bool_eq f.save g.save && bool_eq f.recall g.recall) provisional_changed (
          require (bool_eq f.enabled g.enabled) memory_changed (
            require (opt_eq f.person g.person) other_person
              (require (not (is_personal g) || same_identity f g) identity_changed none))))

-- `_verify_conversation_scope`
unfoldable pub verify_conversation_scope : ConversationRow → TurnInput → Option Refusal
unfolding compare_scope
verify_conversation_scope row ti = compare_scope (row_facts row) (input_facts ti)

-- `_verify_existing_turn_scope`
unfoldable pub verify_existing_turn_scope : TurnRow → TurnInput → Option Refusal
verify_existing_turn_scope row ti =
    let m = row.metadata.bound in
    require (str_eq row.conversation_id ti.conversation_id) other_conversation (
      require
        (bool_eq (or_else m.provisional_memory_save false) ti.context.provisional_memory_save
          && bool_eq (or_else m.provisional_memory_recall false)
              ti.context.provisional_memory_recall)
        turn_provisional_changed
        (require
          (opt_eq m.person_id ti.context.person_id
            && (number_eq m.person_revision ti.context.person_revision
                && (number_eq m.identity_epoch ti.context.identity_epoch
                    && opt_eq m.memory_realm_id (some ti.context.memory_realm_id))))
          other_memory_scope none))

abbrev pub verify_turn : Option TurnRow → TurnInput → Option Refusal
verify_turn none ti = none
verify_turn (some row) ti = verify_existing_turn_scope row ti

-- `_insert_ignore`
abbrev pub insert_absent {ℓ} : {V : Type ℓ} → String → V → Dict V → Option V → Dict V
insert_absent k v d none = insert k v d
insert_absent k v d (some old) = d

-- The row that is read after the insert.
abbrev pub present {ℓ} : {V : Type ℓ} → V → Option V → V
present v none = v
present v (some old) = old

-- The guard's row of a conversation that it claims; the defaults of the columns are the clock's time.
abbrev pub claimed_row : TurnInput → ℕ → ConversationRow
claimed_row ti now = record {
  owner_id = ti.context.owner_id;
  companion_id = ti.context.companion_id;
  runtime_session_id = none;
  source_device_id = ti.context.device_id;
  started_at = now;
  updated_at = now;
  metadata = conversation_metadata ti;
}

-- A verdict with the tables that are committed under it.
abbrev pub commit : Option Refusal → Tables → Tables → Option Refusal × Tables
commit none s' s = (none, s')
commit (some e) s' s = (some e, s)

abbrev pub and_then : Option Refusal → Option Refusal → Option Refusal
and_then none next = next
and_then (some e) next = some e

abbrev pub claim : TurnInput → ℕ → Option ConversationRow → Tables → Option Refusal × Tables
claim ti now old s =
    commit
      (and_then (verify_conversation_scope (present (claimed_row ti now) old) ti)
        (verify_turn (lookup ti.turn_id s.turns) ti))
      (record s {
        conversations = insert_absent ti.conversation_id (claimed_row ti now) s.conversations old;
      })
      s

-- The guard of a turn; `_runtime_session_id` refuses an input without a session.
unfoldable pub guard : TurnInput → ℕ → Tables → Option Refusal × Tables
unfolding verify_conversation_scope verify_existing_turn_scope
guard ti now s =
    if str_eq ti.session_id ""
    then (some no_session, s)
    else claim ti now (lookup ti.conversation_id s.conversations) s
