-- ===== src/Conversations/Persist.antt =====
-- `build_agent_turn_persister` of eidolon_agent/infra/persistence/agent_runtime.py. An attempt is one
-- transaction that takes the time it reads; a refusal rolls it back.
use eidolon_agent.Base.{
  ℕ, zero, suc, Bool, false, ◌||◌, ◌&&◌, Option, none, some, List, [], ◌∷◌, String, str_eq, is_some,
  if◌then◌else◌, ◌==◌, length,
}
use eidolon_agent.Base.Dict.{Dict, lookup, insert}
use eidolon_agent.Conversations.{ConversationRow, TurnRow, MessageRow, Tables}
use eidolon_agent.Conversations.Guard.{
  Refusal, no_session, not_unique, verify_conversation_scope, verify_turn, present, and_then,
  verify_existing_turn_scope,
}
use eidolon_agent.Conversations.Rows.{
  FinishedTurn, session_row, new_turn, rewritten_turn, user_message_row, assistant_message_row,
  persisted_row, touched_row,
}

-- The numbers of a conversation's turns, in the order in which they were stored.
abbrev pub turn_seqs : String → Dict TurnRow → List ℕ
turn_seqs c [] = []
turn_seqs c ((_, r) ∷ d) =
    if str_eq r.conversation_id c then r.seq ∷ turn_seqs c d else turn_seqs c d

abbrev pub number_mem : ℕ → List ℕ → Bool
number_mem n [] = false
number_mem n (m ∷ ms) = m == n || number_mem n ms

-- `_next_turn_seq`
abbrev pub next_turn_seq : String → Dict TurnRow → ℕ
next_turn_seq c turns = length (turn_seqs c turns)

-- The row of the turn, or the violation of the constraint that numbers are unique.
abbrev pub write_turn :
    FinishedTurn → Option String → Option TurnRow → Dict TurnRow → Option Refusal × Dict TurnRow
write_turn p model_id none turns =
    let seq = next_turn_seq p.ti.conversation_id turns in
    if number_mem seq (turn_seqs p.ti.conversation_id turns)
    then (some not_unique, turns)
    else (none, insert p.ti.turn_id (new_turn p model_id seq) turns)
write_turn p model_id (some row) turns =
    (none, insert p.ti.turn_id (rewritten_turn p model_id row) turns)

abbrev is_at : String → ℕ → MessageRow → Bool
is_at turn_id seq m = str_eq m.turn_id turn_id && m.seq == seq

-- `_upsert_message_row`: a row that is there keeps its id.
unfoldable pub put_message : MessageRow → List MessageRow → List MessageRow
put_message m [] = m ∷ []
put_message m (x ∷ xs) =
    if is_at m.turn_id m.seq x
    then record m { message_id = x.message_id } ∷ xs
    else x ∷ put_message m xs

unfoldable pub find_message : String → ℕ → List MessageRow → Option MessageRow
find_message turn_id seq [] = none
find_message turn_id seq (x ∷ xs) =
    if is_at turn_id seq x then some x else find_message turn_id seq xs

abbrev pub put_text : String → MessageRow → List MessageRow → List MessageRow
put_text text m ms = if str_eq text "" then ms else put_message m ms

abbrev pub write_messages : FinishedTurn → Option String → List MessageRow → List MessageRow
write_messages p model_id ms =
    put_text p.assistant_text (assistant_message_row p model_id)
      (put_text p.user_text (user_message_row p) ms)

-- The tables after the writes of an attempt, with the row of the conversation after the insert.
abbrev pub written_tables :
    FinishedTurn → Option String → ℕ → ConversationRow → Dict TurnRow → Tables → Tables
written_tables p model_id now row turns s = record {
  sessions =
      insert p.ti.session_id (session_row p.ti now (lookup p.ti.session_id s.sessions)) s.sessions;
  conversations = insert p.ti.conversation_id (touched_row p row) s.conversations;
  turns = turns;
  messages = write_messages p model_id s.messages;
}

abbrev pub finish_attempt :
    FinishedTurn
    → Option String
    → ℕ
    → ConversationRow
    → Option Refusal
    → Option TurnRow
    → Tables
    → Option Refusal × Tables
finish_attempt p model_id now row (some e) old s = (some e, s)
finish_attempt p model_id now row none old s =
    let (e, turns) = write_turn p model_id old s.turns in
    if is_some e then (e, s) else (none, written_tables p model_id now row turns s)

-- `_persist_once`
unfoldable pub persist_once : FinishedTurn → Option String → ℕ → Tables → Option Refusal × Tables
unfolding verify_conversation_scope verify_existing_turn_scope put_message
persist_once p model_id now s =
    let row = present (persisted_row p) (lookup p.ti.conversation_id s.conversations) in
    let old = lookup p.ti.turn_id s.turns in
    if str_eq p.ti.session_id ""
    then (some no_session, s)
    else finish_attempt p model_id now row
        (and_then (verify_conversation_scope row p.ti) (verify_turn old p.ti)) old s

abbrev pub retry : Option Refusal × Tables → Option Refusal × Tables → Option Refusal × Tables
retry (some not_unique, s) next = next
retry r next = r

-- `_persist`: attempts, with what others commit between them.
unfoldable pub persist_from :
    (ℕ → Tables → Tables)
    → FinishedTurn
    → Option String
    → (ℕ → ℕ)
    → ℕ
    → ℕ
    → Tables
    → Option Refusal × Tables
unfolding persist_once
persist_from others p model_id now zero k s = persist_once p model_id (now k) s
persist_from others p model_id now (suc left) k s =
    retry (persist_once p model_id (now k) s)
      (persist_from others p model_id now left (suc k) (others k s))

abbrev pub persist :
    (ℕ → Tables → Tables)
    → FinishedTurn
    → Option String
    → (ℕ → ℕ)
    → Tables
    → Option Refusal × Tables
persist others p model_id now s = persist_from others p model_id now 4 0 s
