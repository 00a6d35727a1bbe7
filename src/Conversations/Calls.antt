-- ===== src/Conversations/Calls.antt =====
-- The transactions of eidolon_agent/infra/persistence/agent_runtime.py on a conversation, and any
-- sequence of them.
use eidolon_agent.Base.{ℕ, Option, List, [], ◌∷◌, String}
use eidolon_agent.Conversations.{TurnInput, Tables}
use eidolon_agent.Conversations.Guard.{Refusal, guard}
use eidolon_agent.Conversations.Rows.{FinishedTurn}
use eidolon_agent.Conversations.Persist.{persist_once}

-- The transactions on a conversation.
pub data Call : Type 0 where
  guards : TurnInput → ℕ → Call
  persists : FinishedTurn → Option String → ℕ → Call

abbrev pub input_of : Call → TurnInput
input_of (guards ti now) = ti
input_of (persists p model_id now) = p.ti

unfoldable pub perform : Call → Tables → Option Refusal × Tables
unfolding guard persist_once
perform (guards ti now) s = guard ti now s
perform (persists p model_id now) s = persist_once p model_id now s

unfoldable pub perform_all : List Call → Tables → Tables
unfolding perform
perform_all [] s = s
perform_all (c ∷ cs) s = perform_all cs (perform c s).1
