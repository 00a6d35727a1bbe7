-- ===== src/Lib.antt =====
-- eidolon_agent: the runtime of companions. A client opens a session with signed claims, which
-- `RuntimeSessionAuthorizer` resolves to one runtime scope; the turn engine then lets a language
-- model call tools through `ToolDispatcher`, some of which act on devices through
-- `BodyControlService`; each completed turn goes to a memory service through an outbox table and
-- the event bus; a key-value store holds shared state and idempotency records.
--
-- Which file models which part:
--   Base.antt          shared names, lists, dictionaries, text and JSON values
--   Bus/Glob.antt      `_matches`, the subject patterns of eidolon_agent/infra/events/adapters/inmem.py,
--                      with what they use of the standard library's fnmatch
--   Bus/InMemory.antt  `InMemoryEventBus` of the same file
--   Kv.antt            `InMemoryKVStore` of the same file; the clock is an argument, in microseconds
--   Outbox/Memory.antt `AgentMemoryTurnOutbox` of eidolon_agent/infra/persistence/runtime_store.py and
--                      `MemoryTurnDispatcher` of eidolon_agent/infra/persistence/memory_turn_dispatch.py;
--                      a table is the list of its rows, and the bus a function that acknowledges or
--                      raises
--   Outbox/Audit.antt  `AgentAuditOutbox` of the same store and `AgentAuditDispatcher` of
--                      eidolon_agent/infra/persistence/audit_dispatch.py
--   Store/Rows.antt    the other tables of eidolon_agent/infra/persistence/runtime_store.py
--   Store/Delete.antt  `delete_owner_runtime` and `delete_companion_runtime` of the same file
--   Tools/Registry.antt `ToolRegistry` of eidolon_agent/domain/tools/registry.py
--   Tools/Schema.antt  `_validate_json_schema` of eidolon_agent/domain/tools/dispatcher.py
--   Tools/Dispatch.antt `ToolDispatcher` of the same file, over any world that the tools act on;
--                      the calls, results and state in Tools/Dispatch/Calls.antt
--   Body/Resolver.antt `resolve_body_device` of eidolon_agent/domain/body_control/resolver.py
--   Body/Service.antt  `BodyControlService` of eidolon_agent/domain/body_control/service.py
--   Session/Config.antt `CompanionRuntimeConfig` of eidolon_agent/core/types/companion_runtime.py
--   Session/Authorize.antt `RuntimeSessionAuthorizer` of eidolon_agent/domain/runtime_session.py
--   Home/Plan.antt     `plan_devices`, `plan_action` and `plan_scene` of
--                      eidolon_agent/domain/smarthome/planning.py
--   Home/Execute.antt  `HomeActuator.execute` of the same file
--   Home/Address.antt  `resolve_address` of eidolon_agent/domain/smarthome/addressing.py
--   Conversations.antt the rows of eidolon_agent/infra/persistence/agent_runtime.py, with its
--                      conversation guard in Conversations/Guard.antt and its turn persister in
--                      Conversations/Rows.antt and Conversations/Persist.antt
--   LongTasks.antt     the long tasks' records, of eidolon_agent/core/types/long_task.py
--   LongTasks/Jobs.antt `AgentLongTaskStore` of eidolon_agent/infra/persistence/agent_runtime.py, over
--                      the rows of LongTasks/Rows.antt; LongTasks/Changes.antt has what each
--                      operation makes of a record, LongTasks/Queries.antt the reads of the table
--   LongTasks/Worker.antt `MementosLongTaskWorker` of eidolon_agent/infra/long_tasks/mementos.py, with
--                      what it reads of the sidecar in LongTasks/Events.antt, its services, state
--                      and the report of a finished task in LongTasks/Reports.antt
--   LongTasks/Admin.antt the cancel and retry routes of
--                      eidolon_agent/app/admin/routers/long_tasks.py
--   Context/Budget.antt `ContextBudget` of eidolon_agent/domain/context/types.py and `_apply_budget` of
--                      eidolon_agent/domain/context/compiler.py
--   Context/Assemble.antt the assembly of the messages, of the same file
--   History.antt       `HistoryManager` of eidolon_agent/domain/history/manager.py
--   Turn.antt          the model and tool loop of `TurnEngine.run` and the end of a turn, of
--                      eidolon_agent/domain/agent/turn.py; the loop's variables and what it does
--                      with calls and results in Turn/State.antt
-- The children of a module hold its theorems, and its Tests the runs on concrete inputs.
--
-- Code of other packages is a parameter: the SDK's capability lookup and argument check, Python's
-- case tables, `json`, `Template` and the digest of an idempotency key, the runtime authority, a
-- long task's sidecar and its summarizer.
-- Fuel: the translation of a pattern has the length of the pattern, which is enough since each round
-- takes at least one character of it; the loop that polls a long task has a number of rounds, which
-- is enough if the loop's clock passes the deadline within it; the tool loop of a turn needs one model
-- call more than the tool rounds allowed.
--
-- Not modelled: the turn engine outside its model and tool loop, what the context compiler fetches,
-- the fanout of a turn, the history hydrator and the admin's readers; the smart home's dialogue and
-- its sessions, the registry of companion instances, guardrails, signals, personas and
-- interpretation; and the NATS, HTTP, gRPC, database and model adapters, which are input and output;
-- the dispatch of a batch, whose readonly calls run at the same time; the JSON of a long task's record;
-- message texts, logging and latencies.
pub mod Base
pub mod Body
pub mod Bus
pub mod Context
pub mod Conversations
pub mod History
pub mod Home
pub mod Kv
pub mod LongTasks
pub mod Outbox
pub mod Session
pub mod Store
pub mod Tools
pub mod Turn
