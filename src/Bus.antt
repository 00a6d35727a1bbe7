-- ===== src/Bus.antt =====
-- The in-process event bus of eidolon_agent/infra/events/adapters/inmem.py.
pub mod Glob
pub mod InMemory
