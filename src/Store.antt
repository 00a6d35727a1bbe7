-- ===== src/Store.antt =====
-- The tables of eidolon_agent/infra/persistence/runtime_store.py and the deletion of their content.
pub mod Rows
pub mod Delete
