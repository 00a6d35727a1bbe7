-- ===== src/Outbox.antt =====
-- The transactional outboxes of the Agent's SQLite store.
pub mod Memory
pub mod Audit
