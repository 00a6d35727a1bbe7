-- ===== src/Session.antt =====
-- The runtime boundary of a connection: who may act as whom, and with which memory.
pub mod Config
pub mod Authorize
