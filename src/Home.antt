-- ===== src/Home.antt =====
-- The smart home of eidolon_agent/domain/smarthome.
pub mod Plan
pub mod Execute
pub mod Address
