-- ===== src/Tools.antt =====
-- The tool calls of a turn: the registry of tools, the validation of arguments, and the dispatch.
pub mod Registry
pub mod Schema
pub mod Dispatch
