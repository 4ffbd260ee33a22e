-- ===== src/Core/Engine.antt =====
-- include/core/EngineCore.hpp and src/core/EngineCore.cpp: the books of all symbols, behind the
-- index of processed commands.
pub mod State
pub mod Process
pub mod Snapshots
pub mod Cases
pub mod Numbering
pub mod Effects
pub mod Once
