-- ===== src/Core.antt =====
-- The matching core: include/core and src/core.
pub mod FixedPoint
pub mod Types
pub mod Sequence
pub mod Level
pub mod Ladder
pub mod FarMap
pub mod SideBook
pub mod OrderBook
pub mod Idempotency
pub mod Validation
pub mod Engine
pub mod Tests
