-- ===== src/Runtime.antt =====
-- Between the messages and the core: include/runtime and src/runtime.
pub mod Records
pub mod Serializer
pub mod Outbox
pub mod Requests
pub mod Risk
pub mod Events
pub mod Text
pub mod InputParser
pub mod Tests
