-- ===== src/Protocol.antt =====
-- The messages on the wire: include/protocol and src/protocol.
pub mod Json
pub mod Parser
pub mod Message
pub mod Tests
