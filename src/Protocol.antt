-- ===== src/Protocol.antt =====
-- internal/protocol: the messages of the agent service, as bytes and as values.
pub mod Models
pub mod Connect
pub mod Deltas
pub mod Text
pub mod Schema
pub mod Mcp
pub mod Client
pub mod Tests
