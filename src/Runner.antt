-- ===== src/Runner.antt =====
-- internal/agent: one agent turn, from the run request to the conversation's history.
pub mod Int64
pub mod Events
pub mod Emits
pub mod Pass
pub mod Tools
pub mod Execute
pub mod Calls
pub mod Shape
pub mod Delivery
pub mod History
pub mod Tests
