-- ===== src/Tools.antt =====
-- The tools of internal/protocol: their requests as exec messages, and what a client answers.
pub mod Types
pub mod Json
pub mod Requests
pub mod Arguments
pub mod Write
pub mod Files
pub mod Listing
pub mod Grep
pub mod Shell
pub mod Values
pub mod Summary
pub mod Mcp
pub mod Bridge
pub mod Read
pub mod State
pub mod Edit
pub mod Tests
