-- ===== src/Wire.antt =====
-- The protobuf fields of a message: `decodeWireFields` and the lookups of
-- internal/protocol/agent.go, over the interface to protowire.
pub mod Protowire
pub mod Encode
pub mod Fields
pub mod RoundTrip
pub mod Total
pub mod Sample
pub mod Tests
