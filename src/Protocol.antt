-- ===== src/Protocol.antt =====
-- The crate src/protocol (src/protocol/src/lib.rs): JSON-RPC frames and sequenced events.
pub mod Json
pub mod Frame
pub mod Event
pub mod Request
pub mod Laws
