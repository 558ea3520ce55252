-- ===== src/Transport.antt =====
-- The reconnecting transport (src/transport/src/lib.rs).
pub mod State
pub mod Handshake
pub mod Drive
pub mod Connection
pub mod Handle
pub mod Moves
pub mod Channels
pub mod Taken
pub mod Ledger
pub mod Honesty
pub mod Numbering
pub mod Sequences
pub mod Greetings
pub mod Order
pub mod Pauses
pub mod Gate
