-- ===== src/Reducer.antt =====
-- The crate src/reducer (src/reducer/src/lib.rs): the authoritative state of threads, the retained
-- lifecycle log and the waiters.
pub mod State
pub mod Apply
pub mod Subscribe
pub mod Replay
pub mod Relevance
pub mod Log
pub mod Waiters
pub mod Turns
