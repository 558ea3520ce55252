-- ===== src/Store.antt =====
-- The crate src/store (src/store/src/lib.rs): the bounded event store. An operation under the lock
-- is a function from the locked state to the state that it leaves.
pub mod State
pub mod Prune
pub mod Query
pub mod Sizes
pub mod Accounting
pub mod Order
pub mod Limits
pub mod Victim
pub mod Gaps
pub mod Replies
pub mod Idle
pub mod Anchor
