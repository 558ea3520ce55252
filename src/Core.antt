-- ===== src/Core.antt =====
-- The thread listing, the hooks and the skill roots of the embedding API (src/core/src).
pub mod Threads
pub mod Listing
pub mod Paths
pub mod Skills
pub mod Hooks
pub mod Calls
pub mod Roots
