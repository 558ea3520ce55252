-- ===== src/Ingest.antt =====
-- Thread discovery, reconciliation and subscriptions (src/ingest/src/lib.rs).
pub mod State
pub mod Reading
pub mod Ingress
pub mod Discover
pub mod Reconcile
pub mod Applied
pub mod Capacity
pub mod Discovered
pub mod Quiet
pub mod Settled
pub mod Total
pub mod Listing
