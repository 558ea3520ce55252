-- ===== src/Tests.antt =====
-- Tests of the model at concrete inputs, and the theorems applied at such inputs.
mod Sample
mod Frames
mod Storage
mod Threads
mod Streams
mod Actions
mod Links
mod Daemons
mod Listings
