-- ===== src/Supervisor.antt =====
-- The supervision of the daemon and the GUI (src/supervisor/src/lib.rs).
pub mod State
pub mod Processes
pub mod Run
pub mod Start
pub mod Check
pub mod Rules
pub mod Ends
pub mod Reached
pub mod Quitting
pub mod Seen
pub mod Verified
