-- ===== src/Control.antt =====
-- Control actions and their outcomes (src/control/src/lib.rs).
--
-- The client of the transport is what it will answer, in order, and what was asked of it. A lock of
-- the thread is held through an action, so an action is one function; the controller's locks are
-- themselves not modelled. The events that the reducer applies within the window of an action's
-- waiter are an argument; the waiter yields the first that passes its predicate.
pub mod Client
pub mod State
pub mod Action
pub mod Observed
pub mod Terminal
pub mod Sends
pub mod Outcomes
pub mod Interrupt
