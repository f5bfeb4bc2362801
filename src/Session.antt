-- ===== src/Session.antt =====
-- src/session: the clocks and the schedule that the driver of a session consults.
pub mod Time
pub mod Backoff
pub mod Liveness
pub mod Incoming
pub mod Outcomes
pub mod Events
pub mod Options
pub mod Pending
pub mod Registry
pub mod Driver
