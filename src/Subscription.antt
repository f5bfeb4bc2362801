-- ===== src/Subscription.antt =====
-- src/subscription: the state of subscriptions and the updates delivered from it.
pub mod Update
pub mod ItemUpdate
pub mod Events
pub mod Manager
