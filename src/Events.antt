-- ===== src/Events.antt =====
-- src/adapters/event_watcher.rs: what the watcher makes of a stream of container events.
pub mod Watcher
pub mod Delivery
pub mod Reconnect
mod Tests
