-- ===== src/Dns.antt =====
-- The DNS component: src/adapters/dns/record_store.rs (Records, Resolve) and hickory.rs (Wire).
pub mod Address
pub mod Records
pub mod View
pub mod Resolve
pub mod History
pub mod Clean
pub mod Wire
pub mod Server
pub mod Noop
pub mod Framing
mod Tests
