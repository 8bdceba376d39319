-- ===== src/State.antt =====
-- src/adapters/state: the stores of the daemon.
pub mod Routes
pub mod Keyed
pub mod RouteLaws
pub mod Certificates
pub mod Subnets
mod Tests
