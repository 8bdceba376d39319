-- ===== src/Health.antt =====
-- src/adapters/health: the probes of the pods.
pub mod Checker
mod Tests
