-- ===== src/Start.antt =====
-- The start of the daemon: src/main.rs.
pub mod Choice
pub mod Master
pub mod MasterLaws
pub mod Worker
mod Tests
