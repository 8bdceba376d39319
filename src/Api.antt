-- ===== src/Api.antt =====
-- The HTTP handlers of src/api/handlers.rs.
pub mod Response
pub mod Projects
pub mod Admin
pub mod Store
pub mod NodeLaws
pub mod Undrained
pub mod TokenLaws
pub mod Streams
pub mod Stats
pub mod Table
mod Tests
