-- ===== src/Sqlite.antt =====
-- `SqliteStore` of src/adapters/state/sqlite.rs over the tables of the migrations.
pub mod Driver
pub mod Tables
pub mod Projects
pub mod Pods
pub mod Nodes
pub mod Rows
pub mod Sorted
pub mod Integrity
pub mod Runs
pub mod NodeLaws
pub mod NodeList
pub mod Kept
pub mod Replaced
pub mod Store
pub mod Backing
pub mod Monitored
pub mod Reading
pub mod StoreLaws
mod Tests
mod StoreTests
