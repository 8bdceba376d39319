-- ===== src/Transport.antt =====
-- Pods put on a node: the local transport of src/adapters/transport/local.rs, and the same work of a
-- worker's server in src/cluster/server.rs.
pub mod Container
pub mod Local
pub mod Remote
pub mod Agreement
mod Tests
