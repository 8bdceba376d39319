-- ===== src/Cluster.antt =====
-- src/cluster: the nodes, the master's monitor, the registration service and the join tokens.
pub mod Nodes
pub mod Heartbeat
pub mod Server
pub mod Token
pub mod Lawful
pub mod Monitor
pub mod Sender
pub mod Passes
pub mod Silence
pub mod Ageing
pub mod Registration
pub mod Lost
pub mod Table
mod Tests
mod SilenceTests
