-- ===== src/Network.antt =====
-- src/adapters/network: the allocator of the nodes' overlay subnets.
pub mod Subnet
pub mod Wireguard
pub mod Allocation
mod Tests
