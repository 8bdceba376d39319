-- ===== src/Runtime.antt =====
-- src/adapters/runtime: the container networks, the names of images, containerd, and log files.
pub mod Cni
pub mod CniInvariant
pub mod CniLaws
pub mod CniCalls
pub mod Image
pub mod LogTailer
pub mod Detect
pub mod Containerd
pub mod CtrEvents
pub mod ContainerdLaws
pub mod DockerClient
pub mod Docker
pub mod DockerCalls
pub mod DockerLaws
mod Tests
mod DockerTests
mod CtrTests
