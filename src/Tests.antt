-- ===== src/Tests.antt =====
-- The theorems at concrete inputs, and runs of the definitions.
pub mod Machine
pub mod Samples
pub mod Tracees
pub mod Calls
pub mod Lifecycle
pub mod Sets
pub mod Start
pub mod Lines
pub mod Runs
pub mod Tunnel
pub mod Told
pub mod Sharing
pub mod Local
pub mod Inode
pub mod Settings
pub mod HttpProxy
pub mod MutexMap
