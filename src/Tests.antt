-- ===== src/Tests.antt =====
-- Runs of the theorems on concrete states.
pub mod Formats
pub mod Codecs
pub mod Nodes
pub mod Runs
pub mod Sound
pub mod Loops
pub mod Parts
pub mod Restart
pub mod Acks
pub mod Binds
pub mod Writes
pub mod Starts
pub mod Snapshots
