-- ===== src/Tests.antt =====
-- The theorems at concrete inputs.
mod Accepts
pub mod Calls
mod Redirects
mod Setup
mod Sockets
mod Replicas
mod Restarts
mod Tools
pub mod Cluster
pub mod Clusters
pub mod Raft
pub mod Parts
pub mod Wire
