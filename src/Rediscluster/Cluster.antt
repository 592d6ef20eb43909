-- ===== src/Rediscluster/Cluster.antt =====
-- cluster.go: the cluster, its table of slots and the way of a command to its node.
pub mod State
pub mod Select
pub mod Route
pub mod Multi
pub mod Commands
pub mod Batches
pub mod RunBatch
pub mod Table
pub mod Update
pub mod Nodes
pub mod Moved
pub mod Ordered
pub mod Batched
pub mod Replied
pub mod Installed
