-- ===== src/Rediscluster/Node.antt =====
-- node.go: a node of the cluster and its connections.
pub mod Errors
pub mod Command
pub mod Written
pub mod Wire
pub mod Numbers
pub mod ReadBack
pub mod Pool
pub mod Exchange
pub mod Asking
pub mod Bounds
pub mod Histories
pub mod Accounts
