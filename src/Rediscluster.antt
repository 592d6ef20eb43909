-- ===== src/Rediscluster.antt =====
-- utils/rediscluster: the hash slots of keys, the conversions and kinds of replies, the connections of a
-- node, and the cluster client.
pub mod Slot
pub mod Tags
pub mod Replies
pub mod Conversions
pub mod Lists
pub mod ListsRead
pub mod Kinds
pub mod Node
pub mod Cluster
