-- ===== src/Sc/Backend.antt =====
-- What sc calls on the Redis cluster and on the event client. Composed fills it with the cluster client.
use ipfs_nosql_frame.Prelude.{List, Bytes, Result}
use ipfs_nosql_frame.Rediscluster.Node.Command.{Arg}
use ipfs_nosql_frame.Rediscluster.Cluster.State.{ClusterError, Answer}

-- Do and GetNodeAddrByKey of the cluster, whose state with all that lies behind it is a World.
pub record Backend (Float : Type 0) : Type 1 where
  pub World : Type 0
  pub do_command : Bytes → List (Arg Float) → World → Answer × World
  pub get_node_addr_by_key : Bytes → World → Result ClusterError Bytes
