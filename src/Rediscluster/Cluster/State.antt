-- ===== src/Rediscluster/Cluster/State.antt =====
-- cluster.go: the type Cluster, what it asks of its nodes, and Inform. A node is a pointer, known by a
-- number; its address and its type never change. The maps by address are association lists, whose order is
-- the order in which a `range` visits them, which Go leaves open.
use ipfs_nosql_frame.Prelude.{
  ℕ, Bool, false, Option, none, some, List, [], ◌∷◌, Bytes, if◌then◌else◌, Result,
}
use ipfs_nosql_frame.Rediscluster.Replies.{Reply, equal}
use ipfs_nosql_frame.Rediscluster.Node.Errors.{NodeError}
use ipfs_nosql_frame.Rediscluster.Node.Command.{Arg}

-- *redisNode
pub record NodeRef : Type 0 where
  pub id : ℕ
  pub address : Bytes
  pub node_type : ℕ

-- What the cluster calls on its nodes: `do`, `doRpushExpire`, the exchanges of handleAsk and SlaveDo, the
-- steps of doBatch on a connection (getConn; sending the commands, after READONLY if that is asked for,
-- the flush and the reply to READONLY; receive; releaseConn; shutdown), the making of a node, and its
-- `shutdown`. The state of all nodes is a World.
pub record Calls (Float : Type 0) : Type 1 where
  pub World : Type 0
  pub do_command : ℕ → Bytes → List (Arg Float) → World → Result NodeError Reply × World
  pub do_rpush_expire : ℕ → Bytes → List (Arg Float) → World → Result NodeError Reply × World
  pub do_asking : ℕ → Bytes → List (Arg Float) → World → Result NodeError Reply × World
  pub do_slave : Bool → ℕ → Bytes → List (Arg Float) → World → Result NodeError Reply × World
  pub Pipe : Type 0
  pub connect : ℕ → World → Result NodeError Pipe × World
  pub send_all : Bool → List (Bytes × List (Arg Float)) → Pipe → Result NodeError Unit × Pipe
  pub receive_one : Pipe → Result NodeError Reply × Pipe
  pub release : ℕ → Pipe → World → World
  pub close : ℕ → Pipe → World → World
  pub make_node : NodeRef → World → World
  pub shutdown : ℕ → World → World

-- map[string]*redisNode
abbrev pub NodeMap : Type 0
NodeMap = List (Bytes × NodeRef)

unfoldable pub lookup : Bytes → NodeMap → Option NodeRef
unfolding equal
lookup addr [] = none
lookup addr ((a, node) ∷ nodes) = if equal a addr then some node else lookup addr nodes

unfoldable pub insert : Bytes → NodeRef → NodeMap → NodeMap
unfolding equal
insert addr node [] = (addr, node) ∷ []
insert addr node ((a, old) ∷ nodes) =
    let rest = (a, old) ∷ insert addr node nodes in
    if equal a addr then (addr, node) ∷ nodes else rest

-- updateMesg{node, movedTime}; the node may be nil.
pub record UpdateMesg : Type 0 where
  pub node : Option NodeRef
  pub moved_time : ℕ

-- Cluster, without its options for new nodes. `node_times` holds the update times of the nodes, and
-- `listening` says that handleUpdate waits at the channel, which then can take a message.
pub record Cluster : Type 0 where
  pub slots : ℕ → Option NodeRef
  pub slaveslots : ℕ → List NodeRef
  pub nodes : NodeMap
  pub slave_nodes : NodeMap
  pub update_time : ℕ
  pub node_times : ℕ → ℕ
  pub next_id : ℕ
  pub listening : Bool
  pub update_list : Option UpdateMesg
  pub closed : Bool
  pub is_slave_readable : Bool
  pub slave_operate_rate : ℕ

-- The errors of cluster.go, batch.go and multi.go; `from_node` wraps one from a node, `nil_node` is the panic
-- on a nil pointer, and `stuck` is no error of the code but the end of the fuel.
pub data ClusterError : Type 0 where
  no_key unsupported invalid_key cluster_closed no_node_found no_slave : ClusterError
  not_found : Bytes → ClusterError
  from_node : NodeError → ClusterError
  invalid_response conn_timeout cluster_down not_covered invalid_args nil_node update_nil
        no_valid_node bad_reply panic stuck :
      ClusterError
  reply_error : Bytes → ClusterError

-- (interface{}, error), where both may be given.
abbrev pub Answer : Type 0
Answer = Reply × Option ClusterError

-- Inform: the message is dropped unless handleUpdate waits for it.
unfoldable pub inform : Option NodeRef → ℕ → Cluster → Cluster
inform node now c =
    if c.listening
    then record c {
      listening = false;
      update_list = some (record { node = node; moved_time = now });
    }
    else c
