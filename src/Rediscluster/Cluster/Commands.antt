-- ===== src/Rediscluster/Cluster/Commands.antt =====
-- cluster.go: Do, SlaveDo and Close. A random number is an argument.
use ipfs_nosql_frame.Prelude.{
  ℕ, Bool, true, ◌&&◌, ◌||◌, some, List, [], ◌∷◌, Bytes, codes, ◌==◌, if◌then◌else◌, Result, ok,
  err,
}
use ipfs_nosql_frame.Rediscluster.Replies.{null, equal}
use ipfs_nosql_frame.Rediscluster.Node.Command.{Arg}
use ipfs_nosql_frame.Rediscluster.Node.Pool.{slave_node}
use ipfs_nosql_frame.Rediscluster.Cluster.State.{
  NodeRef, NodeMap, Calls, Cluster, ClusterError, Answer, no_key,
}
use ipfs_nosql_frame.Rediscluster.Cluster.Select.{
  get_node_by_key, get_an_random_slave_node_by_key, update_slots_by_random_master_node,
}
use ipfs_nosql_frame.Rediscluster.Cluster.Route.{System, settle_answer}
use ipfs_nosql_frame.Rediscluster.Cluster.Multi.{multi_set, multi_get}

abbrev pub is_multi_set : Bytes → Bool
is_multi_set cmd = equal cmd (codes "MSET") || equal cmd (codes "MSETNX")

module _ {Float : Type 0} (N : Calls Float) where
  -- The loop of Close.
  unfoldable pub close_nodes : NodeMap → N.World → N.World
  close_nodes [] w = w
  close_nodes ((addr, node) ∷ nodes) w = close_nodes nodes (N.shutdown node.id w)

  unfoldable pub close : System N → System N
  close (c, w) = (record c { nodes = []; closed = true }, close_nodes c.nodes w)

  module _ (format_float : Float → Bytes) (runes : Bytes → List ℕ) (now turns : ℕ) where
    -- Do on the node of the key.
    abbrev pub do_on :
        Bytes → List (Arg Float) → Result ClusterError NodeRef → System N → Answer × System N
    do_on cmd args (err e) s = ((null, some e), s)
    do_on cmd args (ok node) (c, w) =
        settle_answer N now node cmd args turns
          (if equal cmd (codes "RPUSH")
            then N.do_rpush_expire node.id cmd args w
            else N.do_command node.id cmd args w)
          c

    -- Cluster.Do
    unfoldable pub do_command : Bytes → List (Arg Float) → System N → Answer × System N
    do_command cmd [] s = ((null, some no_key), s)
    do_command cmd (k ∷ args) s =
        if is_multi_set cmd
        then multi_set format_float runes N now turns cmd (k ∷ args) s
        else if equal cmd (codes "MGET")
        then multi_get format_float runes N now turns cmd (k ∷ args) s
        else do_on cmd (k ∷ args) (get_node_by_key format_float runes k s.0) s

    -- SlaveDo on the node that was chosen: READONLY goes before a GET to a slave.
    abbrev slave_do_on :
        Bytes → List (Arg Float) → Result ClusterError NodeRef → System N → Answer × System N
    slave_do_on cmd args (err e) s = ((null, some e), s)
    slave_do_on cmd args (ok node) (c, w) =
        settle_answer N now node cmd args turns
          (N.do_slave (equal cmd (codes "GET") && node.node_type == slave_node) node.id cmd args w)
          c

    -- The slave, or after a signal to update the table the master.
    abbrev or_master :
        ℕ
        → Arg Float
        → Result ClusterError NodeRef
        → Cluster
        → Result ClusterError NodeRef × Cluster
    or_master pick k (ok node) c = (ok node, c)
    or_master pick k (err e) c =
        let c' = update_slots_by_random_master_node pick now c in
        (get_node_by_key format_float runes k c', c')

    -- Cluster.SlaveDo
    unfoldable pub slave_do : ℕ → ℕ → Bytes → List (Arg Float) → System N → Answer × System N
    slave_do random pick cmd [] s = ((null, some no_key), s)
    slave_do random pick cmd (k ∷ args) (c, w) =
        if is_multi_set cmd
        then multi_set format_float runes N now turns cmd (k ∷ args) (c, w)
        else if equal cmd (codes "MGET")
        then multi_get format_float runes N now turns cmd (k ∷ args) (c, w)
        else (let (x, c') =
              or_master pick k (get_an_random_slave_node_by_key format_float runes random k c) c in
            slave_do_on cmd (k ∷ args) x (c', w))
