-- ===== src/Rediscluster/Cluster/Batches.antt =====
-- batch.go: the type Batch, NewBatch, SetIsSlaveOperate and Put. Random numbers are arguments.
use ipfs_nosql_frame.Prelude.{
  ℕ, suc, ◌-◌, Bool, false, ◌&&◌, ◌||◌, Option, none, some, List, [], ◌∷◌, ◌++◌, Bytes, codes, leb,
  ◌==◌, if◌then◌else◌, Result, ok, err,
}
use ipfs_nosql_frame.Rediscluster.Replies.{Reply, null, equal}
use ipfs_nosql_frame.Rediscluster.Node.Command.{Arg}
use ipfs_nosql_frame.Rediscluster.Cluster.State.{
  NodeRef, Cluster, ClusterError, no_key, unsupported,
}
use ipfs_nosql_frame.Rediscluster.Cluster.Select.{
  get_node_by_key, get_an_slave_node_by_num_seed, is_slave_operate,
  update_slots_by_random_master_node,
}

-- nodeCommand
pub record NodeCommand (Float : Type 0) : Type 0 where
  pub cmd : Bytes
  pub args : List (Arg Float)
  pub reply : Reply
  pub err : Option ClusterError

-- nodeBatch
pub record NodeBatch (Float : Type 0) : Type 0 where
  pub node : NodeRef
  pub master_node : Option NodeRef
  pub cmds : List (NodeCommand Float)
  pub err : Option ClusterError

-- Batch, without its cluster.
pub record Batch (Float : Type 0) : Type 0 where
  pub batches : List (NodeBatch Float)
  pub index : List ℕ
  pub is_slave_operate : Bool
  pub num_seed : ℕ

-- strings.ToUpper, for a text of ASCII
abbrev pub to_upper : Bytes → Bytes
to_upper [] = []
to_upper (c ∷ s) = (if leb b'a' c && leb c b'z' then c - 32 else c) ∷ to_upper s

abbrev pub unsupported_command : Bytes → Bool
unsupported_command cmd =
    equal cmd (codes "MGET") || equal cmd (codes "MSET") || equal cmd (codes "MSETNX")

abbrev alone : Result ClusterError NodeRef → Result ClusterError (NodeRef × Option NodeRef)
alone (ok node) = ok (node, none)
alone (err e) = err e

module _ {Float : Type 0} where
  unfoldable pub new_batch : ℕ → Batch Float
  new_batch seed = record { batches = []; index = []; is_slave_operate = false; num_seed = seed }

  -- SetIsSlaveOperate
  unfoldable pub set_is_slave_operate : ℕ → Cluster → Batch Float → Batch Float
  set_is_slave_operate random c b = record b { is_slave_operate = is_slave_operate random c }

  -- The index of the batch of a node, or their number.
  unfoldable pub find_batch : ℕ → List (NodeBatch Float) → ℕ
  find_batch id [] = 0
  find_batch id (b ∷ batches) =
      let rest = suc (find_batch id batches) in if b.node.id == id then 0 else rest

  -- The loop of Put: the command goes to the batch of its node, or to a new one.
  unfoldable pub add_command :
      NodeRef → Option NodeRef → NodeCommand Float → List (NodeBatch Float) → List (NodeBatch Float)
  add_command node master command [] =
      record { node = node; master_node = master; cmds = command ∷ []; err = none } ∷ []
  add_command node master command (b ∷ batches) =
      let rest = b ∷ add_command node master command batches in
      if b.node.id == node.id then record b { cmds = b.cmds ++ command ∷ [] } ∷ batches else rest

  abbrev pub fresh : Bytes → List (Arg Float) → NodeCommand Float
  fresh cmd args = record { cmd = cmd; args = args; reply = null; err = none }

  abbrev pub put_on :
      Bytes
      → List (Arg Float)
      → Result ClusterError (NodeRef × Option NodeRef)
      → Batch Float
      → Option ClusterError × Batch Float
  put_on cmd args (err e) b = (some e, b)
  put_on cmd args (ok (node, master)) b = (
    none,
    record b {
      batches = add_command node master (fresh cmd args) b.batches;
      index = b.index ++ find_batch node.id b.batches ∷ [];
    },
  )

  module _ (format_float : Float → Bytes) (runes : Bytes → List ℕ) (pick now : ℕ) where
    -- The slave and its master, or after a signal to update the table the master alone.
    abbrev slave_or_master :
        Arg Float
        → Result ClusterError (NodeRef × Option NodeRef)
        → Cluster
        → Result ClusterError (NodeRef × Option NodeRef) × Cluster
    slave_or_master k (ok nodes) c = (ok nodes, c)
    slave_or_master k (err e) c =
        let c' = update_slots_by_random_master_node pick now c in
        (alone (get_node_by_key format_float runes k c'), c')

    unfoldable pub choose_node :
        Bool
        → ℕ
        → Bytes
        → Arg Float
        → Cluster
        → Result ClusterError (NodeRef × Option NodeRef) × Cluster
    choose_node slave seed cmd k c =
        if equal (to_upper cmd) (codes "GET") && slave
        then slave_or_master k (get_an_slave_node_by_num_seed format_float runes k seed c) c
        else (alone (get_node_by_key format_float runes k c), c)

    unfoldable pub put :
        Bool
        → Bytes
        → List (Arg Float)
        → Batch Float × Cluster
        → Option ClusterError × Batch Float × Cluster
    put slave cmd [] (b, c) = (some no_key, b, c)
    put slave cmd (k ∷ args) (b, c) =
        let (x, c') = choose_node slave b.num_seed cmd k c in
        let (e, b') = put_on cmd (k ∷ args) x b in
        if unsupported_command cmd then (some unsupported, b, c) else (e, b', c')
