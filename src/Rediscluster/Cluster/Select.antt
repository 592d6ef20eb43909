-- ===== src/Rediscluster/Cluster/Select.antt =====
-- cluster.go: the choice of a node for a key, by address, among the slaves, and for an update. Random
-- numbers are arguments.
use ipfs_nosql_frame.Prelude.{
  ℕ, zero, suc, ◌+◌, ◌%◌, ◌^◌, Bool, false, not, Option, none, some, List, [], ◌∷◌, Bytes, length,
  leb, ◌==◌, if◌then◌else◌, Result, ok, err,
}
use ipfs_nosql_frame.Rediscluster.Replies.{equal}
use ipfs_nosql_frame.Rediscluster.Slot.{hash}
use ipfs_nosql_frame.Rediscluster.Node.Command.{Arg, key}
use ipfs_nosql_frame.Rediscluster.Cluster.State.{
  NodeRef, NodeMap, Cluster, ClusterError, lookup, inform, cluster_closed, not_found, invalid_key,
  no_node_found, no_slave,
}

abbrev pub address_of : Result ClusterError NodeRef → Result ClusterError Bytes
address_of (ok node) = ok node.address
address_of (err e) = err e

abbrev pub or_fail : {A : Type 0} → ClusterError → Option A → Result ClusterError A
or_fail e none = err e
or_fail e (some a) = ok a

unfoldable pub get_node_by_addr : Bytes → Cluster → Result ClusterError NodeRef
unfolding lookup
get_node_by_addr addr c =
    if c.closed then err cluster_closed else or_fail (not_found addr) (lookup addr c.nodes)

-- The loop that looks for a node other than the given one: the last one visited, or `none` for nil.
unfoldable pub other_node : Bytes → Option NodeRef → NodeMap → Option NodeRef
unfolding equal
other_node address last [] = last
other_node address last ((a, node) ∷ nodes) =
    let rest = other_node address (some node) nodes in
    if equal node.address address then rest else some node

-- The loop over the nodes against a random permutation, whose zero stands at index `pick`.
unfoldable pub picked_node : ℕ → Option NodeRef → NodeMap → Option NodeRef
picked_node pick last [] = last
picked_node zero last ((a, node) ∷ nodes) = some node
picked_node (suc pick) last ((a, node) ∷ nodes) = picked_node pick (some node) nodes

unfoldable pub update_slots_info_by_random_node : NodeRef → ℕ → Cluster → Cluster
update_slots_info_by_random_node node now c = inform (other_node node.address none c.nodes) now c

unfoldable pub update_slots_by_random_master_node : ℕ → ℕ → Cluster → Cluster
update_slots_by_random_master_node pick now c = inform (picked_node pick none c.nodes) now c

abbrev pub nth : ℕ → List NodeRef → Option NodeRef
nth i [] = none
nth zero (node ∷ nodes) = some node
nth (suc i) (node ∷ nodes) = nth i nodes

-- `random` is what fastrand.Uint32n(100) returns, below 100.
unfoldable pub is_slave_operate : ℕ → Cluster → Bool
is_slave_operate random c =
    if length c.slave_nodes == 0
    then false
    else if not c.is_slave_readable
    then false
    else leb (random + 1) (c.slave_operate_rate % 2 ^ 32)

-- len(nodes) - 1 is the only index for a single node; else `random` is fastrand.Uint32n(len(nodes)).
abbrev random_index : ℕ → List NodeRef → ℕ
random_index random nodes = if length nodes == 1 then 0 else random

-- numSeed % uint64(len(nodes))
abbrev pub seed_index : ℕ → List NodeRef → ℕ
seed_index seed [] = 0
seed_index seed (node ∷ nodes) = if length (node ∷ nodes) == 1 then 0 else seed % suc (length nodes)

module _ {Float : Type 0} (format_float : Float → Bytes) (runes : Bytes → List ℕ) where
  -- What a slot gives, or the error for a key that is none, or for a closed cluster.
  abbrev by_slot :
      {A : Type 0} → (ℕ → Result ClusterError A) → Cluster → Option Bytes → Result ClusterError A
  by_slot f c none = err invalid_key
  by_slot f c (some k) = if c.closed then err cluster_closed else f (hash runes k)

  unfoldable pub get_node_by_key : Arg Float → Cluster → Result ClusterError NodeRef
  get_node_by_key arg c =
      by_slot (λ slot. or_fail no_node_found (c.slots slot)) c (key format_float arg)

  unfoldable pub get_node_addr_by_key : Arg Float → Cluster → Result ClusterError Bytes
  get_node_addr_by_key arg c =
      by_slot (λ slot. address_of (or_fail no_node_found (c.slots slot))) c (key format_float arg)

  unfoldable pub get_an_random_slave_node_by_key :
      ℕ → Arg Float → Cluster → Result ClusterError NodeRef
  get_an_random_slave_node_by_key random arg c =
      by_slot
        (λ slot.
          or_fail no_slave (nth (random_index random (c.slaveslots slot)) (c.slaveslots slot)))
        c (key format_float arg)

  abbrev with_master :
      Option NodeRef → Option NodeRef → Result ClusterError (NodeRef × Option NodeRef)
  with_master none master = err no_slave
  with_master (some slave) master = ok (slave, master)

  -- The slave and its master, which may be nil.
  unfoldable pub get_an_slave_node_by_num_seed :
      Arg Float → ℕ → Cluster → Result ClusterError (NodeRef × Option NodeRef)
  get_an_slave_node_by_num_seed arg seed c =
      by_slot
        (λ slot.
          with_master (nth (seed_index seed (c.slaveslots slot)) (c.slaveslots slot))
            (c.slots slot))
        c (key format_float arg)
