-- ===== src/Rediscluster/Cluster/Update.antt =====
-- cluster.go: Update, handleUpdate and NewCluster. A range that was cut to 16 bits and ends past the table
-- makes Update panic. `t` is the time of the call.
use ipfs_nosql_frame.Prelude.{
  ℕ, zero, suc, ◌+◌, ◌-◌, Bool, true, false, ◌&&◌, ◌||◌, Option, none, some, List, [], ◌∷◌, ◌++◌,
  Bytes, codes, ltb, leb, ◌==◌, if◌then◌else◌, Result, ok, err,
}
use ipfs_nosql_frame.Rediscluster.Replies.{Reply, values}
use ipfs_nosql_frame.Rediscluster.Slot.{cluster_slots}
use ipfs_nosql_frame.Rediscluster.Node.Errors.{NodeError}
use ipfs_nosql_frame.Rediscluster.Node.Command.{string}
use ipfs_nosql_frame.Rediscluster.Node.Pool.{master_node, slave_node}
use ipfs_nosql_frame.Rediscluster.Cluster.State.{
  NodeRef, NodeMap, Calls, Cluster, ClusterError, lookup, insert, from_node, invalid_response,
  not_covered, update_nil, no_valid_node, panic, bad_reply,
}
use ipfs_nosql_frame.Rediscluster.Cluster.Table.{Ranges, Found, read_info}
use ipfs_nosql_frame.Rediscluster.Cluster.Route.{System}

-- for j := start; j <= end; j++ { cluster.slots[j] = node }, for `n` turns from `j` on.
unfoldable pub fill_from : NodeRef → ℕ → ℕ → (ℕ → Option NodeRef) → ℕ → Option NodeRef
fill_from node zero j slots = slots
fill_from node (suc n) j slots =
    fill_from node n (suc j) (λ slot. if slot == j then some node else slots slot)

-- The loop over the ranges of a master.
unfoldable pub fill : NodeRef → List (ℕ × ℕ) → (ℕ → Option NodeRef) → ℕ → Option NodeRef
unfolding fill_from
fill node [] slots = slots
fill node ((first, last) ∷ ranges) slots =
    fill node ranges (fill_from node (suc last - first) first slots)

-- The loops over the ranges of a slave, which appends the node once for every range.
unfoldable pub append_slave : NodeRef → List (ℕ × ℕ) → (ℕ → List NodeRef) → ℕ → List NodeRef
append_slave node [] slaveslots slot = slaveslots slot
append_slave node ((first, last) ∷ ranges) slaveslots slot =
    let put =
      if leb first slot && leb slot last then slaveslots slot ++ node ∷ [] else slaveslots slot in
    append_slave node ranges (λ _. put) slot

-- Whether the loops over the ranges stay in the table.
abbrev pub stay : List (ℕ × ℕ) → Bool
stay [] = true
stay ((first, last) ∷ ranges) = (ltb last first || ltb last cluster_slots) && stay ranges

abbrev pub all_stay : Ranges → Bool
all_stay [] = true
all_stay ((addr, ranges) ∷ more) = stay ranges && all_stay more

abbrev pub set_time : ℕ → ℕ → (ℕ → ℕ) → ℕ → ℕ
set_time id t times i = if i == id then t else times i

module _ {Float : Type 0} (N : Calls Float) where
  -- The node of an address in a map, or a new one.
  unfoldable pub node_for : Bytes → ℕ → NodeMap → System N → NodeRef × System N
  node_for addr kind nodes (c, w) = elim (lookup addr nodes) [
    | some node ↦ (node, (c, w))
    | none ↦
        let node : NodeRef = record { id = c.next_id; address = addr; node_type = kind } in
        (node, (record c { next_id = suc c.next_id }, N.make_node node w))
  ]

  -- The loop over the masters.
  unfoldable pub put_masters : ℕ → Ranges → System N → System N
  put_masters t [] s = s
  put_masters t ((addr, ranges) ∷ more) s =
      let (node, (c, w)) = node_for addr master_node s.0.nodes s in
      put_masters t more (
        record c {
          slots = fill node ranges c.slots;
          node_times = set_time node.id t c.node_times;
          nodes = insert addr node c.nodes;
        },
        w,
      )

  -- The loop over the slaves.
  unfoldable pub put_slaves : ℕ → Ranges → System N → System N
  put_slaves t [] s = s
  put_slaves t ((addr, ranges) ∷ more) s =
      let (node, (c, w)) = node_for addr slave_node s.0.slave_nodes s in
      put_slaves t more (
        record c {
          slaveslots = append_slave node ranges c.slaveslots;
          node_times = set_time node.id t c.node_times;
          slave_nodes = insert addr node c.slave_nodes;
        },
        w,
      )

  -- The loops that shut down and take out the nodes whose time is not `t`.
  unfoldable pub prune : ℕ → (ℕ → ℕ) → NodeMap → N.World → NodeMap × N.World
  prune t times [] w = ([], w)
  prune t times ((addr, node) ∷ nodes) w =
      if times node.id == t
      then (let (kept, w') = prune t times nodes w in ((addr, node) ∷ kept, w'))
      else prune t times nodes (N.shutdown node.id w)

  abbrev prune_masters : ℕ → System N → System N
  prune_masters t (c, w) =
      let (kept, w') = prune t c.node_times c.nodes w in (record c { nodes = kept }, w')

  abbrev prune_slaves : ℕ → System N → System N
  prune_slaves t (c, w) =
      let (kept, w') = prune t c.node_times c.slave_nodes w in (record c { slave_nodes = kept }, w')

  abbrev clear_slaves : System N → System N
  clear_slaves (c, w) = (record c { slaveslots = λ _. [] }, w)

  -- The part of Update under the lock.
  unfoldable pub install : ℕ → Found → System N → System N
  install t found (c, w) = prune_slaves t (
      put_slaves t found.slaves (
        clear_slaves
          (prune_masters t (put_masters t found.masters (record c { update_time = t }, w)))))

  abbrev installed : ℕ → Option Found → System N → Option ClusterError × System N
  installed t none s = (some invalid_response, s)
  installed t (some found) s =
      if found.nslots == cluster_slots
      then (if all_stay found.masters && all_stay found.slaves
          then (none, install t found s)
          else (some panic, s))
      else (some not_covered, s)

  abbrev with_info : ℕ → Result NodeError Reply → System N → Option ClusterError × System N
  with_info t (err e) s = (some (from_node e), s)
  with_info t (ok reply) s = elim (values {E = NodeError} reply none) [
    | err e ↦ (some bad_reply, s)
    | ok info ↦ installed t (read_info info (record { nslots = 0; masters = []; slaves = [] })) s
  ]

  unfoldable pub update : ℕ → Option NodeRef → System N → Option ClusterError × System N
  update t none s = (some update_nil, s)
  update t (some node) (c, w) =
      let (x, w') = N.do_command node.id (codes "CLUSTER") (string (codes "SLOTS") ∷ []) w in
      with_info t x (c, w')

  abbrev second : ℕ
  second = 1000000000

  abbrev listen : System N → System N
  listen (c, w) = (record c { listening = true; update_list = none }, w)

  -- A round of handleUpdate. The error of Update is only logged.
  unfoldable pub handle_update : ℕ → System N → System N
  handle_update t (c, w) = elim c.update_list [
    | none ↦ (c, w)
    | some mesg ↦
        let (e, s) = update t mesg.node (c, w) in
        if ltb (c.update_time + second) mesg.moved_time then listen s else listen (c, w)
  ]

  -- A cluster before its first update, for the options SlaveOperateRate.
  abbrev pub empty_cluster : ℕ → Cluster
  empty_cluster rate = record {
    slots = λ _. none;
    slaveslots = λ _. [];
    nodes = [];
    slave_nodes = [];
    update_time = 0;
    node_times = λ _. 0;
    next_id = 0;
    listening = false;
    update_list = none;
    closed = false;
    is_slave_readable = ltb 0 rate;
    slave_operate_rate = rate;
  }

  -- The loop of NewCluster over the start nodes; after the first update that succeeds, handleUpdate listens.
  unfoldable pub start : ℕ → List Bytes → System N → Result ClusterError (System N)
  start t [] s = err no_valid_node
  start t (addr ∷ nodes) (c, w) =
      let node : NodeRef = record { id = c.next_id; address = addr; node_type = 0 } in
      let (e, s) =
        update t (some node) (record c { next_id = suc c.next_id }, N.make_node node w) in
      let rest = start t nodes s in elim e [ none ↦ ok (listen s) | some x ↦ rest ]

  unfoldable pub new_cluster : ℕ → ℕ → List Bytes → N.World → Result ClusterError (System N)
  new_cluster t rate nodes w = start t nodes (empty_cluster rate, w)
