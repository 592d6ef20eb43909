-- ===== src/Rediscluster/Cluster/RunBatch.antt =====
-- batch.go: doBatch and RunBatch. The batches of the nodes run one after another, in the order of the list:
-- the code starts a goroutine for each and waits for all. RunBatch uses the batch up.
use ipfs_nosql_frame.Prelude.{
  ℕ, zero, suc, Bool, true, false, Option, none, some, List, [], ◌∷◌, Bytes, ◌==◌, if◌then◌else◌,
  Result, ok, err,
}
use ipfs_nosql_frame.Rediscluster.Replies.{Reply, null}
use ipfs_nosql_frame.Rediscluster.Kinds.{
  RespKind, resp_ok, resp_move, resp_ask, resp_conn_timeout, resp_error, resp_cluster_down,
  check_reply,
}
use ipfs_nosql_frame.Rediscluster.Node.Errors.{NodeError}
use ipfs_nosql_frame.Rediscluster.Node.Command.{Arg}
use ipfs_nosql_frame.Rediscluster.Node.Pool.{slave_node}
use ipfs_nosql_frame.Rediscluster.Cluster.State.{
  NodeRef, Calls, Cluster, ClusterError, Answer, from_node, cluster_down, panic,
}
use ipfs_nosql_frame.Rediscluster.Cluster.Select.{
  update_slots_by_random_master_node, update_slots_info_by_random_node,
}
use ipfs_nosql_frame.Rediscluster.Cluster.Route.{System, settle_reply}
use ipfs_nosql_frame.Rediscluster.Cluster.Batches.{NodeCommand, NodeBatch, Batch}

abbrev pub is_cluster_down : RespKind → Bool
is_cluster_down resp_cluster_down = true
is_cluster_down resp_ok = false
is_cluster_down resp_move = false
is_cluster_down resp_ask = false
is_cluster_down resp_conn_timeout = false
is_cluster_down resp_error = false

abbrev pub and_reply : Reply → Result ClusterError (List Reply) → Result ClusterError (List Reply)
and_reply r (err e) = err e
and_reply r (ok l) = ok (r ∷ l)

module _ {Float : Type 0} where
  abbrev pub lines : List (NodeCommand Float) → List (Bytes × List (Arg Float))
  lines [] = []
  lines (command ∷ cmds) = (command.cmd, command.args) ∷ lines cmds

  -- The first command of the batch at an index, that batch, and the batches without the command.
  unfoldable pub take_command :
      ℕ
      → List (NodeBatch Float)
      → Option (NodeBatch Float × NodeCommand Float × List (NodeBatch Float))
  take_command i [] = none
  take_command zero (b ∷ batches) = elim b.cmds [
    | [] ↦ none
    | command ∷ cmds ↦ some (b, command, record b { cmds = cmds } ∷ batches)
  ]
  take_command (suc i) (b ∷ batches) = elim (take_command i batches) [
    | none ↦ none
    | some (b', command, batches') ↦ some (b', command, b ∷ batches')
  ]

  -- What a command of a batch adds to the replies: nil if the batch has failed.
  abbrev reply_in : NodeBatch Float → NodeCommand Float → Reply
  reply_in b command = elim b.err [ none ↦ command.reply | some e ↦ null ]

  abbrev noted : ℕ → NodeBatch Float → Cluster → Cluster
  noted now b c = elim b.err [ none ↦ c | some e ↦ update_slots_info_by_random_node b.node now c ]

  -- The loop over the index.
  unfoldable pub assemble :
      ℕ → List ℕ → List (NodeBatch Float) → Cluster → Result ClusterError (List Reply) × Cluster
  assemble now [] batches c = (ok [], c)
  assemble now (i ∷ index) batches c = elim (take_command i batches) [
    | none ↦ (err panic, c)
    | some (b, command, batches') ↦
        if is_cluster_down (check_reply command.reply)
        then (err cluster_down, update_slots_info_by_random_node b.node now c)
        else (let (x, c') = assemble now index batches' (noted now b c) in
            (and_reply (reply_in b command) x, c'))
  ]

module _ {Float : Type 0} (N : Calls Float) (pick now turns : ℕ) where
  abbrev degrade :
      NodeRef → Option NodeRef → NodeError → System N → NodeRef × Result NodeError N.Pipe × System N
  degrade node none e s = (node, err e, s)
  degrade node (some master) e (c, w) =
      if node.node_type == slave_node
      then (let (x, w') = N.connect master.id w in (master, x, (c, w')))
      else (node, err e, (c, w))

  -- getConn of doBatch: a slave that cannot be reached gives way to its master, if that is known.
  abbrev connected :
      NodeRef
      → Option NodeRef
      → Result NodeError N.Pipe
      → System N
      → NodeRef × Result NodeError N.Pipe × System N
  connected node master (ok pipe) s = (node, ok pipe, s)
  connected node master (err e) (c, w) =
      degrade node master e (update_slots_by_random_master_node pick now c, w)

  abbrev put_answer : Answer → NodeCommand Float → NodeCommand Float
  put_answer (reply, e) command = record command { reply = reply; err = e }

  -- The loop over the replies: the commands with their answers, the error that ended it, the connection.
  unfoldable pub receive_all :
      NodeRef
      → List (NodeCommand Float)
      → N.Pipe
      → System N
      → (List (NodeCommand Float) × Option NodeError × N.Pipe) × System N
  receive_all node [] pipe s = (([], none, pipe), s)
  receive_all node (command ∷ cmds) pipe s =
      let (x, pipe1) = N.receive_one pipe in
      elim x [
        | err e ↦ ((command ∷ cmds, some e, pipe1), s)
        | ok reply ↦
            let (a, s1) = settle_reply N now (λ c. c) node command.cmd command.args turns reply s in
            let ((cmds', e, pipe2), s2) = receive_all node cmds pipe1 s1 in
            ((put_answer a command ∷ cmds', e, pipe2), s2)
      ]

  abbrev finish :
      NodeRef
      → NodeBatch Float
      → (List (NodeCommand Float) × Option NodeError × N.Pipe) × System N
      → NodeBatch Float × System N
  finish node b ((cmds, none, pipe), (c, w)) =
      (record b { cmds = cmds }, (c, N.release node.id pipe w))
  finish node b ((cmds, some e, pipe), (c, w)) =
      (record b { cmds = cmds; err = some (from_node e) }, (c, N.close node.id pipe w))

  abbrev after_send :
      NodeRef
      → NodeBatch Float
      → Result NodeError Unit × N.Pipe
      → System N
      → NodeBatch Float × System N
  after_send node b (err e, pipe) (c, w) =
      (record b { err = some (from_node e) }, (c, N.close node.id pipe w))
  after_send node b (ok u, pipe) s = finish node b (receive_all node b.cmds pipe s)

  abbrev on_pipe :
      NodeBatch Float → NodeRef × Result NodeError N.Pipe × System N → NodeBatch Float × System N
  on_pipe b (node, err e, s) = (record b { err = some (from_node e) }, s)
  on_pipe b (node, ok pipe, s) =
      after_send node b (N.send_all (node.node_type == slave_node) (lines b.cmds) pipe) s

  unfoldable pub do_batch : NodeBatch Float → System N → NodeBatch Float × System N
  do_batch b (c, w) =
      let (x, w') = N.connect b.node.id w in on_pipe b (connected b.node b.master_node x (c, w'))

  unfoldable pub do_batches : List (NodeBatch Float) → System N → List (NodeBatch Float) × System N
  do_batches [] s = ([], s)
  do_batches (b ∷ batches) s =
      let (b', s1) = do_batch b s in
      let (batches', s2) = do_batches batches s1 in (b' ∷ batches', s2)

  unfoldable pub run_batch : Batch Float → System N → Result ClusterError (List Reply) × System N
  run_batch bat s =
      let (batches, (c, w)) = do_batches bat.batches s in
      let (x, c') = assemble now bat.index batches c in (x, (c', w))
