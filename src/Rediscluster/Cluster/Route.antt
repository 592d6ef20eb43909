-- ===== src/Rediscluster/Cluster/Route.antt =====
-- cluster.go: handleMove, handleAsk, handleConnTimeout and the switch on the kind of a reply, which Do,
-- SlaveDo, handleSetTask of multi.go and doBatch of batch.go share. The loop that follows MOVED replies takes fuel. `now` is the
-- time that a message to handleUpdate is stamped with.
use ipfs_nosql_frame.Prelude.{
  ℕ, zero, suc, Option, none, some, List, [], ◌∷◌, ◌++◌, Bytes, codes, ◌==◌, if◌then◌else◌, Result,
  ok, err,
}
use ipfs_nosql_frame.Rediscluster.Replies.{
  Reply, integer, bulk, simple, redis_error, null, array, equal,
}
use ipfs_nosql_frame.Rediscluster.Kinds.{
  RespKind, resp_ok, resp_move, resp_ask, resp_conn_timeout, resp_error, resp_cluster_down,
  check_reply, message, starts_with,
}
use ipfs_nosql_frame.Rediscluster.Node.Errors.{NodeError}
use ipfs_nosql_frame.Rediscluster.Node.Command.{Arg}
use ipfs_nosql_frame.Rediscluster.Cluster.State.{
  NodeRef, Calls, Cluster, ClusterError, Answer, inform, from_node, invalid_response, conn_timeout,
  cluster_down, nil_node, reply_error, stuck,
}
use ipfs_nosql_frame.Rediscluster.Cluster.Select.{
  get_node_by_addr, other_node, update_slots_info_by_random_node,
}

-- strings.Split(s, " "), with the field that is being read
unfoldable pub split_spaces : Bytes → Bytes → List Bytes
split_spaces field [] = field ∷ []
split_spaces field (c ∷ s) =
    let next = field ∷ split_spaces [] s in
    let more = split_spaces (field ++ c ∷ []) s in if c == b' ' then next else more

-- `fields[2]`, if there are three fields.
abbrev pub third : List Bytes → Option Bytes
third [] = none
third (a ∷ []) = none
third (a ∷ b ∷ []) = none
third (a ∷ b ∷ c ∷ []) = some c
third (a ∷ b ∷ c ∷ d ∷ more) = none

abbrev answer : Result NodeError Reply → Answer
answer (ok reply) = (reply, none)
answer (err e) = (null, some (from_node e))

module _ {Float : Type 0} (N : Calls Float) where
  -- The cluster with its nodes; a call changes both.
  abbrev pub System : Type 0
  System = Cluster × N.World

  abbrev pub on_node : (N.World → Result NodeError Reply × N.World) → System → Answer × System
  on_node call (c, w) = let (x, w') = call w in (answer x, (c, w'))

  -- newNode.do(cmd, args...), for a node that was looked up.
  abbrev do_at : Bytes → List (Arg Float) → Result ClusterError NodeRef → System → Answer × System
  do_at cmd args (err e) s = ((null, some e), s)
  do_at cmd args (ok node) s = on_node (N.do_command node.id cmd args) s

  abbrev ask_at : Bytes → List (Arg Float) → Result ClusterError NodeRef → System → Answer × System
  ask_at cmd args (err e) s = ((null, some e), s)
  ask_at cmd args (ok node) s = on_node (N.do_asking node.id cmd args) s

  module _ (now : ℕ) where
    -- handleMove, from the third field on
    abbrev move_to : NodeRef → Bytes → List (Arg Float) → Option Bytes → System → Answer × System
    move_to node cmd args none s = ((null, some invalid_response), s)
    move_to node cmd args (some addr) (c, w) =
        let c' = inform (some node) now c in do_at cmd args (get_node_by_addr addr c') (c', w)

    unfoldable pub handle_move :
        NodeRef → Bytes → Bytes → List (Arg Float) → System → Answer × System
    handle_move node msg cmd args s = move_to node cmd args (third (split_spaces [] msg)) s

    abbrev ask_to : Bytes → List (Arg Float) → Option Bytes → System → Answer × System
    ask_to cmd args none s = ((null, some invalid_response), s)
    ask_to cmd args (some addr) (c, w) = ask_at cmd args (get_node_by_addr addr c) (c, w)

    unfoldable pub handle_ask : Bytes → Bytes → List (Arg Float) → System → Answer × System
    handle_ask msg cmd args s = ask_to cmd args (third (split_spaces [] msg)) s

    -- handleConnTimeout, from the fields of the MOVED of the other node on.
    abbrev timeout_moved :
        NodeRef → NodeRef → Bytes → List (Arg Float) → Option Bytes → System → Answer × System
    timeout_moved node other cmd args none s = ((null, some invalid_response), s)
    timeout_moved node other cmd args (some addr) (c, w) =
        let c' = inform (some other) now c in
        let redo = do_at cmd args (get_node_by_addr addr c') (c', w) in
        if equal addr node.address then ((null, some conn_timeout), (c, w)) else redo

    -- The errors of the other node: all but MOVED are passed on as errors.
    abbrev timeout_error :
        NodeRef → NodeRef → Bytes → List (Arg Float) → Bytes → System → Answer × System
    timeout_error node other cmd args m s =
        if starts_with (codes "MOVED") m
        then timeout_moved node other cmd args (third (split_spaces [] m)) s
        else ((null, some (reply_error m)), s)

    abbrev timeout_reply :
        NodeRef
        → NodeRef
        → Bytes
        → List (Arg Float)
        → Result NodeError Reply
        → System
        → Answer × System
    timeout_reply node other cmd args (err e) s = ((null, some (from_node e)), s)
    timeout_reply node other cmd args (ok (redis_error m)) s = timeout_error node other cmd args m s
    timeout_reply node other cmd args (ok (integer n)) (c, w) =
        ((integer n, none), (inform (some other) now c, w))
    timeout_reply node other cmd args (ok (bulk b)) (c, w) =
        ((bulk b, none), (inform (some other) now c, w))
    timeout_reply node other cmd args (ok (simple b)) (c, w) =
        ((simple b, none), (inform (some other) now c, w))
    timeout_reply node other cmd args (ok null) (c, w) =
        ((null, none), (inform (some other) now c, w))
    timeout_reply node other cmd args (ok (array l)) (c, w) =
        ((array l, none), (inform (some other) now c, w))

    abbrev timeout_at :
        NodeRef → Bytes → List (Arg Float) → Option NodeRef → System → Answer × System
    timeout_at node cmd args none s = ((null, some nil_node), s)
    timeout_at node cmd args (some other) (c, w) =
        let (x, w') = N.do_command other.id cmd args w in
        timeout_reply node other cmd args x (c, w')

    unfoldable pub handle_conn_timeout :
        NodeRef → Bytes → List (Arg Float) → System → Answer × System
    handle_conn_timeout node cmd args (c, w) =
        timeout_at node cmd args (other_node node.address none c.nodes) (c, w)

    -- The switch on the kind of a reply, with what is done to the cluster when it is down, and with the
    -- call for MOVED.
    abbrev pub by_kind :
        (Cluster → Cluster)
        → NodeRef
        → Bytes
        → List (Arg Float)
        → RespKind
        → Reply
        → (System → Answer × System)
        → System
        → Answer × System
    by_kind down node cmd args resp_ok reply moved s = ((reply, none), s)
    by_kind down node cmd args resp_error reply moved s = ((reply, none), s)
    by_kind down node cmd args resp_ask reply moved s = handle_ask (message reply) cmd args s
    by_kind down node cmd args resp_conn_timeout reply moved s = handle_conn_timeout node cmd args s
    by_kind down node cmd args resp_cluster_down reply moved (c, w) =
        ((reply, some cluster_down), (down c, w))
    by_kind down node cmd args resp_move reply moved s = moved s

    -- The loop over MOVED replies: the error of handleMove is not looked at, and its nil reply is no error.
    unfoldable pub follow :
        (Cluster → Cluster)
        → NodeRef
        → Bytes
        → List (Arg Float)
        → ℕ
        → Reply
        → System
        → Answer × System
    follow down node cmd args zero reply s = ((null, some stuck), s)
    follow down node cmd args (suc turns) reply s =
        let ((next, e), s') = handle_move node (message reply) cmd args s in
        by_kind down node cmd args (check_reply next) next (follow down node cmd args turns next) s'

    -- The switch on the first reply.
    unfoldable pub settle_reply :
        (Cluster → Cluster)
        → NodeRef
        → Bytes
        → List (Arg Float)
        → ℕ
        → Reply
        → System
        → Answer × System
    settle_reply down node cmd args turns reply s =
        by_kind down node cmd args (check_reply reply) reply (follow down node cmd args turns reply)
          s

    -- The switch of Do, SlaveDo and handleSetTask, and the error of the first command.
    unfoldable pub settle_answer :
        NodeRef
        → Bytes
        → List (Arg Float)
        → ℕ
        → Result NodeError Reply × N.World
        → Cluster
        → Answer × System
    settle_answer node cmd args turns (err e, w) c = ((null, some (from_node e)), (c, w))
    settle_answer node cmd args turns (ok reply, w) c =
        settle_reply (update_slots_info_by_random_node node now) node cmd args turns reply (c, w)
