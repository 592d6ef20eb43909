-- ===== src/Rediscluster/Cluster/Moved.antt =====
-- The way of a command that is answered by MOVED.
use ipfs_nosql_frame.Prelude.{
  ℕ, zero, suc, ◌≤◌, ◌≡◌, refl, ◌⊎◌, inl, inr, false, none, some, List, [], ◌∷◌, Bytes, codes,
  arith, ok, err,
}
use ipfs_nosql_frame.Rediscluster.Replies.{Reply, null, equal}
use ipfs_nosql_frame.Rediscluster.Kinds.{resp_ok, resp_move, resp_error, check_reply, message}
use ipfs_nosql_frame.Rediscluster.Node.Command.{Arg}
use ipfs_nosql_frame.Rediscluster.Cluster.State.{NodeRef, Calls, Cluster, ClusterError, inform}
use ipfs_nosql_frame.Rediscluster.Cluster.Select.{
  get_node_by_addr, get_node_by_key, update_slots_info_by_random_node,
}
use ipfs_nosql_frame.Rediscluster.Cluster.Commands
use ipfs_nosql_frame.Rediscluster.Cluster.Commands.{is_multi_set}
use ipfs_nosql_frame.Rediscluster.Cluster.Route.{
  third, split_spaces, handle_move, follow, settle_reply, settle_answer,
}

module _ {Float : Type 0} (N : Calls Float) (now : ℕ) where
  -- From a reply and a state, so many hops lead to another: each hop is a MOVED with an address that the
  -- cluster knows, and a node that replies.
  pub data Chase (node : NodeRef) (cmd : Bytes) (args : List (Arg Float))
      : ℕ → Reply → Cluster → N.World → Reply → Cluster → N.World → Type 0 where
    arrived :
        (r : Reply) (c : Cluster) (w : N.World)
        → (check_reply r ≡ resp_ok) ⊎ (check_reply r ≡ resp_error)
        → Chase node cmd args 0 r c w r c w
    hop :
        (k : ℕ) (r next last : Reply) (c c' : Cluster) (w w1 w' : N.World) (addr : Bytes)
        (target : NodeRef)
        → check_reply r ≡ resp_move
        → third (split_spaces [] (message r)) ≡ some addr
        → get_node_by_addr addr (inform (some node) now c) ≡ ok target
        → N.do_command target.id cmd args w ≡ (ok next, w1)
        → Chase node cmd args k next (inform (some node) now c) w1 last c' w'
        → Chase node cmd args (suc k) r c w last c' w'

  settled :
      (down : Cluster → Cluster) (node : NodeRef) (cmd : Bytes) (args : List (Arg Float))
      (turns k : ℕ) (r last : Reply) (c c' : Cluster) (w w' : N.World)
      → k ≤ turns
      → Chase node cmd args k r c w last c' w'
      → settle_reply N now down node cmd args turns r (c, w) ≡ ((last, none), (c', w'))
  unfolding settle_reply follow handle_move
  settled down node cmd args turns _ _ _ _ _ _ _ enough (arrived r c w (inl kind)) = rw kind refl
  settled down node cmd args turns _ _ _ _ _ _ _ enough (arrived r c w (inr kind)) = rw kind refl
  settled down node cmd args zero _ _ _ _ _ _ _ enough
        (hop k r next last c c' w w1 w' addr target move fields found reply rest) =
      let impossible : ⊥ = omega arith in elim impossible [ ]
  settled down node cmd args (suc turns) _ _ _ _ _ _ _ enough
        (hop k r next last c c' w w1 w' addr target move fields found reply rest) =
      rw (move, fields, found, reply)
        (settled down node cmd args turns k next last (inform (some node) now c) c' w1 w'
          (omega arith) rest)

  -- When handleMove cannot read the address, or does not know it, the loop ends without a reply and
  -- without an error.
  lost :
      (down : Cluster → Cluster) (node : NodeRef) (cmd : Bytes) (args : List (Arg Float))
      (turns : ℕ) (r : Reply) (c : Cluster) (w : N.World) (addr : Bytes) (e : ClusterError)
      → check_reply r ≡ resp_move
      → third (split_spaces [] (message r)) ≡ some addr
      → get_node_by_addr addr (inform (some node) now c) ≡ err e
      → settle_reply N now down node cmd args (suc turns) r (c, w)
        ≡ ((null, none), (inform (some node) now c, w))
  unfolding settle_reply follow handle_move check_reply
  lost down node cmd args turns r c w addr e move fields missing = rw (move, fields, missing) refl

  module _ (format_float : Float → Bytes) (runes : Bytes → List ℕ) where
    -- A command for one key, other than RPUSH.
    abbrev pub IsPlain : Bytes → Type 0
    IsPlain cmd =
        (is_multi_set cmd ≡ false)
        × (equal cmd (codes "MGET") ≡ false)
        × (equal cmd (codes "RPUSH") ≡ false)

    -- `Do` of a command for one key other than RPUSH, when the key's node replies and a finite chain of
    -- MOVED replies leads from there to a reply that is a value or an ordinary error, each of them with
    -- an address that the cluster knows and whose node replies: given as many turns as the chain has
    -- hops, `Do` returns that last reply and no error, in the state that the calls along the chain have
    -- left.
    pub do_command-Chase :
        (turns k : ℕ) (cmd : Bytes) (arg : Arg Float) (args : List (Arg Float)) (node : NodeRef)
        (r last : Reply) (c c' : Cluster) (w w1 w' : N.World)
        → IsPlain cmd
        → get_node_by_key format_float runes arg c ≡ ok node
        → N.do_command node.id cmd (arg ∷ args) w ≡ (ok r, w1)
        → Chase node cmd (arg ∷ args) k r c w1 last c' w'
        → k ≤ turns
        → Commands.do_command N format_float runes now turns cmd (arg ∷ args) (c, w)
          ≡ ((last, none), (c', w'))
    unfolding Commands.do_command settle_answer settle_reply
    do_command-Chase turns k cmd arg args node r last c c' w w1 w' (a, b, d) found reply chase
          enough =
        rw (a, b, found, d, reply)
          (settled (update_slots_info_by_random_node node now) node cmd (arg ∷ args) turns k r last
            c c' w1 w' enough chase)

    -- `Do` of a command for one key other than RPUSH, given a turn, when the node of the key replies
    -- MOVED with an address that the cluster does not know, or the cluster is closed meanwhile: it
    -- returns nil and no error, and all that it has done to the cluster is to signal an update.
    pub do_command_loses :
        (turns : ℕ) (cmd : Bytes) (arg : Arg Float) (args : List (Arg Float)) (node : NodeRef)
        (r : Reply) (c : Cluster) (w w1 : N.World) (addr : Bytes) (e : ClusterError)
        → IsPlain cmd
        → get_node_by_key format_float runes arg c ≡ ok node
        → N.do_command node.id cmd (arg ∷ args) w ≡ (ok r, w1)
        → check_reply r ≡ resp_move
        → third (split_spaces [] (message r)) ≡ some addr
        → get_node_by_addr addr (inform (some node) now c) ≡ err e
        → Commands.do_command N format_float runes now (suc turns) cmd (arg ∷ args) (c, w)
          ≡ ((null, none), (inform (some node) now c, w1))
    unfolding Commands.do_command settle_answer settle_reply
    do_command_loses turns cmd arg args node r c w w1 addr e (a, b, d) found reply move fields
          missing =
        rw (a, b, found, d, reply)
          (lost (update_slots_info_by_random_node node now) node cmd (arg ∷ args) turns r c w1 addr
            e move fields missing)
