-- ===== src/Rediscluster/Node/Asking.antt =====
-- cluster.go: what handleAsk and SlaveDo exchange with a node, and batch.go: what doBatch does.
use ipfs_nosql_frame.Prelude.{
  ℕ, Bool, true, false, none, List, [], Bytes, codes, if◌then◌else◌, Result, ok, err,
}
use ipfs_nosql_frame.Credis.Source.{Source, Sink}
use ipfs_nosql_frame.Rediscluster.Replies.{Reply, ReplyError, equal, string}
use ipfs_nosql_frame.Rediscluster.Kinds.{
  RespKind, resp_ok, resp_move, resp_ask, resp_conn_timeout, resp_error, resp_cluster_down,
  check_reply,
}
use ipfs_nosql_frame.Rediscluster.Node.Errors.{NodeError, ask_refused, readonly_refused}
use ipfs_nosql_frame.Rediscluster.Node.Command.{Arg}
use ipfs_nosql_frame.Rediscluster.Node.Pool.{Conn, State, Dialled, get_conn}
use ipfs_nosql_frame.Rediscluster.Node.Exchange.{
  Exchange, ◌>>=◌, ◌>>◌, return, send, flush, receive, settle,
}

-- `re != "OK"` or an error, for the string that a reply is converted to.
abbrev is_ok_text : Result (ReplyError NodeError) Bytes → Bool
is_ok_text (ok s) = equal s (codes "OK")
is_ok_text (err e) = false

abbrev is_resp_ok : RespKind → Bool
is_resp_ok resp_ok = true
is_resp_ok resp_move = false
is_resp_ok resp_ask = false
is_resp_ok resp_conn_timeout = false
is_resp_ok resp_error = false
is_resp_ok resp_cluster_down = false

module _ {S : Source} {W : Sink} where
  abbrev throw : {A : Type 0} → NodeError → Exchange S W A
  throw e conn = (err e, conn)

  -- A call whose error is dropped.
  abbrev ignore : Exchange S W Unit → Exchange S W Unit
  ignore m conn = let (_, conn') = m conn in (ok tt, conn')

  -- An exchange on a connection from getConn, whose error is passed on.
  abbrev pub on_conn :
      {A : Type 0}
      → (Conn S W → State S W → Result NodeError A × State S W)
      → Result NodeError (Conn S W) × State S W
      → Result NodeError A × State S W
  on_conn f (err e, s) = (err e, s)
  on_conn f (ok conn, s) = f conn s

  module _ {Float : Type 0} (format_float : Float → Bytes) (turns fuel : ℕ) (dialled : Dialled S W)
      (clock : ℕ → ℕ) where
    abbrev pub ask_exchange : Bytes → List (Arg Float) → Exchange S W Reply
    ask_exchange cmd args = do
      ignore (send format_float (codes "ASKING") [] (clock 1))
      ignore (send format_float cmd args (clock 2))
      flush (clock 3)
      asked ← receive turns fuel (clock 4)
      if is_ok_text (string asked none) then receive turns fuel (clock 5) else throw ask_refused

    -- handleAsk, from getConn on
    unfoldable pub do_asking :
        Bytes → List (Arg Float) → State S W → Result NodeError Reply × State S W
    do_asking cmd args s =
        on_conn (λ conn. settle (clock 6) (ask_exchange cmd args conn))
          (get_conn dialled (clock 0) s)

    -- The command READONLY before the others, if the node is a slave, and its reply.
    abbrev pub send_readonly : Bool → Exchange S W Unit
    send_readonly false = return tt
    send_readonly true = send format_float (codes "READONLY") [] (clock 1)

    abbrev pub receive_readonly : Bool → Exchange S W Unit
    receive_readonly false = return tt
    receive_readonly true = do
      reply ← receive turns fuel (clock 4)
      if is_resp_ok (check_reply reply) then return tt else throw readonly_refused

    abbrev pub slave_exchange : Bool → Bytes → List (Arg Float) → Exchange S W Reply
    slave_exchange readonly cmd args = do
      send_readonly readonly
      send format_float cmd args (clock 2)
      flush (clock 3)
      receive_readonly readonly
      receive turns fuel (clock 5)

    -- SlaveDo, from getConn to releaseConn
    unfoldable pub do_slave :
        Bool → Bytes → List (Arg Float) → State S W → Result NodeError Reply × State S W
    do_slave readonly cmd args s =
        on_conn (λ conn. settle (clock 6) (slave_exchange readonly cmd args conn))
          (get_conn dialled (clock 0) s)
