-- ===== src/Rediscluster/Cluster/Nodes.antt =====
-- The calls of a cluster on its nodes, by the connections of node.go. `dials i` is what net.DialTimeout
-- returns in the i-th call, and `clocks i` the readings of the clock in it.
use ipfs_nosql_frame.Prelude.{
  ℕ, suc, ℤ, Bool, false, List, [], ◌∷◌, Bytes, ◌==◌, if◌then◌else◌, Result, ok, err,
}
use ipfs_nosql_frame.Credis.Source.{Source, Sink}
use ipfs_nosql_frame.Rediscluster.Node.Errors.{NodeError}
use ipfs_nosql_frame.Rediscluster.Node.Command.{Arg}
use ipfs_nosql_frame.Rediscluster.Node.Pool
use ipfs_nosql_frame.Rediscluster.Node.Pool.{
  Conn, Node, State, Dialled, get_conn, release_conn, shutdown_conn,
}
use ipfs_nosql_frame.Rediscluster.Node.Exchange
use ipfs_nosql_frame.Rediscluster.Node.Exchange.{
  Exchange, ◌>>=◌, ◌>>◌, return, send, flush, receive,
}
use ipfs_nosql_frame.Rediscluster.Node.Asking
use ipfs_nosql_frame.Rediscluster.Node.Asking.{send_readonly, receive_readonly}
use ipfs_nosql_frame.Rediscluster.Cluster.State.{NodeRef, Calls}

-- The options that NewCluster passes on to each node.
pub record Options : Type 0 where
  pub keep_alive : ℤ
  pub alive_time : ℤ
  pub conn_timeout : ℤ
  pub read_timeout : ℤ
  pub write_timeout : ℤ

module _ (S : Source) (W : Sink) {Float : Type 0} (format_float : Float → Bytes) (turns fuel : ℕ)
    (options : Options) (dials : ℕ → Dialled S W) (clocks : ℕ → ℕ → ℕ) where
  pub record World : Type 0 where
    pub states : ℕ → State S W
    pub calls : ℕ

  -- A call on the state of one node.
  abbrev at_node : {A : Type 0} → (ℕ → State S W → A × State S W) → ℕ → World → A × World
  at_node call id w =
      let (a, s) = call w.calls (w.states id) in
      (a, record { states = λ i. if i == id then s else w.states i; calls = suc w.calls })

  abbrev quietly : (ℕ → State S W → State S W) → ℕ → World → World
  quietly call id w = let (u, w') = at_node (λ i s. (tt, call i s)) id w in w'

  -- The literal redisNode{...} in Update.
  unfoldable pub new_node : NodeRef → State S W
  new_node node = record {
    node = record {
      address = node.address;
      conns = [];
      keep_alive = options.keep_alive;
      alive_time = options.alive_time;
      conn_timeout = options.conn_timeout;
      read_timeout = options.read_timeout;
      write_timeout = options.write_timeout;
      update_time = 0;
      closed = false;
      node_type = node.node_type;
    };
    shut = [];
  }

  -- The loop of doBatch that sends the commands of a batch.
  unfoldable pub send_commands : List (Bytes × List (Arg Float)) → ℕ → Exchange S W Unit
  send_commands [] now = return tt
  send_commands ((cmd, args) ∷ commands) now = do
    send format_float cmd args now
    send_commands commands now

  -- doBatch from the sending of READONLY to its reply.
  unfoldable pub send_batch : ℕ → Bool → List (Bytes × List (Arg Float)) → Exchange S W Unit
  send_batch i readonly commands = do
    send_readonly format_float turns fuel (dials i) (clocks i) readonly
    send_commands commands (clocks i 2)
    flush (clocks i 3)
    receive_readonly format_float turns fuel (dials i) (clocks i) readonly

  -- getConn of doBatch, with the number of the call.
  abbrev connect : ℕ → State S W → Result NodeError (ℕ × Conn S W) × State S W
  connect i s =
      let (x, s') = get_conn (dials i) (clocks i 0) s in
      elim x [ ok conn ↦ (ok (i, conn), s') | err e ↦ (err e, s') ]

  abbrev pub calls : Calls Float
  calls = record {
    World = World;
    do_command = λ id cmd args.
        at_node (λ i. Exchange.do_command format_float turns fuel (dials i) (clocks i) cmd args) id;
    do_rpush_expire = λ id cmd args.
        at_node
          (λ i. Exchange.do_rpush_expire format_float turns fuel (dials i) (clocks i) cmd args) id;
    do_asking = λ id cmd args.
        at_node (λ i. Asking.do_asking format_float turns fuel (dials i) (clocks i) cmd args) id;
    do_slave = λ readonly id cmd args.
        at_node
          (λ i. Asking.do_slave format_float turns fuel (dials i) (clocks i) readonly cmd args) id;
    Pipe = ℕ × Conn S W;
    connect = λ id. at_node connect id;
    send_all = λ readonly commands pipe.
        let (i, conn) = pipe in
        let (x, conn') = send_batch i readonly commands conn in (x, (i, conn'));
    receive_one = λ pipe.
        let (i, conn) = pipe in
        let (x, conn') = receive turns fuel (clocks i 5) conn in (x, (i, conn'));
    release = λ id pipe. let (i, conn) = pipe in quietly (λ _. release_conn (clocks i 6) conn) id;
    close = λ id pipe. let (i, conn) = pipe in quietly (λ _. shutdown_conn conn) id;
    make_node =
        λ node w. record w { states = λ i. if i == node.id then new_node node else w.states i };
    shutdown = λ id. quietly (λ _. Pool.shutdown) id;
  }
