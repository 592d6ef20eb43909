-- ===== src/Rediscluster/Node/Pool.antt =====
-- node.go: redisNode with its pool of connections. The
-- buffered reader and writer of a connection are a Source and a Sink, and a connection is known by a
-- number. `now` is the time of a call, and `dialled` what net.DialTimeout returns if the call dials. `shut`
-- lists the connections that have been closed.
use ipfs_nosql_frame.Prelude.{
  ℕ, ◌+◌, ℤ, Bool, true, ◌||◌, Option, none, List, [], ◌∷◌, ◌++◌, Bytes, length, ltb, is_positive,
  leb_ℤ, pos_part, if◌then◌else◌, Result, ok, err,
}
use ipfs_nosql_frame.Credis.Source.{Source, Sink}
use ipfs_nosql_frame.Rediscluster.Node.Errors.{NodeError, node_closed, dial}

-- redisConn, without its scratch space; the deadlines are what net.Conn has been told.
pub record Conn (S : Source) (W : Sink) : Type 0 where
  pub c : ℕ
  pub t : ℕ
  pub br : S.Reader
  pub bw : W.Writer
  pub read_timeout : ℤ
  pub write_timeout : ℤ
  pub read_deadline : Option ℕ
  pub write_deadline : Option ℕ
  pub pending : ℕ

abbrev pub master_node : ℕ
master_node = 1

abbrev pub slave_node : ℕ
slave_node = 2

-- redisNode; `conns` is listed from the back, where getConn takes, to the front, where releaseConn puts.
pub record Node (S : Source) (W : Sink) : Type 0 where
  pub address : Bytes
  pub conns : List (Conn S W)
  pub keep_alive : ℤ
  pub alive_time : ℤ
  pub conn_timeout : ℤ
  pub read_timeout : ℤ
  pub write_timeout : ℤ
  pub update_time : ℕ
  pub closed : Bool
  pub node_type : ℕ

pub record State (S : Source) (W : Sink) : Type 0 where
  pub node : Node S W
  pub shut : List ℕ

-- What net.DialTimeout returns: an error, or the connection with its buffered reader and writer.
abbrev pub Dialled : Source → Sink → Type 0
Dialled S W = Result ℕ (ℕ × S.Reader × W.Writer)

module _ {S : Source} {W : Sink} where
  -- conn.t.Add(node.aliveTime).After(time.Now()), for a positive time
  abbrev pub is_alive : ℤ → ℕ → Conn S W → Bool
  is_alive alive_time now conn = ltb now (conn.t + pos_part alive_time)

  -- The loop of getConn over the stale connections, which are taken out and not closed.
  unfoldable pub drop_stale : ℤ → ℕ → List (Conn S W) → List (Conn S W)
  drop_stale alive_time now [] = []
  drop_stale alive_time now (conn ∷ conns) =
      let rest = drop_stale alive_time now conns in
      if is_alive alive_time now conn then conn ∷ conns else rest

  -- The part of getConn after the clean-up: dial, or take the connection at the back.
  unfoldable pub take_conn :
      Dialled S W → List (Conn S W) → State S W → Result NodeError (Conn S W) × State S W
  take_conn (err e) [] s = (err (dial e), record s { node = record s.node { conns = [] } })
  take_conn (ok (c, br, bw)) [] s = (
    ok (record {
      c = c;
      t = 0;
      br = br;
      bw = bw;
      read_timeout = s.node.read_timeout;
      write_timeout = s.node.write_timeout;
      read_deadline = none;
      write_deadline = none;
      pending = 0;
    }),
    record s { node = record s.node { conns = [] } },
  )
  take_conn dialled (conn ∷ conns) s =
      (ok conn, record s { node = record s.node { conns = conns } })

  unfoldable pub get_conn : Dialled S W → ℕ → State S W → Result NodeError (Conn S W) × State S W
  get_conn dialled now s =
      let conns =
        if is_positive s.node.alive_time
        then drop_stale s.node.alive_time now s.node.conns
        else s.node.conns in
      if s.node.closed then (err node_closed, s) else take_conn dialled conns s

  -- conn.shutdown()
  unfoldable pub shutdown_conn : Conn S W → State S W → State S W
  shutdown_conn conn s = record s { shut = conn.c ∷ s.shut }

  unfoldable pub release_conn : ℕ → Conn S W → State S W → State S W
  release_conn now conn s =
      if ltb 0 conn.pending || s.node.closed
      then shutdown_conn conn s
      else if leb_ℤ s.node.keep_alive (length s.node.conns) || leb_ℤ s.node.alive_time 0
      then shutdown_conn conn s
      else record s {
        node = record s.node { conns = s.node.conns ++ record conn { t = now } ∷ [] };
      }

  -- The loop of shutdown.
  unfoldable pub shut_all : List (Conn S W) → List ℕ → List ℕ
  shut_all [] shut = shut
  shut_all (conn ∷ conns) shut = shut_all conns (conn.c ∷ shut)

  unfoldable pub shutdown : State S W → State S W
  shutdown s = record {
    node = record s.node { conns = []; closed = true };
    shut = shut_all s.node.conns s.shut;
  }
