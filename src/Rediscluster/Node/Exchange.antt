-- ===== src/Rediscluster/Node/Exchange.antt =====
-- node.go: send, flush, receive, do and doRpushExpire: a command is sent on a connection, and its reply
-- received. `clock i` is what the i-th reading of the clock in a call gives.
use ipfs_nosql_frame.Prelude.{
  ℕ, ◌+◌, ◌-◌, ℤ, pos, Option, none, some, List, [], ◌∷◌, Bytes, codes, ltb, is_positive, pos_part,
  if◌then◌else◌, Result, ok, err,
}
use ipfs_nosql_frame.Credis.Source.{Source, Sink}
use ipfs_nosql_frame.Rediscluster.Replies.{Reply, redis_error}
use ipfs_nosql_frame.Rediscluster.Node.Errors.{
  NodeError, no_pending, index_out_of_range, from_write,
}
use ipfs_nosql_frame.Rediscluster.Node.Command.{Arg, int, write_command}
use ipfs_nosql_frame.Rediscluster.Node.Wire.{read_reply}
use ipfs_nosql_frame.Rediscluster.Node.Pool.{
  Conn, State, Dialled, get_conn, release_conn, shutdown_conn,
}

-- What a method of a connection does, with an error or a value.
abbrev pub Exchange : Source → Sink → Type 0 → Type 0
Exchange S W A = Conn S W → Result NodeError A × Conn S W

abbrev pub done : Option NodeError → Result NodeError Unit
done none = ok tt
done (some e) = err e

-- time.Now().Add(timeout), if the timeout is positive.
abbrev pub deadline : ℤ → ℕ → Option ℕ → Option ℕ
deadline timeout now old = if is_positive timeout then some (now + pos_part timeout) else old

module _ {S : Source} {W : Sink} where
  abbrev pub proceed : {A B : Type 0} → Result NodeError A → (A → Exchange S W B) → Exchange S W B
  proceed (ok a) f conn = f a conn
  proceed (err e) f conn = (err e, conn)

  infixl 5 ◌>>=◌ ◌>>◌
  abbrev pub ◌>>=◌ : {A B : Type 0} → Exchange S W A → (A → Exchange S W B) → Exchange S W B
  ◌>>=◌ m f conn = let (x, conn') = m conn in proceed x f conn'

  abbrev pub ◌>>◌ : {A B : Type 0} → Exchange S W A → Exchange S W B → Exchange S W B
  m >> k = m >>= λ _. k

  abbrev pub return : {A : Type 0} → A → Exchange S W A
  return a conn = (ok a, conn)

  module _ {Float : Type 0} (format_float : Float → Bytes) where
    unfoldable pub send : Bytes → List (Arg Float) → ℕ → Exchange S W Unit
    send cmd args now conn =
        let (e, bw) = write_command format_float W cmd args conn.bw in
        (
          done e,
          record conn {
            pending = conn.pending + 1;
            write_deadline = deadline conn.write_timeout now conn.write_deadline;
            bw = bw;
          },
        )

  unfoldable pub flush : ℕ → Exchange S W Unit
  flush now conn =
      let (e, bw) = W.flush conn.bw in
      (
        done (from_write e),
        record conn {
          write_deadline = deadline conn.write_timeout now conn.write_deadline;
          bw = bw;
        },
      )

  -- The rest of receive, when replies are pending.
  abbrev receive_reply : ℕ → ℕ → Exchange S W Reply
  receive_reply turns fuel conn =
      let (x, br) = read_reply S turns fuel conn.br in
      (x, record conn { pending = conn.pending - 1; br = br })

  unfoldable pub receive : ℕ → ℕ → ℕ → Exchange S W Reply
  receive turns fuel now conn =
      let waiting = record conn {
        read_deadline = deadline conn.read_timeout now conn.read_deadline;
      } in
      if ltb 0 conn.pending then receive_reply turns fuel waiting else (err no_pending, waiting)

  -- The end of an exchange: the connection is closed on an error, and released otherwise.
  unfoldable pub settle :
      {A : Type 0} → ℕ → Result NodeError A × Conn S W → State S W → Result NodeError A × State S W
  settle now (err e, conn) s = (err e, shutdown_conn conn s)
  settle now (ok a, conn) s = (ok a, release_conn now conn s)

  -- A connection from getConn for an exchange, or the reply that stands for no connection.
  abbrev pub with_conn :
      (Conn S W → State S W → Result NodeError Reply × State S W)
      → Result NodeError (Conn S W) × State S W
      → Result NodeError Reply × State S W
  with_conn f (err e, s) = (ok (redis_error (codes "ECONNTIMEOUT")), s)
  with_conn f (ok conn, s) = f conn s

  module _ {Float : Type 0} (format_float : Float → Bytes) (turns fuel : ℕ) (dialled : Dialled S W)
      (clock : ℕ → ℕ) where
    abbrev pub do_exchange : Bytes → List (Arg Float) → Exchange S W Reply
    do_exchange cmd args = do
      send format_float cmd args (clock 1)
      flush (clock 2)
      receive turns fuel (clock 3)

    -- redisNode.do, which is a word of antt
    unfoldable pub do_command :
        Bytes → List (Arg Float) → State S W → Result NodeError Reply × State S W
    do_command cmd args s =
        with_conn (λ conn. settle (clock 4) (do_exchange cmd args conn))
          (get_conn dialled (clock 0) s)

    -- The exchange of doRpushExpire, with the time to live that is sent last.
    abbrev pub rpush_expire : Bytes → Arg Float → Arg Float → Arg Float → Exchange S W Reply
    rpush_expire cmd list element expire = do
      send format_float cmd (list ∷ element ∷ []) (clock 1)
      send format_float (codes "expire") (list ∷ expire ∷ []) (clock 2)
      flush (clock 3)
      reply ← receive turns fuel (clock 4)
      receive turns fuel (clock 5)
      return reply

    -- The body of doRpushExpire on a connection; with fewer than two arguments it panics.
    unfoldable pub rpush_body :
        Bytes → List (Arg Float) → Conn S W → State S W → Result NodeError Reply × State S W
    rpush_body cmd [] conn s = (err index_out_of_range, s)
    rpush_body cmd (list ∷ []) conn s = (err index_out_of_range, s)
    rpush_body cmd (list ∷ element ∷ []) conn s =
        settle (clock 6) (rpush_expire cmd list element (int (pos 600)) conn) s
    rpush_body cmd (list ∷ element ∷ expire ∷ more) conn s =
        settle (clock 6) (rpush_expire cmd list element expire conn) s

    unfoldable pub do_rpush_expire :
        Bytes → List (Arg Float) → State S W → Result NodeError Reply × State S W
    do_rpush_expire cmd args s = with_conn (rpush_body cmd args) (get_conn dialled (clock 0) s)
