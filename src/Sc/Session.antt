-- ===== src/Sc/Session.antt =====
-- resper.go: a client's connection in RequestHandleRESP, and how a request ends. Logging is left out.
use ipfs_nosql_frame.Prelude.{ℕ, zero, suc, Bool, true, Option, none, some, [], Bytes}
use ipfs_nosql_frame.Credis.Encoder.{or_empty}
use ipfs_nosql_frame.Credis.Resp.{Resp, RespList, make, nil, cons}
use ipfs_nosql_frame.Bufio2.Conn.{Outbound}
use ipfs_nosql_frame.RespEcho.Writer.{EchoError, Writes, write_error, flush}
use ipfs_nosql_frame.Sc.Backend.{Backend}
use ipfs_nosql_frame.Sc.Reporter.{Reporter}
use ipfs_nosql_frame.Sc.Filter.{Filter}

-- The connection, the counters, and the Redis cluster with all that lies behind it.
pub record Session {Float : Type 0} (O : Outbound) (B : Backend Float) : Type 0 where
  pub out : O.Conn
  pub closed : Bool
  pub reporter : Reporter
  pub world : B.World

-- What a request reads from outside: the time, the rules at each of the places that read them under the
-- lock, and the numbers that fastrand.Uint32n returns, for the sampling, for the shard and for the alert.
pub record Moment (L H : Type 0) : Type 0 where
  pub now : ℕ
  pub listed : Filter L H
  pub ruled : Filter L H
  pub limited : Filter L H
  pub pinged : Filter L H
  pub sample : ℕ
  pub shard : ℕ
  pub alert : ℕ

abbrev pub value_of : Resp → Bytes
value_of (make t v a) = or_empty v

-- respDataArray[i].Value, which the tests on the number of elements keep in range.
abbrev pub value_at : ℕ → RespList → Bytes
value_at i nil = []
value_at zero (cons r l) = value_of r
value_at (suc i) (cons r l) = value_at i l

-- The connection is no bufio.Writer, so that Flush does nothing.
abbrev pub flush_conn : (O : Outbound) → Writes O
flush_conn O = flush O none

module _ {Float : Type 0} {O : Outbound} {B : Backend Float} where
  -- WriteError, Flush and Close.
  unfoldable pub refuse : Bytes → Session O B → Session O B
  refuse msg s = record s { out = (flush_conn O (write_error O msg s.out).1).1; closed = true }

  abbrev pub close_on : Option EchoError → O.Conn → Session O B → Session O B
  close_on none c s = record s { out = c }
  close_on (some e) c s = record s { out = c; closed = true }

  abbrev pub after_write : Option EchoError → O.Conn → Session O B → Session O B
  after_write none c s = let (e, c') = flush_conn O c in close_on e c' s
  after_write (some e) c s = record s { out = c; closed = true }

  -- The reply, and its Flush; an error of either closes the connection.
  unfoldable pub answer : Writes O → Session O B → Session O B
  answer m s = let (e, c) = m s.out in after_write e c s
