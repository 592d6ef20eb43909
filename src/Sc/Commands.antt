-- ===== src/Sc/Commands.antt =====
-- resper.go: the commands LPOP, BLPOP, LLEN and CLUSTERKEYNODE.
use ipfs_nosql_frame.Prelude.{
  ℕ, ltb, ◌==◌, ℤ, true, not, Option, none, some, List, [], ◌∷◌, Bytes, codes, if◌then◌else◌,
  Result, ok, err,
}
use ipfs_nosql_frame.Credis.Resp.{RespList, count}
use ipfs_nosql_frame.Bufio2.Conn.{Outbound}
use ipfs_nosql_frame.Rediscluster.Replies
use ipfs_nosql_frame.Rediscluster.Replies.{
  Reply, ReplyList, ReplyError, integer, bulk, simple, redis_error, array, err_nil, equal, int64,
  values,
}
use ipfs_nosql_frame.Rediscluster.Node.Command
use ipfs_nosql_frame.Rediscluster.Node.Command.{Arg, string}
use ipfs_nosql_frame.Rediscluster.Cluster.State.{ClusterError, Answer}
use ipfs_nosql_frame.RespEcho.Writer
use ipfs_nosql_frame.RespEcho.Writer.{
  Obj, write_int, write_bulk, write_objects, write_simple_string,
}
use ipfs_nosql_frame.Sc.Backend.{Backend}
use ipfs_nosql_frame.Sc.Reporter.{sc_log, contains, add_lpop_command}
use ipfs_nosql_frame.Sc.Session.{Session, value_at, refuse, answer}

-- The dynamic type of a reply, as WriteObjects sees it.
abbrev pub as_obj : Reply → Obj
as_obj (integer n) = Writer.int64 n
as_obj (bulk b) = Writer.bytes (some b)
as_obj (simple s) = Writer.string s
as_obj (redis_error m) = Writer.other
as_obj Replies.null = Writer.nothing
as_obj (array l) = Writer.other

abbrev pub as_objs : ReplyList → List Obj
as_objs Replies.nil = []
as_objs (Replies.cons r l) = as_obj r ∷ as_objs l

-- An error other than ErrNil is passed on; ErrNil leaves the nil value.
abbrev pub nil_or : {A : Type 0} → Result (ReplyError ClusterError) A → Option (Option A)
nil_or (ok a) = some (some a)
nil_or (err e) = elim e [
  | Replies.err_nil ↦ some none
  | Replies.given _ ↦ none
  | Replies.redis _ ↦ none
  | Replies.syntax ↦ none
  | Replies.unexpected_type ↦ none
  | Replies.odd_length ↦ none
  | Replies.not_bulk ↦ none
  | Replies.mismatch ↦ none
  | Replies.cannot_convert ↦ none
]

module _ {Float : Type 0} (O : Outbound) (B : Backend Float) where
  abbrev pub count_lpop : ℕ → Bytes → Session O B → Session O B
  count_lpop now key s = record s {
    reporter = add_lpop_command now (if contains key sc_log then sc_log else key) s.reporter;
  }

  abbrev pub reply_bulk : Option (Option Bytes) → Session O B → Session O B
  reply_bulk none s = refuse (codes "LPOP COMMAMDN EXEC FAIL.") s
  reply_bulk (some v) s = answer (write_bulk O v) s

  abbrev pub settle_lpop : Answer × B.World → Session O B → Session O B
  settle_lpop ((reply, e), w) s =
      reply_bulk (nil_or (Replies.bytes reply e)) (record s { world = w })

  unfoldable pub handle_lpop : ℕ → RespList → Session O B → Session O B
  handle_lpop now l s =
      let key = value_at 1 l in
      if not (count l == 2)
      then refuse (codes "the number of LPOP command args is wrong. ") s
      else settle_lpop (B.do_command (codes "LPOP") (Command.bytes key ∷ []) s.world)
          (count_lpop now key s)

  abbrev pub reply_objects : Option (Option ReplyList) → Session O B → Session O B
  reply_objects none s = refuse (codes "BLPOP COMMAMDN EXEC FAIL.") s
  reply_objects (some none) s = answer (write_objects O none) s
  reply_objects (some (some l)) s = answer (write_objects O (some (as_objs l))) s

  abbrev pub settle_blpop : Answer × B.World → Session O B → Session O B
  settle_blpop ((reply, e), w) s = reply_objects (nil_or (values reply e)) (record s { world = w })

  unfoldable pub handle_blpop : ℕ → RespList → Session O B → Session O B
  handle_blpop now l s =
      let key = value_at 1 l in
      if not (count l == 3)
      then refuse (codes "the number of BLPOP command args is wrong. ") s
      else settle_blpop
          (B.do_command (codes "BLPOP") (Command.bytes key ∷ Command.bytes (value_at 2 l) ∷ [])
            s.world)
          (count_lpop now key s)

  abbrev pub reply_length : Result (ReplyError ClusterError) ℤ → Session O B → Session O B
  reply_length (ok n) s = answer (write_int O n) s
  reply_length (err e) s = refuse (codes "LLEN COMMAMDN EXEC FAIL.") s

  abbrev pub settle_llen : Answer × B.World → Session O B → Session O B
  settle_llen ((reply, e), w) s = reply_length (int64 reply e) (record s { world = w })

  unfoldable pub handle_llen : RespList → Session O B → Session O B
  handle_llen l s =
      if ltb (count l) 2
      then refuse (codes "the number of LLEN command args is wrong.") s
      else settle_llen (B.do_command (codes "LLEN") (Command.bytes (value_at 1 l) ∷ []) s.world) s

  abbrev pub reply_node : Result ClusterError Bytes → Session O B → Session O B
  reply_node (ok addr) s = answer (write_simple_string O addr) s
  reply_node (err e) s = record s { closed = true }

  unfoldable pub handle_cluster_key_node : RespList → Session O B → Session O B
  handle_cluster_key_node l s =
      if ltb 1 (count l)
      then reply_node (B.get_node_addr_by_key (value_at 1 l) s.world) s
      else answer (write_simple_string O (codes "KEY is NULL")) s
