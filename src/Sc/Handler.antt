-- ===== src/Sc/Handler.antt =====
-- resper.go: the command PING, the switch on the command, and the loop of RequestHandleRESP. The JSON
-- of a map of strings is a parameter, `none` for an error of Marshal.
use ipfs_nosql_frame.Prelude.{
  ℕ, ltb, ◌==◌, ℤ, not, Option, none, some, List, [], ◌∷◌, ◌++◌, Bytes, codes, if◌then◌else◌,
  Result, ok, err,
}
use ipfs_nosql_frame.Credis.Source.{Source}
use ipfs_nosql_frame.Credis.Resp.{
  Resp, RespArray, RespList, make, null, items, nil, cons, count, resp_type, type_array,
  type_bulk_bytes,
}
use ipfs_nosql_frame.Credis.Decoder.{Decoder, DecodeError, decode}
use ipfs_nosql_frame.Bufio2.Conn.{Outbound}
use ipfs_nosql_frame.Rediscluster.Replies.{equal}
use ipfs_nosql_frame.Rediscluster.Lists.{StringMap, put}
use ipfs_nosql_frame.Rediscluster.Cluster.Batches.{to_upper}
use ipfs_nosql_frame.RespEcho.Writer.{write_simple_string}
use ipfs_nosql_frame.Sc.Table.{Table}
use ipfs_nosql_frame.Sc.Backend.{Backend}
use ipfs_nosql_frame.Sc.Filter.{Rule, get_ping_data}
use ipfs_nosql_frame.Sc.Alerts.{MspEvent}
use ipfs_nosql_frame.Sc.Session.{Session, Moment, value_at, value_of, refuse, answer}
use ipfs_nosql_frame.Sc.Rpush.{handle_rpush}
use ipfs_nosql_frame.Sc.Commands.{handle_lpop, handle_blpop, handle_llen, handle_cluster_key_node}

-- jsonData[item.LogKey] = item.ClusterNodeAddr
unfoldable pub node_addrs : {L : Type 0} → Table (Rule L) → StringMap → StringMap
node_addrs [] out = out
node_addrs ((k, rule) ∷ rules) out = node_addrs rules (put rule.log_key rule.cluster_node_addr out)

abbrev or_text : Bytes → Option Bytes → Bytes
or_text text none = text
or_text text (some json) = json

module _ {Float L H : Type 0} (O : Outbound) (B : Backend Float)
    (take : L → Bytes → B.World → (ℤ × ℤ) × B.World) (marshal_event : MspEvent → Option Bytes)
    (marshal_map : StringMap → Option Bytes) (sc_log_num : ℕ) where
  -- The reply to PING with an argument.
  unfoldable pub ping_reply : Moment L H → Bytes → B.World → Bytes
  unfolding node_addrs
  ping_reply m text w =
      if equal (to_upper text) (codes "KEYSDATA")
      then or_text text (marshal_map (node_addrs (get_ping_data B sc_log_num w m.pinged) []))
      else text

  unfoldable pub handle_ping : Moment L H → RespList → Session O B → Session O B
  unfolding ping_reply
  handle_ping m l s =
      answer
        (write_simple_string O
          (if ltb 1 (count l) then ping_reply m (value_at 1 l) s.world else codes "PONG"))
        s

  -- The switch on the command.
  unfoldable pub dispatch : Moment L H → Bytes → RespList → Session O B → Session O B
  dispatch m cmd l s =
      if equal cmd (codes "RPUSH")
      then handle_rpush O B take marshal_event sc_log_num m l s
      else if equal cmd (codes "LPOP")
      then handle_lpop O B m.now l s
      else if equal cmd (codes "BLPOP")
      then handle_blpop O B m.now l s
      else if equal cmd (codes "LLEN")
      then handle_llen O B l s
      else if equal cmd (codes "PING")
      then handle_ping m l s
      else if equal cmd (codes "CLUSTERKEYNODE")
      then handle_cluster_key_node O B l s
      else refuse (codes "COMMAND(" ++ cmd ++ codes ") NOT SUPPORT.") s

  -- The elements of the request, nil like an empty array.
  abbrev pub handle_items : Moment L H → RespArray → Session O B → Session O B
  handle_items m null s = refuse (codes "COMMAND RESP COUNT TOO LESS.") s
  handle_items m (items nil) s = refuse (codes "COMMAND RESP COUNT TOO LESS.") s
  handle_items m (items (cons r l)) s =
      if not (resp_type r == type_bulk_bytes)
      then refuse (codes "COMMAND CMD TYPE WRONG.") s
      else dispatch m (to_upper (value_of r)) (cons r l) s

  unfoldable pub handle : Moment L H → Resp → Session O B → Session O B
  handle m (make t v a) s =
      if not (t == type_array)
      then refuse (codes "RESP COMMAND RESP TYPE NOT SUPPORT.") s
      else handle_items m a s

  abbrev pub on_decoded : Moment L H → Result DecodeError Resp → Session O B → Session O B
  on_decoded m (err e) s = refuse (codes "use of failed decoder") s
  on_decoded m (ok resp) s = handle m resp s

  -- The loop, for as many requests as there are moments.
  unfoldable pub serve :
      {S : Source} → ℕ → List (Moment L H) → Decoder S → Session O B → Decoder S × Session O B
  serve fuel [] d s = (d, s)
  serve fuel (m ∷ moments) d s =
      let (x, d') = decode fuel d in
      let s' = on_decoded m x s in
      let rest = serve fuel moments d' s' in if s'.closed then (d', s') else rest
