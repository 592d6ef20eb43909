-- ===== src/Examples/NodeExamples.antt =====
-- A node of the cluster: the command SET k 10, a reply of an array, and a pool with one connection.
use mathlib.Core.List.{Perm}
use ipfs_nosql_frame.Prelude.{
  ℕ, ◌<◌, ◌≤◌, pos, negsuc, ◌≡◌, ◌⊎◌, refl, arith, true, false, none, List, [], ◌∷◌, ◌++◌, Bytes,
  codes, All, length, pos_part, ok, err,
}
use ipfs_nosql_frame.Credis.Strconv.{format_nat, format_int}
use ipfs_nosql_frame.Credis.Resp.{items}
use ipfs_nosql_frame.Credis.Encoding.{encoding}
use ipfs_nosql_frame.Credis.Decoder
use ipfs_nosql_frame.Credis.Requests.{request_text}
use ipfs_nosql_frame.Rediscluster.Replies.{Reply, integer, bulk, null, array, nil, cons}
use ipfs_nosql_frame.Rediscluster.Node.Command
use ipfs_nosql_frame.Rediscluster.Node.Command.{Arg, int, string}
use ipfs_nosql_frame.Rediscluster.Node.Written
use ipfs_nosql_frame.Rediscluster.Node.Written.{bulks}
use ipfs_nosql_frame.Rediscluster.Node.Wire
use ipfs_nosql_frame.Rediscluster.Node.ReadBack
use ipfs_nosql_frame.Rediscluster.Node.ReadBack.{as_resp, IsSendable, depth}
use ipfs_nosql_frame.Rediscluster.Node.Pool
use ipfs_nosql_frame.Rediscluster.Node.Pool.{
  Conn, Node, State, Dialled, is_alive, get_conn, release_conn,
}
use ipfs_nosql_frame.Rediscluster.Node.Histories
use ipfs_nosql_frame.Rediscluster.Node.Histories.{History, starts, releases}
use ipfs_nosql_frame.Rediscluster.Node.Exchange
use ipfs_nosql_frame.Rediscluster.Node.Accounts
use ipfs_nosql_frame.Rediscluster.Node.Accounts.{sockets}
use ipfs_nosql_frame.Examples.Wires.{bytes_source, bytes_sink}

abbrev set_args : List (Arg ℕ)
set_args = string (codes "k") ∷ int (pos 10) ∷ []

abbrev set_texts : List Bytes
set_texts = codes "k" ∷ codes "10" ∷ []

ten : format_int (pos 10) ≡ codes "10"
unfolding format_int format_nat
ten = refl

set_spelled : Written.Spells format_nat set_args set_texts
unfolding Command.key
set_spelled = (refl, (rw ten refl, tt))

abbrev set_text : Bytes
set_text = request_text (bulks (codes "SET" ∷ set_texts))

set_size : length (set_text ++ codes "+") < 1000
unfolding encoding format_int format_nat
set_size = omega arith

abbrev writer : bytes_sink.Writer
writer = record { err = none; buf = []; wr = [] }

abbrev reader : Bytes → bytes_source.Reader
reader s = record { err = none; window = []; rd = s }

abbrev decoder : Decoder.Decoder bytes_source
decoder = record { br = reader (set_text ++ codes "+"); err = none }

decode_multi_bulk-write_command_example :
    (w' : bytes_sink.Writer) × (d' : Decoder.Decoder bytes_source) × (Command.write_command
        format_nat bytes_sink
        (codes "SET")
        set_args
        writer
      ≡ (none, w'))
    × bytes_sink.Wrote set_text w'
    × (Decoder.decode_multi_bulk 1 decoder ≡ (ok (items (bulks (codes "SET" ∷ set_texts))), d'))
    × (d'.err ≡ none)
    × bytes_source.Holds (codes "+") d'.br
decode_multi_bulk-write_command_example =
    Written.decode_multi_bulk-write_command format_nat bytes_sink bytes_source (omega arith)
      (codes "SET") set_args set_texts (codes "+") writer 0 decoder set_spelled (ground arith)
      (omega arith) ([], refl, omega arith, refl, refl) refl
      (set_text ++ codes "+", refl, omega arith, refl, refl, set_size)

abbrev reply : Reply
reply = array (cons (integer (negsuc 6)) (cons (bulk (codes "a\r\n")) (cons null nil)))

reply-IsSendable : IsSendable reply
unfolding IsSendable
reply-IsSendable = ground arith

reply-depth : depth reply ≡ 4
unfolding depth
reply-depth = refl

abbrev reply_text : Bytes
reply_text = encoding (as_resp reply) ++ codes "+"

reply_size : length reply_text < 1000
unfolding encoding as_resp format_int format_nat
reply_size = omega arith

read_reply-encoding_example :
    (r' : bytes_source.Reader) × (Wire.read_reply bytes_source 1 4 (reader reply_text)
      ≡ (ok reply, r'))
    × bytes_source.Holds (codes "+") r'
read_reply-encoding_example =
    ReadBack.read_reply-encoding bytes_source 0 4 reply (codes "+") (reader reply_text)
      (omega (arith, reply-depth)) reply-IsSendable
      (reply_text, refl, omega arith, refl, refl, reply_size)

abbrev node : Node bytes_source bytes_sink
node = record {
  address = codes "a:1";
  conns = [];
  keep_alive = pos 2;
  alive_time = pos 60;
  conn_timeout = pos 5;
  read_timeout = pos 0;
  write_timeout = pos 0;
  update_time = 0;
  closed = false;
  node_type = 1;
}

abbrev conn : Conn bytes_source bytes_sink
conn = record {
  c = 7;
  t = 0;
  br = reader (codes "+OK\r\n");
  bw = writer;
  read_timeout = pos 0;
  write_timeout = pos 0;
  read_deadline = none;
  write_deadline = none;
  pending = 0;
}

abbrev idle : State bytes_source bytes_sink
idle = record { node = node; shut = [] }

abbrev pooled : State bytes_source bytes_sink
pooled = record { node = record node { conns = record conn { t = 10 } ∷ [] }; shut = [] }

pooled_is : release_conn 10 conn idle ≡ pooled
unfolding release_conn
pooled_is = refl

pooled-History : History 10 pooled
pooled-History = rw (← pooled_is) (releases 0 10 idle conn (starts node refl) (omega arith))

History-bounded_example :
    (length pooled.node.conns ≤ pos_part pooled.node.keep_alive)
    × ((pooled.node.closed ≡ false) ⊎ (pooled.node.conns ≡ []))
History-bounded_example = Histories.History-bounded 10 pooled pooled-History

abbrev refused : Dialled bytes_source bytes_sink
refused = err 0

taken : get_conn refused 20 pooled ≡ (ok (record conn { t = 10 }), idle)
unfolding get_conn Pool.take_conn Pool.drop_stale
taken = refl

get_conn_alive_example :
    All (λ d. is_alive pooled.node.alive_time 20 d ≡ true) idle.node.conns
    × ((is_alive pooled.node.alive_time 20 (record conn { t = 10 }) ≡ true)
        ⊎ ((idle.node.conns ≡ [])
            × (br : bytes_source.Reader) × (bw : bytes_sink.Writer) × (refused ≡ ok (7, br, bw))))
get_conn_alive_example =
    Histories.get_conn_alive 10 20 pooled idle refused (record conn { t = 10 }) pooled-History
      (omega arith) refl taken

-- A connection that has been idle for too long leaves the pool and is not closed.
stale_lost : (get_conn refused 70 pooled).1 ≡ idle
unfolding get_conn Pool.take_conn Pool.drop_stale
stale_lost = refl

commands-sockets_example :
    Perm
      (sockets
        (Exchange.do_command format_nat 1 1 refused (λ i. 20) (codes "SET") set_args pooled).1)
      (7 ∷ [])
    × Perm
        (sockets
          (Exchange.do_rpush_expire format_nat 1 1 refused
            (λ i. 20)
            (codes "SET")
            (string (codes "l") ∷ int (pos 1) ∷ [])
            pooled).1)
        (7 ∷ [])
commands-sockets_example =
    Accounts.commands-sockets format_nat 1 1 refused (λ i. 20) (codes "SET") (string (codes "l"))
      (int (pos 1)) set_args [] pooled idle (record conn { t = 10 }) taken
