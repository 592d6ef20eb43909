-- ===== src/Sc/Splitting.antt =====
-- resper.go: the reply to PING repeats its argument as a simple string.
use ipfs_nosql_frame.Prelude.{
  ℕ, ℤ, ◌≡◌, refl, subst, ◌∙◌, true, false, Option, none, some, ◌∷◌, ◌++◌, append_assoc, append-nil,
  Bytes, codes,
}
use ipfs_nosql_frame.Credis.Encoder.{crlf}
use ipfs_nosql_frame.Credis.Resp.{
  Resp, RespList, make, null, items, nil, cons, is_text, type_string, type_array, type_bulk_bytes,
}
use ipfs_nosql_frame.Credis.Encoding.{encoding, items_text}
use ipfs_nosql_frame.Bufio2.Conn.{Outbound}
use ipfs_nosql_frame.Rediscluster.Replies.{equal}
use ipfs_nosql_frame.Rediscluster.Lists.{StringMap}
use ipfs_nosql_frame.Rediscluster.Cluster.Batches.{to_upper}
use ipfs_nosql_frame.RespEcho.Writer
use ipfs_nosql_frame.RespEcho.Written.{simple_string-Adds}
use ipfs_nosql_frame.Sc.Backend.{Backend}
use ipfs_nosql_frame.Sc.Alerts.{MspEvent}
use ipfs_nosql_frame.Sc.Session.{Session, Moment, answer}
use ipfs_nosql_frame.Sc.Handler

abbrev pub ping_request : Bytes → Resp
ping_request text = make type_array none (
    items (
      cons (make type_bulk_bytes (some (codes "PING")) null)
        (cons (make type_bulk_bytes (some text) null) nil)))

-- A text that ends one simple string and starts another reply.
abbrev pub two_lines : Bytes → ℕ → Bytes → Bytes
two_lines p t v = p ++ crlf ++ t ∷ v

abbrev pub two_replies : Bytes → ℕ → Bytes → Bytes
two_replies p t v =
    items_text (cons (make type_string (some p) null) (cons (make t (some v) null) nil))

encoding-two_lines :
    (p v : Bytes) (t : ℕ)
    → is_text t ≡ true
    → encoding (make type_string (some (two_lines p t v)) null) ≡ two_replies p t v
unfolding encoding items_text
encoding-two_lines p v t e = rw e (simp (append_assoc, append-nil))

module _ {Float L H : Type 0} (O : Outbound) (B : Backend Float)
    (take : L → Bytes → B.World → (ℤ × ℤ) × B.World) (marshal_event : MspEvent → Option Bytes)
    (marshal_map : StringMap → Option Bytes) (sc_log_num : ℕ) where
  dispatch_ping :
      (m : Moment L H) (l : RespList) (s : Session O B)
      → Handler.dispatch O B take marshal_event marshal_map sc_log_num m
          (to_upper (codes "PING"))
          l
          s
        ≡ Handler.handle_ping O B take marshal_event marshal_map sc_log_num m l s
  unfolding Handler.dispatch equal
  dispatch_ping m l s = refl

  ping_argument :
      (m : Moment L H) (text : Bytes) (s : Session O B)
      → equal (to_upper text) (codes "KEYSDATA") ≡ false
      → Handler.handle_ping O B take marshal_event marshal_map sc_log_num m
          (cons
            (make type_bulk_bytes (some (codes "PING")) null)
            (cons (make type_bulk_bytes (some text) null) nil))
          s
        ≡ answer (Writer.write_simple_string O text) s
  unfolding Handler.handle_ping Handler.ping_reply
  ping_argument m text s plain = rw plain refl

  handle_ping_lem :
      (m : Moment L H) (text : Bytes) (s : Session O B)
      → equal (to_upper text) (codes "KEYSDATA") ≡ false
      → Handler.handle O B take marshal_event marshal_map sc_log_num m (ping_request text) s
        ≡ answer (Writer.write_simple_string O text) s
  unfolding Handler.handle
  handle_ping_lem m text s plain = dispatch_ping m _ s ∙ ping_argument m text s plain

  -- The reply to a PING is not kept to one line: on a connection that works, the argument of one PING can
  -- make the proxy send two replies, a simple string and any other simple string, error or integer.
  pub handle-two_replies :
      (m : Moment L H) (p v sent : Bytes) (t : ℕ) (s : Session O B)
      → is_text t ≡ true
      → equal (to_upper (two_lines p t v)) (codes "KEYSDATA") ≡ false
      → O.Got sent s.out
      → O.Got
          (sent ++ two_replies p t v)
          (Handler.handle O B take marshal_event marshal_map sc_log_num m
            (ping_request (two_lines p t v))
            s).out
  unfolding answer Writer.flush
  handle-two_replies m p v sent t s text plain h =
      let (c, runs, got) = simple_string-Adds O (two_lines p t v) sent s.out h in
      let got' = subst (λ x. O.Got (sent ++ x) c) (encoding-two_lines p v t text) got in
      rw (handle_ping_lem m (two_lines p t v) s plain, runs) got'
