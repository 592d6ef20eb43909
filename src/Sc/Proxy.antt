-- ===== src/Sc/Proxy.antt =====
-- traffic_out_core.go: handleRequestRoute and what it calls, on the memory cache and the Redis cluster.
use ipfs_nosql_frame.Prelude.{
  ℕ, ltb, ℤ, String, Bool, ◌||◌, Option, none, some, List, [], ◌∷◌, Bytes, codes, length,
  if◌then◌else◌, Result, ok, err,
}
use ipfs_nosql_frame.Credis.Strconv.{format_int}
use ipfs_nosql_frame.MemoryCacher.Cache
use ipfs_nosql_frame.MemoryCacher.Cache.{Cache}
use ipfs_nosql_frame.Rediscluster.Replies
use ipfs_nosql_frame.Rediscluster.Replies.{ReplyError}
use ipfs_nosql_frame.Rediscluster.Node.Command.{string}
use ipfs_nosql_frame.Rediscluster.Cluster.State.{ClusterError, Answer}
use ipfs_nosql_frame.Sc.Backend.{Backend}
use ipfs_nosql_frame.Sc.Routing
use ipfs_nosql_frame.Sc.Routing.{
  Channel, TargetBody, CallStack, TokenBody, Request, Route, Routing, panicked, failed, routed, Act,
  ◌>>=◌, finish, invalid, is_empty, make_redis_key, get_chain_field_key, check_chains, last_node,
  is_positive_atoi, route_of, to_route, zero_target, target_key,
}

-- The memory cache, and the Redis cluster with all that lies behind it.
pub record Proxy {Float : Type 0} (B : Backend Float) : Type 0 where
  pub cache : Cache TargetBody
  pub world : B.World

-- What lies outside: jwt.Parse, json.Marshal and json.Unmarshal of the claims, json.Unmarshal of a target,
-- the conversion of a float64 to an int, and the conversion of bytes to a string.
pub record Codecs (Float Claims : Type 0) : Type 0 where
  pub parse_jwt : Bytes → Option (Option Claims)
  pub marshal_claims : Claims → Result Bytes Bytes
  pub unmarshal_token : Bytes → Result Bytes (TokenBody Float)
  pub unmarshal_target : Bytes → Option TargetBody
  pub float_to_int : Float → ℤ
  pub go_string : Bytes → String

module _ {Float Claims : Type 0} (B : Backend Float) (codecs : Codecs Float Claims) where
  unfoldable pub get_interface_string : Channel Float → Bytes
  get_interface_string (Routing.text s) = s
  get_interface_string (Routing.int n) = format_int n
  get_interface_string (Routing.float64 x) = format_int (codecs.float_to_int x)
  get_interface_string Routing.other = []

  abbrev unmarshalled : Result Bytes (TokenBody Float) → Routing (TokenBody Float)
  unmarshalled (ok token) = routed token
  unmarshalled (err e) = failed e

  abbrev marshalled : Result Bytes Bytes → Routing (TokenBody Float)
  marshalled (ok b) = unmarshalled (codecs.unmarshal_token b)
  marshalled (err e) = failed e

  abbrev parsed : Option (Option Claims) → Routing (TokenBody Float)
  parsed none = panicked
  parsed (some none) = failed (codes "token format claim error")
  parsed (some (some claims)) = marshalled (codecs.marshal_claims claims)

  -- The token after its first 7 bytes; a shorter text is out of range.
  unfoldable pub get_app_info_by_jwt_token : Bytes → Routing (TokenBody Float)
  get_app_info_by_jwt_token [] = failed (codes "token is empty")
  get_app_info_by_jwt_token (c0 ∷ []) = panicked
  get_app_info_by_jwt_token (c0 ∷ c1 ∷ []) = panicked
  get_app_info_by_jwt_token (c0 ∷ c1 ∷ c2 ∷ []) = panicked
  get_app_info_by_jwt_token (c0 ∷ c1 ∷ c2 ∷ c3 ∷ []) = panicked
  get_app_info_by_jwt_token (c0 ∷ c1 ∷ c2 ∷ c3 ∷ c4 ∷ []) = panicked
  get_app_info_by_jwt_token (c0 ∷ c1 ∷ c2 ∷ c3 ∷ c4 ∷ c5 ∷ []) = panicked
  get_app_info_by_jwt_token (c0 ∷ c1 ∷ c2 ∷ c3 ∷ c4 ∷ c5 ∷ c6 ∷ token) =
      parsed (codecs.parse_jwt token)

  abbrev pub checked_target : Option TargetBody → Routing TargetBody
  checked_target none = invalid
  checked_target (some t) = if is_empty t.app_key || is_empty t.channel then invalid else routed t

  -- The test on ErrNil and the decoding. With another error the bytes are nil.
  abbrev pub read_relation : Result (ReplyError ClusterError) Bytes → Routing TargetBody
  read_relation (ok b) = checked_target (codecs.unmarshal_target b)
  read_relation (err e) = elim e [
    | Replies.err_nil ↦ invalid
    | Replies.given _ ↦ checked_target (codecs.unmarshal_target [])
    | Replies.redis _ ↦ checked_target (codecs.unmarshal_target [])
    | Replies.syntax ↦ checked_target (codecs.unmarshal_target [])
    | Replies.unexpected_type ↦ checked_target (codecs.unmarshal_target [])
    | Replies.odd_length ↦ checked_target (codecs.unmarshal_target [])
    | Replies.not_bulk ↦ checked_target (codecs.unmarshal_target [])
    | Replies.mismatch ↦ checked_target (codecs.unmarshal_target [])
    | Replies.cannot_convert ↦ checked_target (codecs.unmarshal_target [])
  ]

  abbrev pub settle_relation : Answer × B.World → Routing TargetBody × B.World
  settle_relation ((reply, e), w) = (read_relation (Replies.bytes reply e), w)

  unfoldable pub get_channel_relation : Bytes → Bytes → Act B.World TargetBody
  get_channel_relation key field w =
      settle_relation (B.do_command (codes "HGET") (string key ∷ string field ∷ []) w)

  abbrev pub link_key : CallStack Float → Bytes
  link_key v = make_redis_key (v.app_id ∷ v.app_key ∷ get_interface_string v.channel ∷ [])

  abbrev pub link_field : CallStack Float → Bytes
  link_field v = get_chain_field_key v.app_id v.app_key (get_interface_string v.channel) v.alias

  -- The loop over the call stack after its first element.
  unfoldable pub chain_loop : Bytes → TargetBody → List (CallStack Float) → Act B.World TargetBody
  chain_loop key target [] = finish (routed target)
  chain_loop key target (v ∷ vs) = do
    target' ← get_channel_relation key (link_field v)
    chain_loop (target_key target') target' vs

  unfoldable pub by_chain : List (CallStack Float) → Act B.World TargetBody
  unfolding chain_loop
  by_chain [] = finish (routed zero_target)
  by_chain (v ∷ vs) = chain_loop (link_key v) zero_target vs

  abbrev pub top_key : TokenBody Float → Bytes
  top_key token =
      make_redis_key
        (token.from_appid ∷ token.from_appkey ∷ get_interface_string token.from_channel ∷ [])

  abbrev pub by_last : TokenBody Float → Option (CallStack Float) → Act B.World TargetBody
  by_last token none = finish panicked
  by_last token (some v) = get_channel_relation (top_key token) (link_field v)

  -- From the token to the target.
  unfoldable pub find_target : Bytes → TokenBody Float → Act B.World TargetBody
  unfolding by_chain get_channel_relation
  find_target is_chain token =
      if is_positive_atoi is_chain
      then (if check_chains token.call_stack
          then by_chain token.call_stack
          else finish (failed (codes "The chain is invalid")))
      else by_last token (last_node token.call_stack)

  abbrev pub accepted : TargetBody → Act B.World TargetBody
  accepted t = if is_empty t.host || is_empty t.app_key then finish invalid else finish (routed t)

  -- SetDefault, whose full cache without a janitor panics.
  abbrev pub store :
      Request
      → TargetBody
      → B.World
      → Cache.Outcome (Cache.Reply TargetBody)
      → Cache TargetBody
      → Routing Route × Proxy B
  store req t w Cache.panic c = (panicked, record { cache = c; world = w })
  store req t w (Cache.done r) c = (routed (to_route req t), record { cache = r.cache; world = w })

  abbrev pub settle_target :
      Request → ℕ → Bool → Cache TargetBody → Routing TargetBody × B.World → Routing Route × Proxy B
  settle_target req now ready c (panicked, w) = (panicked, record { cache = c; world = w })
  settle_target req now ready c (failed e, w) = (failed e, record { cache = c; world = w })
  settle_target req now ready c (routed t, w) =
      store req t w (Cache.set_default (codecs.go_string (route_of req)) t now ready c) c

  abbrev pub with_token : Request → Act B.World TargetBody
  with_token req = do
    token ← finish (get_app_info_by_jwt_token req.authorization)
    t ← find_target req.is_chain token
    accepted t

  abbrev pub unless_cached : Request → ℕ → Bool → Option TargetBody → Act (Proxy B) Route
  unless_cached req now ready (some t) p = (routed (to_route req t), p)
  unless_cached req now ready none p = settle_target req now ready p.cache (with_token req p.world)

  -- `now` and `ready` are the clock and the janitor of the cache.
  unfoldable pub handle_request_route : Request → ℕ → Bool → Act (Proxy B) Route
  unfolding get_app_info_by_jwt_token find_target
  handle_request_route req now ready p =
      if ltb (length req.request_uri) 33
      then (failed (codes "Request format error"), p)
      else if is_empty req.authorization
      then (failed (codes "Request token invalid"), p)
      else unless_cached req now ready (Cache.get (codecs.go_string (route_of req)) now p.cache) p
