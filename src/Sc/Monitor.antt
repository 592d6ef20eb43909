-- ===== src/Sc/Monitor.antt =====
-- filter.go: StartRuleMonitor. A round of its loop takes the body of the HTTP response, `none` for an error,
-- and the rules of the last response, and is followed by another. Logging is left out.
use ipfs_nosql_frame.Prelude.{
  ℕ, zero, suc, ◌+◌, ◌-◌, ◌%◌, ◌^◌, ltb, ℤ, pos, negsuc, Bool, true, false, not, Option, none, some,
  List, [], ◌∷◌, ◌++◌, Bytes, codes, if◌then◌else◌, Result, ok, err,
}
use ipfs_nosql_frame.Credis.Encoder.{or_empty}
use ipfs_nosql_frame.Rediscluster.Replies.{equal, int64}
use ipfs_nosql_frame.Rediscluster.Node.Command.{string}
use ipfs_nosql_frame.Rediscluster.Cluster.State.{ClusterError, Answer}
use ipfs_nosql_frame.Sc.Table.{Table, insert}
use ipfs_nosql_frame.Sc.Backend.{Backend}
use ipfs_nosql_frame.Sc.Reporter.{sc_log}
use ipfs_nosql_frame.Sc.Filter.{Rule, Filter, own_rule, shard_key}

-- The 64 bits of an int64, and back.
abbrev to_bits : ℤ → ℕ
to_bits (pos n) = n
to_bits (negsuc n) = 2 ^ 64 - 1 - n

abbrev from_bits : ℕ → ℤ
from_bits b = if ltb b (2 ^ 63) then pos b else negsuc (2 ^ 64 - 1 - b)

-- a + b as int64
unfoldable pub plus_int64 : ℤ → ℤ → ℤ
plus_int64 a b = from_bits ((to_bits a + to_bits b) % 2 ^ 64)

-- Int64 returns 0 with an error.
abbrev pub or_zero : {E : Type 0} → Result E ℤ → ℤ
or_zero (ok n) = n
or_zero (err e) = pos 0

abbrev pub is_negative : ℤ → Bool
is_negative (pos n) = false
is_negative (negsuc n) = true

module _ {Float L : Type 0} (B : Backend Float) (new_limiter : ℤ → B.World → Option L × B.World)
    (sc_log_num : ℕ) where
  abbrev key_length : Answer × B.World → ℤ × B.World
  key_length ((reply, e), w) = (or_zero (int64 reply e), w)

  -- LLEN of a key
  unfoldable pub llen : Bytes → B.World → ℤ × B.World
  llen key w = key_length (B.do_command (codes "LLEN") (string key ∷ []) w)

  abbrev add_next : ℤ → ℤ × B.World → ℤ × B.World
  add_next n (m, w) = (plus_int64 n m, w)

  -- The loop over the shards of sc_log: the first `i` of them are added to `n`.
  unfoldable pub add_shards : ℕ → Bytes → ℤ × B.World → ℤ × B.World
  add_shards zero key s = s
  add_shards (suc i) key s =
      let (n, w) = add_shards i key s in add_next n (llen (shard_key key (suc i)) w)

  unfoldable pub whole_length : Bytes → B.World → ℤ × B.World
  unfolding llen add_shards
  whole_length key w =
      if equal key sc_log then add_shards sc_log_num key (llen key w) else llen key w

  -- A rule without a limit gets no limiter; `none` is the error of ratelimiter.New.
  unfoldable pub make_limiter : ℤ → B.World → Option (Option L) × B.World
  make_limiter limit w =
      if is_negative limit
      then (some none, w)
      else (let (made, w') = new_limiter limit w in
          (elim made [ none ↦ none | some l ↦ some (some l) ], w'))

  abbrev pub with_length : Rule L → Bytes → Option L → ℤ × B.World → Option (Rule L) × B.World
  with_length rule addr limiter (n, w) =
      (some (record rule { length = n; rate_limiter = limiter; cluster_node_addr = addr }), w)

  abbrev pub with_limiter : Rule L → Bytes → Option (Option L) × B.World → Option (Rule L) × B.World
  with_limiter rule addr (none, w) = (none, w)
  with_limiter rule addr (some limiter, w) =
      with_length rule addr limiter (whole_length rule.log_key w)

  abbrev pub with_address : Rule L → Result ClusterError Bytes → B.World → Option (Rule L) × B.World
  with_address rule (err e) w = (none, w)
  with_address rule (ok addr) w = with_limiter rule addr (make_limiter rule.rate_limit w)

  -- One turn of the loop over the rules; `none` is `continue OUTER`.
  unfoldable pub build_rule : Rule L → B.World → Option (Rule L) × B.World
  build_rule rule w = with_address rule (B.get_node_addr_by_key rule.log_key w) w

  unfoldable pub build_rules :
      List (Rule L) → Table (Rule L) → B.World → Option (Table (Rule L)) × B.World
  build_rules [] out w = (some out, w)
  build_rules (rule ∷ rules) out w =
      let (built, w') = build_rule rule w in
      elim built [ none ↦ (none, w') | some r ↦ build_rules rules (insert rule.log_key r out) w' ]

module _ {L : Type 0} (unmarshal : Bytes → Option (List (Rule L))) (log_key : Bytes) where
  -- respData after an error: the own rule where there are no rules yet, `continue` otherwise.
  abbrev pub or_own : List (Rule L) → Option (List (Rule L))
  or_own [] = some (own_rule log_key ∷ [])
  or_own (rule ∷ rules) = none

  abbrev renewed : List (Rule L) → Option (List (Rule L)) → Option (List (Rule L))
  renewed old none = or_own old
  renewed old (some rules) = some (rules ++ own_rule log_key ∷ [])

  -- The rules that the round goes on with; `none` is `continue`.
  unfoldable pub gather : Option Bytes → List (Rule L) → Option (List (Rule L))
  gather none old = or_own old
  gather (some body) old = renewed old (unmarshal body)

module _ {Float L H : Type 0} (B : Backend Float) (md5 : Bytes → H) where
  -- The write under the lock.
  abbrev pub install_rules :
      Option Bytes → Filter L H → Option (Table (Rule L)) × B.World → Filter L H × B.World
  install_rules fetched f (none, w) = (f, w)
  install_rules fetched f (some rules, w) =
      (record f { rules = rules; data_hash = md5 (or_empty fetched) }, w)

module _ {Float L H : Type 0} (B : Backend Float) (unmarshal : Bytes → Option (List (Rule L)))
    (md5 : Bytes → H) (new_limiter : ℤ → B.World → Option L × B.World) (log_key : Bytes)
    (sc_log_num : ℕ) where
  -- The round from the rules that it goes on with.
  abbrev pub round_with :
      Option Bytes
      → List (Rule L)
      → Filter L H
      → B.World
      → Option (List (Rule L))
      → List (Rule L) × Filter L H × B.World
  round_with fetched old f w none = (old, f, w)
  round_with fetched old f w (some rules) =
      let built = build_rules B new_limiter sc_log_num rules [] w in
      let (f', w') = install_rules B md5 fetched f built in (rules, f', w')

  unfoldable pub monitor_round :
      Option Bytes → List (Rule L) → Filter L H → B.World → List (Rule L) × Filter L H × B.World
  monitor_round fetched old f w =
      if not f.enable
      then (old, f, w)
      else round_with fetched old f w (gather unmarshal log_key fetched old)
