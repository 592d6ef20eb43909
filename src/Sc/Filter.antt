-- ===== src/Sc/Filter.antt =====
-- filter.go and filter_rules.go: the rules for log keys, one round of StartRuleMonitor, and what the handler
-- asks of the rules. The body of the HTTP response, the decoding of its JSON, MD5 and the limiters are
-- parameters. The number of sc_log shards is not negative.
use ipfs_nosql_frame.Prelude.{
  ℕ, zero, suc, ℤ, pos, negsuc, Bool, true, false, not, ◌&&◌, ◌||◌, Option, none, some, [], ◌∷◌,
  ◌++◌, Bytes, is_some, leb, ◌==◌, if◌then◌else◌, ok, err,
}
use ipfs_nosql_frame.Credis.Strconv.{format_nat}
use ipfs_nosql_frame.Rediscluster.Replies.{equal}
use ipfs_nosql_frame.Sc.Table.{Table, lookup, insert}
use ipfs_nosql_frame.Sc.Backend.{Backend}
use ipfs_nosql_frame.Sc.Reporter.{sc_log}

-- logRuleUnitS, without its SilenceTime, which nothing reads.
pub record Rule (L : Type 0) : Type 0 where
  pub log_key : Bytes
  pub rate_limit : ℤ
  pub sampling_rate : ℕ
  pub expire : ℤ
  pub length : ℤ
  pub warning_length : ℤ
  pub cluster_node_addr : Bytes
  pub rate_limiter : Option L

-- Filter with its filterRuleDataS, without the addresses and times that only I/O reads.
pub record Filter (L H : Type 0) : Type 0 where
  pub enable : Bool
  pub rules : Table (Rule L)
  pub data_hash : H

-- What GetFilterRule returns.
pub record Terms (L : Type 0) : Type 0 where
  pub limiter : Option L
  pub sampling_rate : ℕ
  pub expire : ℤ
  pub length_drop : Bool

-- a ≤ b
unfoldable pub le_ℤ : ℤ → ℤ → Bool
le_ℤ (pos a) (pos b) = leb a b
le_ℤ (pos a) (negsuc b) = false
le_ℤ (negsuc a) (pos b) = true
le_ℤ (negsuc a) (negsuc b) = leb b a

-- unicode.IsSpace of a byte of an ASCII text
abbrev is_space : ℕ → Bool
is_space c = leb 9 c && leb c 13 || c == b' '

-- len(strings.TrimSpace(id)) > 0, for a text of ASCII
unfoldable pub has_text : Bytes → Bool
has_text [] = false
has_text (c ∷ s) = not (is_space c) || has_text s

module _ {L : Type 0} where
  abbrev pub no_terms : Terms L
  no_terms = record { limiter = none; sampling_rate = 0; expire = pos 0; length_drop = false }

  -- The loop of GetData.
  unfoldable pub copy_rules : Table (Rule L) → Table (Rule L) → Table (Rule L)
  copy_rules [] out = out
  copy_rules ((k, rule) ∷ rules) out = copy_rules rules (insert k rule out)

  abbrev pub empty_rule : Bytes → Rule L
  empty_rule key = record {
    log_key = key;
    rate_limit = pos 0;
    sampling_rate = 0;
    expire = pos 0;
    length = pos 0;
    warning_length = pos 0;
    cluster_node_addr = [];
    rate_limiter = none;
  }

  -- The rule that the monitor adds for the log key of the proxy itself.
  abbrev pub own_rule : Bytes → Rule L
  own_rule key = record (empty_rule key) { rate_limit = negsuc 0 }

module _ {L H : Type 0} where
  unfoldable pub is_exist_in_filter_list : Bytes → Filter L H → Bool
  is_exist_in_filter_list key f = if not f.enable then true else is_some (lookup key f.rules)

  unfoldable pub get_filter_rule : Bytes → Filter L H → Terms L
  unfolding le_ℤ
  get_filter_rule key f = if not f.enable then no_terms else (elim (lookup key f.rules) [
    | none ↦ no_terms
    | some rule ↦ record {
      limiter = rule.rate_limiter;
      sampling_rate = rule.sampling_rate;
      expire = rule.expire;
      length_drop = le_ℤ rule.warning_length rule.length;
    }
  ])

  unfoldable pub get_data : Filter L H → Table (Rule L)
  unfolding copy_rules
  get_data f = copy_rules f.rules []

  unfoldable pub get_data_hash : Filter L H → H
  get_data_hash f = f.data_hash

  unfoldable pub get_msp_rate_limit : Bytes → Filter L H → ℤ
  unfolding has_text get_data
  get_msp_rate_limit id f =
      if has_text id
      then (elim (lookup id (get_data f)) [ none ↦ negsuc 0 | some rule ↦ rule.rate_limit ])
      else negsuc 0

-- fmt.Sprintf("%s_%d", key, i)
abbrev pub shard_key : Bytes → ℕ → Bytes
shard_key key i = key ++ b'_' ∷ format_nat i

module _ {Float L : Type 0} (B : Backend Float) where
  -- The loop of GetPingData over the first shards.
  unfoldable pub ping_shards : ℕ → B.World → Table (Rule L) → Table (Rule L)
  ping_shards zero w out = out
  ping_shards (suc i) w out =
      let out' = ping_shards i w out in
      let key = shard_key sc_log (suc i) in
      elim (B.get_node_addr_by_key key w) [
        | err e ↦ out'
        | ok addr ↦ insert key (record (empty_rule key) { cluster_node_addr = addr }) out'
      ]

  unfoldable pub ping_rules : ℕ → B.World → Table (Rule L) → Table (Rule L) → Table (Rule L)
  ping_rules n w [] out = out
  ping_rules n w ((k, rule) ∷ rules) out =
      ping_rules n w rules
        (insert k rule (if equal rule.log_key sc_log then ping_shards n w out else out))

  unfoldable pub get_ping_data : {H : Type 0} → ℕ → B.World → Filter L H → Table (Rule L)
  unfolding ping_rules
  get_ping_data n w f = ping_rules n w f.rules []
