-- ===== src/Sc/Limits.antt =====
-- resper.go and filter.go: what the limits on a log key do not limit.
use ipfs_nosql_frame.Prelude.{
  ℕ, suc, ◌<◌, ltb, leb, ◌==◌, ℤ, pos, is_positive, ◌≡◌, refl, ◌∙◌, Bool, true, false, not, ◌&&◌,
  Option, none, some, Bytes, codes, if_cases, arith,
}
use ipfs_nosql_frame.Credis.Resp.{Resp, RespList, nil, cons, count}
use ipfs_nosql_frame.Bufio2.Conn.{Outbound}
use ipfs_nosql_frame.Sc.Table.{lookup, equal_self}
use ipfs_nosql_frame.Sc.Backend.{Backend}
use ipfs_nosql_frame.Sc.Reporter.{sc_log}
use ipfs_nosql_frame.Sc.Filter.{
  Rule, Filter, is_exist_in_filter_list, get_filter_rule, get_msp_rate_limit, get_data, shard_key,
  le_ℤ, has_text,
}
use ipfs_nosql_frame.Sc.Monitor.{is_negative}
use ipfs_nosql_frame.Sc.Alerts.{MspEvent}
use ipfs_nosql_frame.Sc.Reports.{measure}
use ipfs_nosql_frame.Sc.Session.{Session, Moment, value_at, refuse}
use ipfs_nosql_frame.Sc.Rpush
use ipfs_nosql_frame.Sc.Rpush.{expire_or_default, pushed_key}
use ipfs_nosql_frame.Sc.Pushes.{IsAdmitted, after_limiter}

and_false : (a : Bool) {b : Bool} → b ≡ false → (a && b) ≡ false
and_false true e = e
and_false false e = refl

leb_big : (n : ℕ) → n < 1000 → leb 1000 n ≡ false
leb_big n small = ground arith

leb_least : (n : ℕ) → leb 0 n ≡ true
leb_least n = ground arith

leb_three : (n : ℕ) → leb (suc (suc (suc n))) 2 ≡ false
leb_three n = ground arith

module _ {L H : Type 0} (f : Filter L H) where
  -- A key that no rule is for has no rate limit.
  limit_none :
      (id : Bytes) → lookup id (get_data f) ≡ none → is_positive (get_msp_rate_limit id f) ≡ false
  unfolding get_msp_rate_limit
  limit_none id missing =
      if_cases (λ z. is_positive z ≡ false) (has_text id) (λ _. rw missing refl) (λ _. refl)

  shard-pushed_key :
      (sc_log_num shard : ℕ) (key : Bytes)
      → key ≡ sc_log
      → ltb 0 sc_log_num ≡ true
      → (shard == 0) ≡ false
      → pushed_key sc_log_num shard key ≡ shard_key key shard
  unfolding pushed_key
  shard-pushed_key sc_log_num shard key e some_shards not_first =
      rw (e, some_shards, equal_self sc_log, not_first) refl

module _ {Float L H : Type 0} (O : Outbound) (B : Backend Float)
    (take : L → Bytes → B.World → (ℤ × ℤ) × B.World) (marshal_event : MspEvent → Option Bytes)
    (sc_log_num : ℕ) (m : Moment L H) where
  admitted_lem :
      (l : RespList) (s : Session O B)
      → IsAdmitted O B take marshal_event sc_log_num m l
      → Rpush.handle_rpush O B take marshal_event sc_log_num m l s
        ≡ Rpush.with_limiter O B take marshal_event sc_log_num m
            (value_at 1 l)
            (pushed_key sc_log_num m.shard (value_at 1 l))
            (value_at 2 l)
            (expire_or_default (get_filter_rule (value_at 1 l) m.ruled).expire)
            (get_filter_rule (value_at 1 l) m.ruled).limiter
            s
  unfolding Rpush.handle_rpush Rpush.by_terms
  admitted_lem l s (enough, listed, kept, fits) = rw (enough, listed, kept, fits) refl

  unlimited_lem :
      (key key' value : Bytes) (expire : ℤ) (limiter : Option L) (s : Session O B)
      → is_positive (get_msp_rate_limit key' m.limited) ≡ false
      → Rpush.with_limiter O B take marshal_event sc_log_num m key key' value expire limiter s
        ≡ Rpush.push O B take marshal_event sc_log_num m key key' value expire (record s {
          world = after_limiter O B take marshal_event sc_log_num m limiter key' s.world;
        })
  unlimited_lem key key' value expire none s free = refl
  unlimited_lem key key' value expire (some limiter) s free =
      rw (and_false (is_negative (take limiter key' s.world).0.0) free) refl

  -- The limit on the rate of sc_log does not hold on its shards: an RPUSH to sc_log that passes the other
  -- tests and falls to a shard that has no rule of its own is pushed, whatever the limiter answers.
  pub handle_rpush_unlimited :
      (l : RespList) (s : Session O B)
      → value_at 1 l ≡ sc_log
      → ltb 0 sc_log_num ≡ true
      → (m.shard == 0) ≡ false
      → lookup (shard_key (value_at 1 l) m.shard) (get_data m.limited) ≡ none
      → IsAdmitted O B take marshal_event sc_log_num m l
      → let terms = get_filter_rule (value_at 1 l) m.ruled in
        let key' = shard_key (value_at 1 l) m.shard in
        Rpush.handle_rpush O B take marshal_event sc_log_num m l s
        ≡ Rpush.push O B take marshal_event sc_log_num m
            (value_at 1 l)
            key'
            (value_at 2 l)
            (expire_or_default terms.expire)
            (record s {
              world = after_limiter O B take marshal_event sc_log_num m terms.limiter key' s.world;
            })
  handle_rpush_unlimited l s is_log some_shards not_first missing admitted =
      let terms = get_filter_rule (value_at 1 l) m.ruled in
      let sharded =
        shard-pushed_key m.limited sc_log_num m.shard (value_at 1 l) is_log some_shards not_first in
      admitted_lem l s admitted
      ∙ rw (sharded) (
          unlimited_lem (value_at 1 l) (shard_key (value_at 1 l) m.shard) (value_at 2 l)
            (expire_or_default terms.expire) terms.limiter s (limit_none m.limited _ missing))

  -- Of the arguments of RPUSH after the first value none is read: whatever follows it, the reply, the
  -- counters and the cluster are those of the request with one value.
  pub handle_rpush_extra :
      (cmd key value : Resp) (l : RespList) (s : Session O B)
      → Rpush.handle_rpush O B take marshal_event sc_log_num m
          (cons cmd (cons key (cons value l)))
          s
        ≡ Rpush.handle_rpush O B take marshal_event sc_log_num m
            (cons cmd (cons key (cons value nil)))
            s
  unfolding Rpush.handle_rpush Rpush.by_terms
  handle_rpush_extra cmd key value l s = rw (leb_three (count l)) refl

  -- A rule with the warning length 0, which a report of the metrics reads as the default of 1000: at any
  -- length below 1000 the report raises no alert, but every RPUSH to the key that has its arguments, is on
  -- the white list and is kept by the sampling is refused as too long: the connection gets that error and is
  -- closed, nothing is counted, and the cluster is not asked.
  pub handle_rpush_unset :
      (l : RespList) (n : ℕ) (rule : Rule L) (s : Session O B)
      → leb (count l) 2 ≡ false
      → is_exist_in_filter_list (value_at 1 l) m.listed ≡ true
      → m.ruled.enable ≡ true
      → lookup (value_at 1 l) m.ruled.rules ≡ some rule
      → (ltb 0 rule.sampling_rate && not (m.sample == 0)) ≡ false
      → rule.warning_length ≡ pos 0
      → rule.length ≡ pos n
      → n < 1000
      → let s' = Rpush.handle_rpush O B take marshal_event sc_log_num m l s in
        (measure B marshal_event m.now (value_at 1 l) (lookup (value_at 1 l) m.ruled.rules) s.world
          ≡ (pos n, s.world))
        × (s' ≡ refuse (codes "this log has been discarded because of too long length") s)
        × (s'.closed ≡ true)
        × (s'.reporter ≡ s.reporter)
        × (s'.world ≡ s.world)
  unfolding refuse measure get_filter_rule le_ℤ Rpush.handle_rpush Rpush.by_terms
  handle_rpush_unset l n rule s enough listed enabled found kept unset len small =
      rw (found, enough, listed, enabled, kept, unset, len, leb_big n small, leb_least n)
        (refl, refl, refl, refl, refl)
