-- ===== src/Sc/Rpush.antt =====
-- resper.go: the command RPUSH. The limiters of bifrost/ratelimiter are a parameter: `take` is Get, with the
-- Remaining and the Total of its result; its error is only logged.
use ipfs_nosql_frame.Prelude.{
  ℕ, ◌/◌, ◌==◌, ltb, leb, ℤ, pos, is_positive, not, ◌&&◌, Option, none, some, [], ◌∷◌, ◌++◌, Bytes,
  codes, if◌then◌else◌, Result, ok, err,
}
use ipfs_nosql_frame.Credis.Resp.{RespList, count}
use ipfs_nosql_frame.Bufio2.Conn.{Outbound}
use ipfs_nosql_frame.Rediscluster.Replies.{ReplyError, equal, int64}
use ipfs_nosql_frame.Rediscluster.Node.Command.{string, bytes, int}
use ipfs_nosql_frame.Rediscluster.Cluster.State.{ClusterError, Answer}
use ipfs_nosql_frame.RespEcho.Writer.{write_int}
use ipfs_nosql_frame.Sc.Backend.{Backend}
use ipfs_nosql_frame.Sc.Reporter.{sc_log, add_rpush_command}
use ipfs_nosql_frame.Sc.Filter.{
  Terms, is_exist_in_filter_list, get_filter_rule, get_msp_rate_limit, shard_key,
}
use ipfs_nosql_frame.Sc.Monitor.{is_negative}
use ipfs_nosql_frame.Sc.Alerts.{
  Alert, MspEvent, log_alert, log_rate_limit, log_key_notin_white_list,
}
use ipfs_nosql_frame.Sc.Session.{Session, Moment, value_at, refuse, answer}

-- "Key Speed limited->", with two zero width spaces before the second word.
abbrev pub speed_limited : Bytes
speed_limited = codes "Key Speed " ++ (226 ∷ 128 ∷ 139 ∷ 226 ∷ 128 ∷ 139 ∷ (codes "limited->"))

abbrev pub expire_or_default : ℤ → ℤ
expire_or_default n = if is_positive n then n else pos 600

abbrev pub alert_of : ℕ → ℕ → Bytes → ℤ → Alert
alert_of event_type now key total = record {
  event_type = event_type;
  event_time = now / 1000000;
  log_key = key;
  rate_threshold = total;
  warning_length = pos 0;
  current_length = pos 0;
}

-- The key that is pushed to: sc_log, or one of its shards.
unfoldable pub pushed_key : ℕ → ℕ → Bytes → Bytes
pushed_key sc_log_num shard key =
    if ltb 0 sc_log_num && equal key sc_log
    then (if shard == 0 then key else shard_key key shard)
    else key

module _ {Float : Type 0} (O : Outbound) (B : Backend Float) where
  abbrev pub reply_int : Result (ReplyError ClusterError) ℤ → Session O B → Session O B
  reply_int (ok n) s = answer (write_int O n) s
  reply_int (err e) s = refuse (codes "RPUSH COMMAMDN EXEC FAIL.") s

  abbrev pub settle : Answer × B.World → Session O B → Session O B
  settle ((reply, e), w) s = reply_int (int64 reply e) (record s { world = w })

module _ {Float L H : Type 0} (O : Outbound) (B : Backend Float)
    (take : L → Bytes → B.World → (ℤ × ℤ) × B.World) (marshal_event : MspEvent → Option Bytes)
    (sc_log_num : ℕ) (m : Moment L H) where
  abbrev with_alert : Alert → Session O B → Session O B
  with_alert alert s = record s { world = log_alert B marshal_event m.now alert s.world }

  -- From AddRpushCommand on.
  unfoldable pub push : Bytes → Bytes → Bytes → ℤ → Session O B → Session O B
  push key key' value expire s =
      settle O B
        (B.do_command (codes "RPUSH") (string key' ∷ bytes value ∷ int expire ∷ []) s.world)
        (record s { reporter = add_rpush_command m.now key s.reporter })

  -- The answer of the limiter.
  abbrev pub on_limit : Bytes → Bytes → Bytes → ℤ → (ℤ × ℤ) × B.World → Session O B → Session O B
  on_limit key key' value expire ((remaining, total), w) s =
      if is_negative remaining && is_positive (get_msp_rate_limit key' m.limited)
      then (let s' = refuse (speed_limited ++ key') (record s { world = w }) in
          (if m.alert == 0 then with_alert (alert_of log_rate_limit m.now key' total) s' else s'))
      else push key key' value expire (record s { world = w })

  abbrev pub with_limiter : Bytes → Bytes → Bytes → ℤ → Option L → Session O B → Session O B
  with_limiter key key' value expire none s = push key key' value expire s
  with_limiter key key' value expire (some limiter) s =
      on_limit key key' value expire (take limiter key' s.world) s

  -- From the rule of the key on.
  unfoldable pub by_terms : Bytes → Bytes → Terms L → Session O B → Session O B
  by_terms key value terms s =
      if ltb 0 terms.sampling_rate && not (m.sample == 0)
      then refuse (codes "this log has been discarded because of sampling rate") s
      else if terms.length_drop
      then refuse (codes "this log has been discarded because of too long length") s
      else with_limiter key (pushed_key sc_log_num m.shard key) value
          (expire_or_default terms.expire) terms.limiter s

  unfoldable pub handle_rpush : RespList → Session O B → Session O B
  handle_rpush l s =
      let key = value_at 1 l in
      if leb (count l) 2
      then refuse (codes "the number of RPUSH command args is wrong. ") s
      else if not (is_exist_in_filter_list key m.listed)
      then with_alert (alert_of log_key_notin_white_list m.now key (pos 0))
          (refuse (codes "The log key is not in the filter whitelist") s)
      else by_terms key (value_at 2 l) (get_filter_rule key m.ruled) s
