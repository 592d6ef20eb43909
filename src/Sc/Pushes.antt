-- ===== src/Sc/Pushes.antt =====
-- resper.go: which RPUSH reaches the cluster, and with what.
use ipfs_nosql_frame.Prelude.{
  ℕ, ltb, leb, ◌==◌, ℤ, pos, is_positive, ◌≡◌, refl, subst, ◌⊎◌, inl, inr, Bool, true, false, not,
  ◌&&◌, Option, none, some, [], ◌∷◌, ◌++◌, Bytes, codes, if_cases, if◌then◌else◌, arith, Result, ok,
  err,
}
use ipfs_nosql_frame.Credis.Strconv.{format_nat}
use ipfs_nosql_frame.Credis.Resp.{RespList, count}
use ipfs_nosql_frame.Bufio2.Conn.{Outbound}
use ipfs_nosql_frame.Rediscluster.Replies.{ReplyError, equal, int64}
use ipfs_nosql_frame.Rediscluster.Node.Command.{string, bytes, int}
use ipfs_nosql_frame.Rediscluster.Cluster.State.{ClusterError, Answer}
use ipfs_nosql_frame.RespEcho.Writer.{EchoError}
use ipfs_nosql_frame.Sc.Backend.{Backend}
use ipfs_nosql_frame.Sc.Reporter.{sc_log, add_rpush_command}
use ipfs_nosql_frame.Sc.Filter.{
  is_exist_in_filter_list, get_filter_rule, get_msp_rate_limit, shard_key,
}
use ipfs_nosql_frame.Sc.Monitor.{is_negative}
use ipfs_nosql_frame.Sc.Alerts.{
  Alert, MspEvent, log_alert, log_rate_limit, log_key_notin_white_list,
}
use ipfs_nosql_frame.Sc.Session
use ipfs_nosql_frame.Sc.Session.{Session, Moment, value_at, refuse, answer}
use ipfs_nosql_frame.Sc.Rpush
use ipfs_nosql_frame.Sc.Rpush.{expire_or_default, pushed_key}

not-false : {b : Bool} → not b ≡ false → b ≡ true
not-false {b = true} e = refl
not-false {b = false} e = ground arith

not-true : {b : Bool} → not b ≡ true → b ≡ false
not-true {b = true} e = ground arith
not-true {b = false} e = refl

nested_if :
    {A : Type 0} (b c : Bool) (x y : A)
    → (if b then (if c then x else y) else x) ≡ (if b && not c then y else x)
nested_if true true x y = refl
nested_if true false x y = refl
nested_if false c x y = refl

pushed_key_lem :
    (sc_log_num shard : ℕ) (key : Bytes)
    → pushed_key sc_log_num shard key ≡ (
        if (ltb 0 sc_log_num && equal key sc_log) && not (shard == 0)
        then key ++ b'_' ∷ format_nat shard
        else key)
unfolding pushed_key
pushed_key_lem sc_log_num shard key =
    nested_if (ltb 0 sc_log_num && equal key sc_log) (shard == 0) key (shard_key key shard)

module _ {Float : Type 0} (O : Outbound) (B : Backend Float) where
  -- What a reply leaves as it was.
  abbrev Kept : Session O B → Session O B → Type 0
  Kept s s' = (s'.reporter ≡ s.reporter) × (s'.world ≡ s.world)

  close_on-Kept :
      (e : Option EchoError) (c : O.Conn) (s : Session O B) → Kept s (Session.close_on e c s)
  close_on-Kept none c s = (refl, refl)
  close_on-Kept (some e) c s = (refl, refl)

  after_write-Kept :
      (e : Option EchoError) (c : O.Conn) (s : Session O B) → Kept s (Session.after_write e c s)
  after_write-Kept none c s = close_on-Kept _ _ s
  after_write-Kept (some e) c s = (refl, refl)

  reply_int-Kept :
      (x : Result (ReplyError ClusterError) ℤ) (s : Session O B) → Kept s (Rpush.reply_int O B x s)
  unfolding answer refuse
  reply_int-Kept (ok n) s = after_write-Kept _ _ s
  reply_int-Kept (err e) s = (refl, refl)

  reply_kept :
      (x : Answer × B.World) (s : Session O B)
      → ((Rpush.settle O B x s).reporter ≡ s.reporter) × ((Rpush.settle O B x s).world ≡ x.1)
  reply_kept ((reply, e), w) s = reply_int-Kept (int64 reply e) (record s { world = w })

module _ {Float L H : Type 0} (O : Outbound) (B : Backend Float)
    (take : L → Bytes → B.World → (ℤ × ℤ) × B.World) (marshal_event : MspEvent → Option Bytes)
    (sc_log_num : ℕ) (m : Moment L H) where
  -- The tests that come before the limiter: enough arguments, a key of the white list, kept by the
  -- sampling, and not too long a list.
  abbrev pub IsAdmitted : RespList → Type 0
  IsAdmitted l =
      let terms = get_filter_rule (value_at 1 l) m.ruled in
      (leb (count l) 2 ≡ false)
      × (is_exist_in_filter_list (value_at 1 l) m.listed ≡ true)
      × ((ltb 0 terms.sampling_rate && not (m.sample == 0)) ≡ false)
      × (terms.length_drop ≡ false)

  -- The cluster after the limiter, if there is one, was asked for the key.
  abbrev pub after_limiter : Option L → Bytes → B.World → B.World
  after_limiter none key w = w
  after_limiter (some limiter) key w = (take limiter key w).1

  abbrev pub after_alert : Option Alert → B.World → B.World
  after_alert none w = w
  after_alert (some alert) w = log_alert B marshal_event m.now alert w

  -- Whether the limiter of the rule refuses the key, which has a limit.
  abbrev is_limited : Option L → Bytes → B.World → Bool
  is_limited none key' w = false
  is_limited (some limiter) key' w =
      is_negative (take limiter key' w).0.0 && is_positive (get_msp_rate_limit key' m.limited)

  -- Whether an RPUSH passes all tests: enough arguments, a key of the white list, kept by the sampling, not
  -- too long a list, and not refused by the limiter.
  abbrev pub passes : Bytes → RespList → B.World → Bool
  passes key' l w =
      let terms = get_filter_rule (value_at 1 l) m.ruled in
      not (leb (count l) 2)
      && (is_exist_in_filter_list (value_at 1 l) m.listed
          && (not (ltb 0 terms.sampling_rate && not (m.sample == 0))
              && (not terms.length_drop && not (is_limited terms.limiter key' w))))

  -- Nothing is counted or pushed, and the connection is closed; the cluster may have seen the limiter and
  -- an alert.
  abbrev pub Refused : Bytes → RespList → Session O B → Session O B → Type 0
  Refused key' l s s' =
      (s'.closed ≡ true)
      × (s'.reporter ≡ s.reporter)
      × ((limiter : Option L) × (alert : Option Alert) × (s'.world
            ≡ after_alert alert (after_limiter limiter key' s.world)))

  -- The command is counted, and the cluster is sent the first value with the time of the rule, or with 600
  -- if that is not positive, after the limiter was asked.
  abbrev pub Pushed : Bytes → RespList → Session O B → Session O B → Type 0
  Pushed key' l s s' =
      let terms = get_filter_rule (value_at 1 l) m.ruled in
      let expire = if is_positive terms.expire then terms.expire else pos 600 in
      (s'.reporter ≡ add_rpush_command m.now (value_at 1 l) s.reporter)
      × (s'.world
          ≡ (B.do_command (codes "RPUSH") (string key' ∷ bytes (value_at 2 l) ∷ int expire ∷ [])
              (after_limiter terms.limiter key' s.world)).1)

  abbrev pub Ends : Bytes → RespList → Session O B → Session O B → Type 0
  Ends key' l s s' =
      ((passes key' l s.world ≡ true) × Pushed key' l s s')
      ⊎ ((passes key' l s.world ≡ false) × Refused key' l s s')

  refuse-Refused :
      (key' : Bytes) (l : RespList) (msg : Bytes) (s : Session O B)
      → Refused key' l s (refuse msg s)
  unfolding refuse
  refuse-Refused key' l msg s = (refl, refl, (none, none, refl))

  unlisted-Refused :
      (key' : Bytes) (l : RespList) (s : Session O B)
      → Refused key' l s (record (refuse (codes "The log key is not in the filter whitelist") s) {
        world =
            log_alert B marshal_event m.now
              (Rpush.alert_of log_key_notin_white_list m.now (value_at 1 l) (pos 0))
              s.world;
      })
  unfolding refuse
  unlisted-Refused key' l s = (
    refl,
    refl,
    (none, some (Rpush.alert_of log_key_notin_white_list m.now (value_at 1 l) (pos 0)), refl),
  )

  push_done :
      (key key' value : Bytes) (expire : ℤ) (s : Session O B)
      → let s' = Rpush.push O B take marshal_event sc_log_num m key key' value expire s in
        (s'.reporter ≡ add_rpush_command m.now key s.reporter)
        × (s'.world
            ≡ (B.do_command
                (codes "RPUSH")
                (string key' ∷ bytes value ∷ int expire ∷ [])
                s.world).1)
  unfolding Rpush.push
  push_done key key' value expire s =
      reply_kept O B
        (B.do_command (codes "RPUSH") (string key' ∷ bytes value ∷ int expire ∷ []) s.world)
        (record s { reporter = add_rpush_command m.now key s.reporter })

  -- The limiter lets a command pass, or refuses it with or without an alert.
  on_limit_cases :
      (key key' value : Bytes) (expire : ℤ) (x : (ℤ × ℤ) × B.World) (s : Session O B)
      → let limited = is_negative x.0.0 && is_positive (get_msp_rate_limit key' m.limited) in
        let s' = Rpush.on_limit O B take marshal_event sc_log_num m key key' value expire x s in
        ((limited ≡ false)
          × (s'
              ≡ Rpush.push O B take marshal_event sc_log_num m key key' value expire
                  (record s { world = x.1 })))
        ⊎ ((limited ≡ true)
            × (s'.closed ≡ true)
            × (s'.reporter ≡ s.reporter)
            × ((alert : Option Alert) × (s'.world ≡ after_alert alert x.1)))
  unfolding refuse
  on_limit_cases key key' value expire ((remaining, total), w) s =
      let push =
        Rpush.push O B take marshal_event sc_log_num m key key' value expire
          (record s { world = w }) in
      let limited = is_negative remaining && is_positive (get_msp_rate_limit key' m.limited) in
      if_cases
        (λ (s' : Session O B).
          ((limited ≡ false) × (s' ≡ push))
          ⊎ ((limited ≡ true)
              × (s'.closed ≡ true)
              × (s'.reporter ≡ s.reporter)
              × ((alert : Option Alert) × (s'.world ≡ after_alert alert w))))
        limited
        (λ refused. inr (
          if_cases
            (λ (s' : Session O B).
              (limited ≡ true)
              × (s'.closed ≡ true)
              × (s'.reporter ≡ s.reporter)
              × ((alert : Option Alert) × (s'.world ≡ after_alert alert w)))
            (m.alert == 0)
            (λ _.
              (refused, refl, refl, (some (Rpush.alert_of log_rate_limit m.now key' total), refl)))
            (λ _. (refused, refl, refl, (none, refl)))))
        (λ passed. inl (passed, refl))

  with_limiter-Ends :
      (key' : Bytes) (l : RespList) (limiter : Option L) (s : Session O B)
      → (get_filter_rule (value_at 1 l) m.ruled).limiter ≡ limiter
      → IsAdmitted l
      → Ends key' l s (
          Rpush.with_limiter O B take marshal_event sc_log_num m
            (value_at 1 l)
            key'
            (value_at 2 l)
            (expire_or_default (get_filter_rule (value_at 1 l) m.ruled).expire)
            limiter
            s)
  with_limiter-Ends key' l none s e (enough, listed, kept, fits) = inl (
    rw (enough, listed, kept, fits, e) refl,
    rw e (
        push_done (value_at 1 l) key' (value_at 2 l)
          (expire_or_default (get_filter_rule (value_at 1 l) m.ruled).expire) s),
  )
  with_limiter-Ends key' l (some limiter) s e (enough, listed, kept, fits) =
      elim (on_limit_cases (value_at 1 l) key' (value_at 2 l)
        (expire_or_default (get_filter_rule (value_at 1 l) m.ruled).expire)
        (take limiter key' s.world) s) [
          | inl (free, done) ↦ inl (
            rw (enough, listed, kept, fits, e, free) refl,
            rw (e, done)
                (push_done (value_at 1 l) key' (value_at 2 l)
                  (expire_or_default (get_filter_rule (value_at 1 l) m.ruled).expire)
                  (record s { world = (take limiter key' s.world).1 })),
          )
          | inr (limited, closed, same, (alert, w)) ↦ inr (
            rw (enough, listed, kept, fits, e, limited) refl,
            (closed, same, (some limiter, alert, w)),
          )
        ]

  rpush-Ends :
      (l : RespList) (s : Session O B)
      → Ends
          (pushed_key sc_log_num m.shard (value_at 1 l))
          l
          s
          (Rpush.handle_rpush O B take marshal_event sc_log_num m l s)
  unfolding Rpush.handle_rpush Rpush.by_terms refuse
  rpush-Ends l s =
      let terms = get_filter_rule (value_at 1 l) m.ruled in
      let key' = pushed_key sc_log_num m.shard (value_at 1 l) in
      if_cases (Ends key' l s) (leb (count l) 2)
        (λ few. inr (
          rw few refl,
          refuse-Refused key' l (codes "the number of RPUSH command args is wrong. ") s,
        ))
        (λ enough.
          if_cases (Ends key' l s) (not (is_exist_in_filter_list (value_at 1 l) m.listed))
            (λ unlisted. inr (rw (enough, not-true unlisted) refl, unlisted-Refused key' l s))
            (λ listed.
              if_cases (Ends key' l s) (ltb 0 terms.sampling_rate && not (m.sample == 0))
                (λ dropped. inr (
                  rw (enough, not-false listed, dropped) refl,
                  refuse-Refused key' l
                      (codes "this log has been discarded because of sampling rate") s,
                ))
                (λ kept.
                  if_cases (Ends key' l s) terms.length_drop
                    (λ long. inr (
                      rw (enough, not-false listed, kept, long) refl,
                      refuse-Refused key' l
                          (codes "this log has been discarded because of too long length") s,
                    ))
                    (λ fits.
                      with_limiter-Ends key' l terms.limiter s refl
                        (enough, not-false listed, kept, fits)))))

  -- An RPUSH that passes all tests, the limiter included, is counted for its key, and its first value is
  -- sent to the cluster with the time of the rule, or 600: under the key, or if that is sc_log and the
  -- random shard is not 0, under the key of the shard. Every other RPUSH is refused: it is not counted, the
  -- connection is closed, and the cluster has seen at most the limiter and an alert.
  pub handle_rpush_cases :
      (l : RespList) (s : Session O B)
      → let key = value_at 1 l in
        let key' =
          if (ltb 0 sc_log_num && equal key sc_log) && not (m.shard == 0)
          then key ++ b'_' ∷ format_nat m.shard
          else key in
        let s' = Rpush.handle_rpush O B take marshal_event sc_log_num m l s in
        ((passes key' l s.world ≡ true) × Pushed key' l s s')
        ⊎ ((passes key' l s.world ≡ false) × Refused key' l s s')
  handle_rpush_cases l s =
      subst (λ key'. Ends key' l s (Rpush.handle_rpush O B take marshal_event sc_log_num m l s))
        (pushed_key_lem sc_log_num m.shard (value_at 1 l)) (rpush-Ends l s)
