-- ===== src/Sc/Monitored.antt =====
-- filter.go: a round of the monitor replaces all rules or none.
use ipfs_nosql_frame.Prelude.{
  ℕ, ℤ, ◌≡◌, refl, ap, subst, ◌∙◌, ◌⊎◌, inl, inr, not, Option, none, some, List, [], ◌∷◌, Bytes,
  Bool-cases, if_cases, Option-cases, if◌then◌else◌, Result, ok, err,
}
use mathlib.Core.Option
use ipfs_nosql_frame.Rediscluster.Replies.{equal}
use ipfs_nosql_frame.Rediscluster.Cluster.State.{ClusterError}
use ipfs_nosql_frame.Sc.Table.{Table, lookup, insert, lookup-insert}
use ipfs_nosql_frame.Sc.Backend.{Backend}
use ipfs_nosql_frame.Sc.Filter.{Rule, Filter}
use ipfs_nosql_frame.Sc.Monitor

module _ {L : Type 0} where
  -- What a rule says of its key, as it was received: its rate limit, its sampling rate, its time of
  -- expiry and its warning length.
  abbrev pub said : Rule L → Bytes × ℤ × ℕ × ℤ × ℤ
  said r = (r.log_key, r.rate_limit, r.sampling_rate, r.expire, r.warning_length)

  -- What the last rule for a key says, or what was said before.
  abbrev pub last_said :
      Bytes → List (Rule L) → Option (Bytes × ℤ × ℕ × ℤ × ℤ) → Option (Bytes × ℤ × ℕ × ℤ × ℤ)
  last_said k [] before = before
  last_said k (r ∷ rules) before =
      last_said k rules (if equal r.log_key k then some (said r) else before)

  abbrev pub Built : Option (Rule L) → Rule L → Type 0
  Built none rule = Unit
  Built (some r) rule = said r ≡ said rule

  abbrev Tells : Option (Table (Rule L)) → List (Rule L) → Table (Rule L) → Type 0
  Tells none rules out = Unit
  Tells (some t) rules out =
      (k : Bytes)
      → Option.map said (lookup k t) ≡ last_said k rules (Option.map said (lookup k out))

  said-insert :
      (k j : Bytes) (r rule : Rule L) (out : Table (Rule L))
      → said r ≡ said rule
      → Option.map said (lookup j (insert k r out))
        ≡ (if equal k j then some (said rule) else Option.map said (lookup j out))
  said-insert k j r rule out same = elim (Bool-cases (equal k j)) [
    | inl here ↦ rw (lookup-insert k j r out, here) (ap some same)
    | inr apart ↦ rw (lookup-insert k j r out, apart) refl
  ]

  grow :
      (x : Option (Table (Rule L))) (rule r : Rule L) (rules : List (Rule L)) (out : Table (Rule L))
      → said r ≡ said rule
      → Tells x rules (insert rule.log_key r out)
      → Tells x (rule ∷ rules) out
  grow none rule r rules out same h = tt
  grow (some t) rule r rules out same h =
      λ k. h k ∙ ap (last_said k rules) (said-insert rule.log_key k r rule out same)

module _ {Float L : Type 0} (B : Backend Float) (new_limiter : ℤ → B.World → Option L × B.World)
    (sc_log_num : ℕ) where
  with_limiter-Built :
      (rule : Rule L) (addr : Bytes) (x : Option (Option L) × B.World)
      → Built (Monitor.with_limiter B new_limiter sc_log_num rule addr x).0 rule
  with_limiter-Built rule addr (none, w) = tt
  with_limiter-Built rule addr (some limiter, w) = refl

  with_address-Built :
      (rule : Rule L) (x : Result ClusterError Bytes) (w : B.World)
      → Built (Monitor.with_address B new_limiter sc_log_num rule x w).0 rule
  with_address-Built rule (err e) w = tt
  with_address-Built rule (ok addr) w =
      with_limiter-Built rule addr (Monitor.make_limiter B new_limiter sc_log_num rule.rate_limit w)

  build_rule-Built :
      (rule : Rule L) (w : B.World)
      → Built (Monitor.build_rule B new_limiter sc_log_num rule w).0 rule
  unfolding Monitor.build_rule
  build_rule-Built rule w = with_address-Built rule (B.get_node_addr_by_key rule.log_key w) w

  build_rules-Tells :
      (rules : List (Rule L)) (out : Table (Rule L)) (w : B.World)
      → Tells (Monitor.build_rules B new_limiter sc_log_num rules out w).0 rules out
  unfolding Monitor.build_rules
  build_rules-Tells [] out w = λ k. refl
  build_rules-Tells (rule ∷ rules) out w =
      let built = Monitor.build_rule B new_limiter sc_log_num rule w in
      elim (Option-cases built.0) [
        | inl e ↦ rw (e, Tells) tt
        | inr (r, e) ↦
            let same : Built (some r) rule =
              subst (λ x. Built x rule) e (build_rule-Built rule w) in
            rw (e, Tells)
              (grow
                (Monitor.build_rules B new_limiter sc_log_num rules (insert rule.log_key r out)
                  built.1).0
                rule r rules out same (build_rules-Tells rules (insert rule.log_key r out) built.1))
      ]

module _ {Float L H : Type 0} (B : Backend Float) (unmarshal : Bytes → Option (List (Rule L)))
    (md5 : Bytes → H) (new_limiter : ℤ → B.World → Option L × B.World) (log_key : Bytes)
    (sc_log_num : ℕ) where
  install-Tells :
      (fetched : Option Bytes) (f : Filter L H) (rules : List (Rule L))
      (x : Option (Table (Rule L)) × B.World)
      → Tells x.0 rules []
      → (((Monitor.install_rules B md5 fetched f x).0 ≡ f)
          ⊎ ((k : Bytes)
              → Option.map said (lookup k (Monitor.install_rules B md5 fetched f x).0.rules)
                ≡ last_said k rules none))
  unfolding lookup
  install-Tells fetched f rules (none, w) h = inl refl
  install-Tells fetched f rules (some t, w) h = inr h

  abbrev Whole : Filter L H → Filter L H → Option (List (Rule L)) → Type 0
  Whole f f' x =
      (f' ≡ f)
      ⊎ ((rules : List (Rule L)) × (x ≡ some rules)
          × ((k : Bytes) → Option.map said (lookup k f'.rules) ≡ last_said k rules none))

  round_with-Whole :
      (fetched : Option Bytes) (old : List (Rule L)) (f : Filter L H) (w : B.World)
      (x : Option (List (Rule L)))
      → Whole f
          (Monitor.round_with B unmarshal md5 new_limiter log_key sc_log_num fetched old f w x).1
          x
  round_with-Whole fetched old f w none = inl refl
  round_with-Whole fetched old f w (some rules) =
      let built = Monitor.build_rules B new_limiter sc_log_num rules [] w in
      elim (install-Tells fetched f rules built
        (build_rules-Tells B new_limiter sc_log_num rules [] w)) [
          | inl kept ↦ inl kept
          | inr told ↦ inr (rules, refl, told)
        ]

  -- A round of the monitor leaves the filter as it was, or it goes on with a list of rules, and then the
  -- filter has under every key what the last rule for that key says, and nothing under a key without a
  -- rule.
  pub monitor_round_whole :
      (fetched : Option Bytes) (old : List (Rule L)) (f : Filter L H) (w : B.World)
      → let f' =
          (Monitor.monitor_round B unmarshal md5 new_limiter log_key sc_log_num fetched old f
            w).1 in
        (f' ≡ f)
        ⊎ ((rules : List (Rule L)) × (Monitor.gather unmarshal log_key fetched old ≡ some rules)
            × ((k : Bytes) → Option.map said (lookup k f'.rules) ≡ last_said k rules none))
  unfolding Monitor.monitor_round
  monitor_round_whole fetched old f w =
      if_cases
        (λ (x : List (Rule L) × Filter L H × B.World).
          Whole f x.1 (Monitor.gather unmarshal log_key fetched old))
        (not f.enable) (λ off. inl refl)
        (λ on. round_with-Whole fetched old f w (Monitor.gather unmarshal log_key fetched old))
