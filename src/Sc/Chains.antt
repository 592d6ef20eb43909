-- ===== src/Sc/Chains.antt =====
-- traffic_out_core.go: the call chain of a token, and the relations in Redis that it stands on.
use ipfs_nosql_frame.Prelude.{
  ◌≡◌, ◌≢◌, refl, ap, subst, ◌↔◌, ◌⊎◌, inl, inr, All, arith, Bool, true, false, ◌||◌, Option, none,
  some, List, [], ◌∷◌, ◌++◌, Bytes, codes, if◌then◌else◌,
}
use ipfs_nosql_frame.Rediscluster.Replies
use ipfs_nosql_frame.Rediscluster.Replies.{bulk, simple, equal}
use ipfs_nosql_frame.Rediscluster.Node.Command.{string}
use ipfs_nosql_frame.Rediscluster.Cluster.State.{Answer}
use ipfs_nosql_frame.Sc.Backend.{Backend}
use ipfs_nosql_frame.Rediscluster.ListsRead.{equal_iff}
use ipfs_nosql_frame.Sc.Routing
use ipfs_nosql_frame.Sc.Routing.{
  Channel, TargetBody, CallStack, TokenBody, Routing, panicked, failed, routed, invalid, Act,
  on_result, finish, is_empty, no_channel, is_bad_link, has_bad_link, make_redis_key,
  get_chain_field_key, check_chains, is_positive_atoi, zero_target, target_key,
}
use ipfs_nosql_frame.Sc.Proxy.{
  Codecs, get_interface_string, checked_target, settle_relation, get_channel_relation, chain_loop,
  by_chain, find_target, link_key, link_field,
}

-- A call that returns a value comes from a first part that returned one.
on_result_routed :
    {S A C : Type 0} (y : Routing A × S) (k : A → Act S C) {c : C} {s' : S}
    → on_result y k ≡ (routed c, s')
    → (a : A) × (s : S) × (y ≡ (routed a, s)) × (k a s ≡ (routed c, s'))
on_result_routed (panicked, s) k h = absurd cc
on_result_routed (failed e, s) k h = absurd cc
on_result_routed (routed a, s) k h = (a, s, refl, h)

abbrev target_of : Routing TargetBody → TargetBody
target_of panicked = zero_target
target_of (failed e) = zero_target
target_of (routed t) = t

empty_iff : (s : Bytes) → (is_empty s ≡ false) ↔ (s ≢ [])
empty_iff [] = (λ h. absurd cc, λ h. absurd (h refl))
empty_iff (c ∷ s) = (λ h e. cc, λ h. refl)

unequal_iff : (s t : Bytes) → (equal s t ≡ false) ↔ (s ≢ t)
unequal_iff s t = ground (arith, equal_iff s t)

-- The text of a channel is neither empty nor 0. Channels that are no texts are not looked at.
abbrev pub IsNamed : {Float : Type 0} → Channel Float → Type 0
IsNamed (Routing.text s) = (s ≢ []) × (s ≢ codes "0")
IsNamed (Routing.int n) = Unit
IsNamed (Routing.float64 x) = Unit
IsNamed Routing.other = Unit

IsNamed-iff : {Float : Type 0} (c : Channel Float) → (no_channel c ≡ false) ↔ IsNamed c
IsNamed-iff (Routing.text s) = ground (arith, unequal_iff s [], unequal_iff s (codes "0"))
IsNamed-iff (Routing.int n) = (λ h. tt, λ h. refl)
IsNamed-iff (Routing.float64 x) = (λ h. tt, λ h. refl)
IsNamed-iff Routing.other = (λ h. tt, λ h. refl)

module _ {Float : Type 0} where
  -- The first element of a call stack names its application, its key and its channel; a later one names
  -- its application and an alias, or its key and its channel.
  abbrev pub IsFirst : CallStack Float → Type 0
  IsFirst v = (v.app_id ≢ []) × (v.app_key ≢ []) × IsNamed v.channel

  abbrev pub IsLater : CallStack Float → Type 0
  IsLater v = ((v.app_id ≢ []) × (v.alias ≢ [])) ⊎ ((v.app_key ≢ []) × IsNamed v.channel)

  IsLater-iff : (v : CallStack Float) → (is_bad_link v ≡ false) ↔ IsLater v
  IsLater-iff v =
      ground
        (arith, empty_iff v.app_id, empty_iff v.alias, empty_iff v.app_key, IsNamed-iff v.channel)

  All-IsLater_iff : (vs : List (CallStack Float)) → (has_bad_link vs ≡ false) ↔ All IsLater vs
  unfolding has_bad_link
  All-IsLater_iff [] = (λ h. tt, λ h. refl)
  All-IsLater_iff (v ∷ vs) = ground (arith, IsLater-iff v, All-IsLater_iff vs)

  check_chains_iff :
      (v : CallStack Float) (vs : List (CallStack Float))
      → (check_chains (v ∷ vs) ≡ true) ↔ (IsFirst v × All IsLater vs)
  unfolding check_chains
  check_chains_iff v vs =
      ground
        (arith, empty_iff v.app_id, empty_iff v.app_key, IsNamed-iff v.channel, All-IsLater_iff vs)

-- Two or three names, joined by "_".
abbrev pub two_names : Bytes → Bytes → Bytes
two_names a b = a ++ b'_' ∷ b

abbrev pub three_names : Bytes → Bytes → Bytes → Bytes
three_names a b c = a ++ b'_' ∷ (b ++ b'_' ∷ c)

module _ {Float Claims : Type 0} (B : Backend Float) (codecs : Codecs Float Claims) where
  -- HGET of the field of the hash at the key answers with the JSON of a target that has a key and a channel.
  abbrev pub HasRelation : Bytes → Bytes → B.World → TargetBody → B.World → Type 0
  HasRelation key field w u w' =
      let answer = B.do_command (codes "HGET") (string key ∷ string field ∷ []) w in
      (b : Bytes) × ((answer ≡ ((bulk b, none), w')) ⊎ (answer ≡ ((simple b, none), w')))
      × (codecs.unmarshal_target b ≡ some u)
      × (u.app_key ≢ [])
      × (u.channel ≢ [])

  -- The field of an element in the hash of the one before it: by its alias if it has one.
  abbrev pub field_of : CallStack Float → Bytes
  field_of v =
      if is_empty v.app_id || is_empty v.alias
      then three_names v.app_id v.app_key (get_interface_string B codecs v.channel)
      else two_names v.app_id v.alias

  -- From a key Redis leads along the rest of the call stack: the hash at the key holds the relation to the
  -- next element, which is the target there and names the next key.
  pub data Linked
      : Bytes → TargetBody → B.World → List (CallStack Float) → TargetBody → B.World → Type 0 where
    stop : {key : Bytes} {t : TargetBody} {w : B.World} → Linked key t w [] t w
    link :
        {key : Bytes} {t u t' : TargetBody} {w v w' : B.World} {node : CallStack Float}
        {nodes : List (CallStack Float)}
        → HasRelation key (field_of node) w u v
        → Linked (three_names u.app_id u.app_key u.channel) u v nodes t' w'
        → Linked key t w (node ∷ nodes) t' w'

  link_field-field_of : (v : CallStack Float) → link_field B codecs v ≡ field_of v
  unfolding get_chain_field_key make_redis_key
  link_field-field_of v = ground arith

  target_parts :
      (a b : Bool) (t u : TargetBody)
      → (if a || b then invalid else routed t) ≡ routed u
      → (a ≡ false) × (b ≡ false) × (t ≡ u)
  target_parts true b t u h = absurd cc
  target_parts false true t u h = absurd cc
  target_parts false false t u h = (refl, refl, ap target_of h)

  target_back :
      (o : Option TargetBody) (u : TargetBody)
      → o ≡ some u
      → u.app_key ≢ []
      → u.channel ≢ []
      → checked_target B codecs o ≡ routed u
  target_back o u e k l = rw (e, (empty_iff u.app_key).1 k, (empty_iff u.channel).1 l) refl

  target_iff :
      (o : Option TargetBody) (u : TargetBody)
      → (checked_target B codecs o ≡ routed u)
        ↔ ((o ≡ some u) × (u.app_key ≢ []) × (u.channel ≢ []))
  target_iff none u = (λ h. absurd cc, λ h. absurd cc)
  target_iff (some t) u = (
    λ h.
        let (no_key, no_channel', e) =
          target_parts (is_empty t.app_key) (is_empty t.channel) t u h in
        (
          ap some e,
          rw (← e) ((empty_iff t.app_key).0 no_key),
          rw (← e) ((empty_iff t.channel).0 no_channel'),
        ),
    λ (e, k, l). target_back (some t) u e k l,
  )

  refused :
      (o : Option TargetBody) (u : TargetBody) → o ≡ none → checked_target B codecs o ≡ routed u → ⊥
  refused none u e h = cc
  refused (some t) u e h = cc

  -- What a reply that is accepted was.
  settled :
      (x : Answer × B.World) (u : TargetBody) (w' : B.World)
      → codecs.unmarshal_target [] ≡ none
      → settle_relation B codecs x ≡ (routed u, w')
      → (b : Bytes) × ((x ≡ ((bulk b, none), w')) ⊎ (x ≡ ((simple b, none), w')))
        × (checked_target B codecs (codecs.unmarshal_target b) ≡ routed u)
  unfolding Replies.bytes
  settled ((reply, some e), w) u w' no_json h =
      absurd (refused (codecs.unmarshal_target []) u no_json (ap (λ x. x.0) h))
  settled ((bulk b, none), w) u w' no_json h =
      (b, inl (ap (λ x. ((bulk b, none), x.1)) h), ap (λ x. x.0) h)
  settled ((simple b, none), w) u w' no_json h =
      (b, inr (ap (λ x. ((simple b, none), x.1)) h), ap (λ x. x.0) h)
  settled ((Replies.integer n, none), w) u w' no_json h =
      absurd (refused (codecs.unmarshal_target []) u no_json (ap (λ x. x.0) h))
  settled ((Replies.redis_error m, none), w) u w' no_json h =
      absurd (refused (codecs.unmarshal_target []) u no_json (ap (λ x. x.0) h))
  settled ((Replies.null, none), w) u w' no_json h = absurd cc
  settled ((Replies.array l, none), w) u w' no_json h =
      absurd (refused (codecs.unmarshal_target []) u no_json (ap (λ x. x.0) h))

  settled_back :
      (x : Answer × B.World) (u : TargetBody) (w' : B.World) (b : Bytes)
      → (x ≡ ((bulk b, none), w')) ⊎ (x ≡ ((simple b, none), w'))
      → checked_target B codecs (codecs.unmarshal_target b) ≡ routed u
      → settle_relation B codecs x ≡ (routed u, w')
  unfolding Replies.bytes
  settled_back x u w' b (inl e) h = rw (e, h) refl
  settled_back x u w' b (inr e) h = rw (e, h) refl

  relation_iff :
      {key field : Bytes} {u : TargetBody} {w w' : B.World}
      → codecs.unmarshal_target [] ≡ none
      → (get_channel_relation B codecs key field w ≡ (routed u, w')) ↔ HasRelation key field w u w'
  unfolding get_channel_relation
  relation_iff {key} {field} {u} {w} {w'} no_json = (
    λ h.
        let (b, e, t) =
          settled (B.do_command (codes "HGET") (string key ∷ string field ∷ []) w) u w' no_json h in
        let (found, k, l) = (target_iff (codecs.unmarshal_target b) u).0 t in (b, e, found, k, l),
    λ (b, e, found, k, l).
        settled_back (B.do_command (codes "HGET") (string key ∷ string field ∷ []) w) u w' b e
          ((target_iff (codecs.unmarshal_target b) u).1 (found, k, l)),
  )

  target_key_lem : (u : TargetBody) → target_key u ≡ three_names u.app_id u.app_key u.channel
  unfolding make_redis_key
  target_key_lem u = refl

  link_key_lem :
      (v : CallStack Float)
      → link_key B codecs v
        ≡ three_names v.app_id v.app_key (get_interface_string B codecs v.channel)
  unfolding make_redis_key
  link_key_lem v = refl

  chain_loop_complete :
      {key : Bytes} {t t' : TargetBody} {w w' : B.World} {nodes : List (CallStack Float)}
      → codecs.unmarshal_target [] ≡ none
      → Linked key t w nodes t' w'
      → chain_loop B codecs key t nodes w ≡ (routed t', w')
  unfolding chain_loop
  chain_loop_complete no_json stop = refl
  chain_loop_complete no_json (link {u = u} {node = node} e rest) =
      rw (link_field-field_of node, (relation_iff no_json).1 e, target_key_lem u)
        (chain_loop_complete no_json rest)

  chain_loop-Linked :
      (key : Bytes) (t t' : TargetBody) (w w' : B.World) (nodes : List (CallStack Float))
      → codecs.unmarshal_target [] ≡ none
      → chain_loop B codecs key t nodes w ≡ (routed t', w')
      → Linked key t w nodes t' w'
  unfolding chain_loop
  chain_loop-Linked key t t' w w' [] no_json h =
      subst (λ x. Linked key t w [] (target_of x.0) x.1) h stop
  chain_loop-Linked key t t' w w' (node ∷ nodes) no_json h =
      let (u, v, e, rest) = on_result_routed _ _ h in
      let related =
        subst (λ f. HasRelation key f w u v) (link_field-field_of node)
          ((relation_iff no_json).0 e) in
      link related (
        subst (λ k. Linked k u v nodes t' w') (target_key_lem u)
          (chain_loop-Linked (target_key u) u t' v w' nodes no_json rest))

  well_formed :
      (node : CallStack Float) (nodes : List (CallStack Float)) (t : TargetBody) (w w' : B.World)
      (good : Bool)
      → codecs.unmarshal_target [] ≡ none
      → (if good
            then by_chain B codecs (node ∷ nodes)
            else finish (failed (codes "The chain is invalid")))
          w
        ≡ (routed t, w')
      → (good ≡ true) × Linked (link_key B codecs node) zero_target w nodes t w'
  unfolding by_chain
  well_formed node nodes t w w' true no_json h =
      (refl, chain_loop-Linked (link_key B codecs node) zero_target t w w' nodes no_json h)
  well_formed node nodes t w w' false no_json h = absurd cc

  -- Let the empty text be the JSON of no target. A request by chain whose token has a call stack with a first
  -- element finds a target exactly if its first element names its application, its key and its channel,
  -- each later one its application and an alias or its key and its channel, and Redis leads along the
  -- stack to that target: HGET of the next element's field, at the key of the first element and then of
  -- the target before, answers with a target that has a key and a channel.
  pub find_target-Linked :
      (is_chain : Bytes) (token : TokenBody Float) (node : CallStack Float)
      (nodes : List (CallStack Float)) (t : TargetBody) (w w' : B.World)
      → codecs.unmarshal_target [] ≡ none
      → is_positive_atoi is_chain ≡ true
      → token.call_stack ≡ node ∷ nodes
      → (find_target B codecs is_chain token w ≡ (routed t, w')) ↔ (
          (IsFirst node × All IsLater nodes)
          × Linked
              (three_names node.app_id node.app_key (get_interface_string B codecs node.channel))
              zero_target
              w
              nodes
              t
              w')
  unfolding find_target by_chain
  find_target-Linked is_chain token node nodes t w w' no_json chained stack = (
    λ h.
        let (good, linked) =
          well_formed node nodes t w w' (check_chains (node ∷ nodes)) no_json
            (rw (chained, stack) at h) in
        (
          (check_chains_iff node nodes).0 good,
          subst (λ k. Linked k zero_target w nodes t w') (link_key_lem node) linked,
        ),
    λ (named, linked).
        rw (chained, stack, (check_chains_iff node nodes).1 named, link_key_lem node)
          (chain_loop_complete no_json linked),
  )
