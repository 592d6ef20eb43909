-- ===== src/Sc/Routed.antt =====
-- traffic_out_core.go: what the route of a request consists of, and how long it holds.
use ipfs_nosql_frame.Prelude.{
  ℕ, ◌≤◌, ltb, String, ◌≡◌, ◌≢◌, refl, ap, sym, ◌∙◌, Bool, true, false, Option, none, some, [], ◌∷◌,
  Bytes, length, if_cases, arith,
}
use text.Mathlib.Text.{◌==◌}
use text.Mathlib.TextEquality.{eq_iff}
use ipfs_nosql_frame.MemoryCacher.Cache
use ipfs_nosql_frame.MemoryCacher.Cache.{Cache}
use ipfs_nosql_frame.MemoryCacher.Reads.{is_alive, reads_after, get-set}
use ipfs_nosql_frame.Sc.Backend.{Backend}
use ipfs_nosql_frame.Sc.Routing.{
  TargetBody, Request, Route, Routing, panicked, failed, routed, is_empty, route_of, to_route,
}
use ipfs_nosql_frame.Sc.Proxy
use ipfs_nosql_frame.Sc.Proxy.{
  Proxy, Codecs, handle_request_route, unless_cached, settle_target, with_token,
  get_channel_relation, chain_loop, link_field,
}

long_lem : (n : ℕ) → 33 ≤ n → ltb n 33 ≡ false
long_lem n long = ground arith

same_key : (k j : String) → j ≡ k → (k == j) ≡ true
same_key k j e = (eq_iff k j).1 (sym e)

given_lem : (s : Bytes) → s ≢ [] → is_empty s ≡ false
given_lem [] given = absurd (given refl)
given_lem (c ∷ s) given = refl

module _ {Float Claims : Type 0} (B : Backend Float) (codecs : Codecs Float Claims) where
  abbrev or_route : Route → Routing Route → Route
  or_route r panicked = r
  or_route r (failed e) = r
  or_route r (routed r') = r'

  -- The request that was routed has put its target into the cache.
  abbrev Stored : Request → ℕ → Proxy B → Route → Proxy B → Type 0
  Stored req now p r p' =
      (t : TargetBody) × (r ≡ to_route req t)
      × ((j : String) (later : ℕ)
          → Cache.get j later p'.cache
            ≡ reads_after p.cache (codecs.go_string (route_of req)) t Cache.use_default_expiration
                now j later)

  settle-Stored :
      (req : Request) (now : ℕ) (ready : Bool) (p : Proxy B) (y : Routing TargetBody × B.World)
      (r : Route) (p' : Proxy B)
      → Cache.is_reach_max_items_count p.cache ≡ false
      → settle_target B codecs req now ready p.cache y ≡ (routed r, p')
      → Stored req now p r p'
  unfolding Cache.set_default
  settle-Stored req now ready p (panicked, w) r p' room h = absurd cc
  settle-Stored req now ready p (failed e, w) r p' room h = absurd cc
  settle-Stored req now ready p (routed t, w) r p' room h =
      let (reply, sets, reads) =
        get-set (codecs.go_string (route_of req)) t Cache.use_default_expiration now ready p.cache
          room in
      let h' = ap (λ o. Proxy.store B codecs req t w o p.cache) (sym sets) ∙ h in
      (
        t,
        sym (ap (λ x. or_route r x.0) h'),
        λ j later. ap (λ x. Cache.get j later x.1.cache) (sym h') ∙ reads j later,
      )

  unless-Stored :
      (req : Request) (now : ℕ) (ready : Bool) (p : Proxy B) (x : Option TargetBody) (r : Route)
      (p' : Proxy B)
      → Cache.is_reach_max_items_count p.cache ≡ false
      → x ≡ none
      → unless_cached B codecs req now ready x p ≡ (routed r, p')
      → Stored req now p r p'
  unless-Stored req now ready p none r p' room miss h =
      settle-Stored req now ready p (with_token B codecs req p.world) r p' room h
  unless-Stored req now ready p (some t) r p' room miss h = absurd cc

  route-Stored :
      (req : Request) (now : ℕ) (ready : Bool) (p : Proxy B) (r : Route) (p' : Proxy B)
      → Cache.is_reach_max_items_count p.cache ≡ false
      → Cache.get (codecs.go_string (route_of req)) now p.cache ≡ none
      → handle_request_route B codecs req now ready p ≡ (routed r, p')
      → Stored req now p r p'
  unfolding handle_request_route
  route-Stored req now ready p r p' room miss =
      let P = λ (z : Routing Route × Proxy B). z ≡ (routed r, p') → Stored req now p r p' in
      if_cases P (ltb (length req.request_uri) 33) (λ short h. absurd cc)
        (λ long.
          if_cases P (is_empty req.authorization) (λ none_given h. absurd cc)
            (λ given. unless-Stored req now ready p _ r p' room miss))

  -- Once a request is routed by its token and the relations in Redis, every later request for the same
  -- route, as long as the default time of the cache, is routed to the same target, whatever its token,
  -- if only it has one and is long enough, and nothing changes. (The cache is below its bound, and had no
  -- target for the route.)
  pub handle_request_route_again :
      (req req' : Request) (now later : ℕ) (ready ready' : Bool) (p p' : Proxy B) (r : Route)
      → Cache.is_reach_max_items_count p.cache ≡ false
      → Cache.get (codecs.go_string (route_of req)) now p.cache ≡ none
      → handle_request_route B codecs req now ready p ≡ (routed r, p')
      → is_alive p.cache Cache.use_default_expiration now later ≡ true
      → route_of req' ≡ route_of req
      → 33 ≤ length req'.request_uri
      → req'.authorization ≢ []
      → (t : TargetBody) × (r ≡ to_route req t)
        × (handle_request_route B codecs req' later ready' p' ≡ (routed (to_route req' t), p'))
  unfolding handle_request_route
  handle_request_route_again req req' now later ready ready' p p' r room miss h alive same long
        given =
      let (t, e, reads) = route-Stored req now ready p r p' room miss h in
      let same' =
        same_key (codecs.go_string (route_of req)) (codecs.go_string (route_of req'))
          (ap codecs.go_string same) in
      let found = rw (same', alive) at (reads (codecs.go_string (route_of req')) later) in
      (t, e, rw (long_lem _ long, given_lem req'.authorization given, found) refl)
