-- ===== src/Examples/RouteExamples.antt =====
-- A proxy whose tokens are not parsed: each holds the same call stack, and each hash of Redis the same
-- relation to the application shop at the host shop:80.
use ipfs_nosql_frame.Prelude.{
  ℕ, ◌≡◌, ◌≢◌, ◌≤◌, ◌↔◌, refl, arith, pos, true, false, none, some, [], ◌∷◌, ◌++◌, Bytes, codes, ok,
  All, Option, length,
}
use ipfs_nosql_frame.Prelude.GoMap
use ipfs_nosql_frame.MemoryCacher.Cache
use ipfs_nosql_frame.MemoryCacher.Cache.{Cache}
use ipfs_nosql_frame.Rediscluster.Replies.{bulk, equal}
use ipfs_nosql_frame.Rediscluster.Replies
use ipfs_nosql_frame.Sc.Backend.{Backend}
use ipfs_nosql_frame.Sc.Routing
use ipfs_nosql_frame.Sc.Routing.{
  TargetBody, CallStack, TokenBody, Request, Route, Routing, routed, text, to_route, check_chains,
  zero_target, is_positive_atoi,
}
use ipfs_nosql_frame.Sc.Proxy
use ipfs_nosql_frame.Sc.Proxy.{
  Proxy, Codecs, handle_request_route, find_target, get_interface_string,
}
use ipfs_nosql_frame.Sc.Routed
use ipfs_nosql_frame.Sc.Chains
use ipfs_nosql_frame.Sc.Chains.{Linked, IsFirst, IsLater, three_names}

abbrev relations : Backend ℕ
relations = record {
  World = Unit;
  do_command = λ cmd args w. ((bulk (codes "shop"), none), w);
  get_node_addr_by_key = λ key w. ok (codes "a:1");
}

abbrev shop : TargetBody
shop = record {
  app_id = codes "7";
  app_key = codes "shop";
  channel = codes "1";
  host = codes "shop:80/";
  scheme = codes "http";
}

abbrev caller : CallStack ℕ
caller = record {
  app_id = codes "3";
  app_key = codes "till";
  channel = text (codes "1");
  alias = [];
}

abbrev callee : CallStack ℕ
callee = record { app_id = codes "7"; app_key = []; channel = Routing.other; alias = codes "s" }

abbrev token : TokenBody ℕ
token = record {
  from_appid = codes "3";
  from_appkey = codes "till";
  from_channel = text (codes "1");
  call_stack = caller ∷ callee ∷ [];
}

-- Only an empty text is no JSON here.
abbrev target_in : Bytes → Option TargetBody
target_in [] = none
target_in (c ∷ b) = some shop

abbrev codecs : Codecs ℕ Unit
codecs = record {
  parse_jwt = λ s. some (some tt);
  marshal_claims = λ claims. ok [];
  unmarshal_token = λ b. ok token;
  unmarshal_target = target_in;
  float_to_int = λ x. pos x;
  go_string = λ s. "route";
}

abbrev request : Bytes → Bytes → Request
request path authorization = record {
  request_uri = codes "/df911f0151f9ef021d410b4be5060972" ++ path;
  authorization = authorization;
  is_chain = codes "1";
}

abbrev proxy : Proxy relations
proxy = record {
  cache = record {
    default_expiration = pos 100;
    max_items_count = pos 5;
    items = [];
    on_evicted = false;
    last_clean_time = 0;
    janitor = none;
  };
  world = tt;
}

abbrev login : Request
login = request (codes "/user/login") (codes "Bearer x.y.z")

abbrev forged : Request
forged = request (codes "/admin") (codes "x")

abbrev known : Proxy relations
known = record proxy { cache = Cache.set_item "route" shop (pos 0) 5 proxy.cache }

first_routed :
    handle_request_route relations codecs login 5 false proxy
    ≡ (routed (to_route login shop), known)
unfolding handle_request_route Proxy.get_app_info_by_jwt_token find_target Proxy.by_chain
    Proxy.chain_loop Proxy.get_channel_relation check_chains Routing.has_bad_link is_positive_atoi
    Routing.atoi_digits Routing.split Cache.get Cache.set_default Replies.bytes equal GoMap.lookup
first_routed = refl

not_full : Cache.is_reach_max_items_count proxy.cache ≡ false
unfolding Cache.is_reach_max_items_count
not_full = refl

missing : Cache.get "route" 5 proxy.cache ≡ none
unfolding Cache.get GoMap.lookup
missing = refl

same_route : Routing.route_of forged ≡ Routing.route_of login
unfolding Routing.split
same_route = refl

by_chain_asked : is_positive_atoi (codes "1") ≡ true
unfolding is_positive_atoi Routing.atoi_digits
by_chain_asked = refl

long_enough : 33 ≤ length forged.request_uri
long_enough = omega arith

not_empty : forged.authorization ≢ []
not_empty e = cc

handle_request_route_again_example :
    (t : TargetBody) × (to_route login shop ≡ to_route login t)
    × (handle_request_route relations codecs forged 60 false known
        ≡ (routed (to_route forged t), known))
handle_request_route_again_example =
    Routed.handle_request_route_again relations codecs login forged 5 60 false false proxy known
      (to_route login shop) not_full missing first_routed refl same_route long_enough not_empty

find_target-Linked_example :
    (find_target relations codecs (codes "1") token tt ≡ (routed shop, tt)) ↔ (
      (IsFirst caller × All IsLater (callee ∷ []))
      × Linked relations codecs
          (three_names
            (codes "3")
            (codes "till")
            (get_interface_string relations codecs (text (codes "1"))))
          zero_target
          tt
          (callee ∷ [])
          shop
          tt)
find_target-Linked_example =
    Chains.find_target-Linked relations codecs (codes "1") token caller (callee ∷ []) shop tt tt
      refl by_chain_asked refl
