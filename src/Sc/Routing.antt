-- ===== src/Sc/Routing.antt =====
-- traffic_out_core.go: the route of an outgoing request. The JWT parser and JSON are parameters: `parse_jwt`
-- is jwt.Parse without its error, `none` for a nil token, and `some none` for claims of another type; the
-- texts of errors are those of Error(). `go_string` is the conversion of bytes to a string. Logging is left
-- out.
use ipfs_nosql_frame.Prelude.{
  ℕ, ◌+◌, ◌*◌, ◌^◌, ◌-◌, ltb, leb, ◌==◌, ℤ, Bool, true, false, not, ◌&&◌, ◌||◌, Option, none, some,
  List, [], ◌∷◌, ◌++◌, Bytes, codes, if◌then◌else◌,
}
use ipfs_nosql_frame.Credis.Strconv.{is_digit}
use ipfs_nosql_frame.Rediscluster.Replies.{equal}

-- interface{}, as far as getInterfaceString looks into it.
pub data Channel (Float : Type 0) : Type 0 where
  text : Bytes → Channel Float
  int : ℤ → Channel Float
  float64 : Float → Channel Float
  other : Channel Float

pub record TargetBody : Type 0 where
  pub app_id : Bytes
  pub app_key : Bytes
  pub channel : Bytes
  pub host : Bytes
  pub scheme : Bytes

pub record CallStack (Float : Type 0) : Type 0 where
  pub app_id : Bytes
  pub app_key : Bytes
  pub channel : Channel Float
  pub alias : Bytes

-- tokenBody, as far as it is read.
pub record TokenBody (Float : Type 0) : Type 0 where
  pub from_appid : Bytes
  pub from_appkey : Bytes
  pub from_channel : Channel Float
  pub call_stack : List (CallStack Float)

-- What is read of a request: its URI, and the headers Authorization and x-is-chain.
pub record Request : Type 0 where
  pub request_uri : Bytes
  pub authorization : Bytes
  pub is_chain : Bytes

pub record Route : Type 0 where
  pub scheme : Bytes
  pub host : Bytes
  pub path : Bytes
  pub header : List (Bytes × Bytes)

-- How a call ends: by a panic, by an error, or with a value.
pub data Routing (A : Type 0) : Type 0 where
  panicked : Routing A
  failed : Bytes → Routing A
  routed : A → Routing A

-- A call that changes a state.
abbrev pub Act : Type 0 → Type 0 → Type 0
Act S A = S → Routing A × S

module _ {S A C : Type 0} where
  abbrev pub on_result : Routing A × S → (A → Act S C) → Routing C × S
  on_result (panicked, s) k = (panicked, s)
  on_result (failed e, s) k = (failed e, s)
  on_result (routed a, s) k = k a s

  infixl 5 ◌>>=◌
  abbrev pub ◌>>=◌ : Act S A → (A → Act S C) → Act S C
  ◌>>=◌ m k s = on_result (m s) k

abbrev pub finish : {S A : Type 0} → Routing A → Act S A
finish r s = (r, s)

abbrev pub invalid : {A : Type 0} → Routing A
invalid = failed (codes "The relation is invalid")

abbrev pub is_empty : Bytes → Bool
is_empty [] = true
is_empty (c ∷ s) = false

-- strings.Join(k, "_")
unfoldable pub make_redis_key : List Bytes → Bytes
make_redis_key [] = []
make_redis_key (k ∷ []) = k
make_redis_key (k ∷ j ∷ ks) = k ++ b'_' ∷ make_redis_key (j ∷ ks)

unfoldable pub get_chain_field_key : Bytes → Bytes → Bytes → Bytes → Bytes
get_chain_field_key app_id app_key channel alias =
    if not (is_empty app_id) && not (is_empty alias)
    then make_redis_key (app_id ∷ alias ∷ [])
    else make_redis_key (app_id ∷ app_key ∷ channel ∷ [])

module _ {Float : Type 0} where
  -- The comparison of an interface{} with a string.
  abbrev pub is_text : Channel Float → Bytes → Bool
  is_text (text s) t = equal s t
  is_text (int n) t = false
  is_text (float64 x) t = false
  is_text other t = false

  abbrev pub no_channel : Channel Float → Bool
  no_channel c = is_text c [] || is_text c (codes "0")

  -- The element after the first ones.
  abbrev pub is_bad_link : CallStack Float → Bool
  is_bad_link v =
      (is_empty v.app_id || is_empty v.alias) && (is_empty v.app_key || no_channel v.channel)

  unfoldable pub has_bad_link : List (CallStack Float) → Bool
  has_bad_link [] = false
  has_bad_link (v ∷ vs) = is_bad_link v || has_bad_link vs

  -- checkChains: whether it returns no error
  unfoldable pub check_chains : List (CallStack Float) → Bool
  check_chains [] = true
  check_chains (v ∷ vs) =
      not (is_empty v.app_id || is_empty v.app_key || no_channel v.channel || has_bad_link vs)

  -- The last element, `none` where the index is out of range.
  unfoldable pub last_node : List (CallStack Float) → Option (CallStack Float)
  last_node [] = none
  last_node (v ∷ []) = some v
  last_node (v ∷ w ∷ vs) = last_node (w ∷ vs)

-- bytes.Split(s, []byte("/")), and the loop that joins the parts after the first one again.
abbrev push_byte : ℕ → List Bytes → List Bytes
push_byte c [] = (c ∷ []) ∷ []
push_byte c (part ∷ parts) = (c ∷ part) ∷ parts

unfoldable pub split : Bytes → List Bytes
split [] = [] ∷ []
split (c ∷ s) = let parts = split s in if c == b'/' then [] ∷ parts else push_byte c parts

abbrev pub first_part : List Bytes → Bytes
first_part [] = []
first_part (part ∷ parts) = part

unfoldable pub join_parts : List Bytes → Bytes
join_parts [] = []
join_parts (part ∷ parts) = b'/' ∷ part ++ join_parts parts

abbrev pub rest_path : List Bytes → Bytes
rest_path [] = []
rest_path (part ∷ parts) = join_parts parts

-- reqUri[1:]
abbrev pub tail_of : Bytes → Bytes
tail_of [] = []
tail_of (c ∷ s) = s

abbrev pub route_of : Request → Bytes
route_of req = first_part (split (tail_of req.request_uri))

abbrev pub path_of : Request → Bytes
path_of req = rest_path (split (tail_of req.request_uri))

-- strings.Trim(host, "/")
unfoldable pub trim_left : Bytes → Bytes
trim_left [] = []
trim_left (c ∷ s) = let rest = trim_left s in if c == b'/' then rest else c ∷ s

unfoldable pub trim_right : Bytes → Bytes
trim_right [] = []
trim_right (c ∷ s) = let rest = trim_right s in if c == b'/' && is_empty rest then [] else c ∷ rest

-- The digits that strconv.Atoi reads, 0 for a syntax error, and the greatest number for one too large.
unfoldable pub atoi_digits : ℕ → Bytes → ℕ
atoi_digits n [] = n
atoi_digits n (c ∷ s) =
    let next = n * 10 + (c - b'0') in
    let rest = atoi_digits next s in
    if not (is_digit c) then 0 else if leb (2 ^ 64) next then 2 ^ 64 - 1 else rest

-- Whether the number that Atoi returns, with an error or without, is above 0.
unfoldable pub is_positive_atoi : Bytes → Bool
is_positive_atoi [] = false
is_positive_atoi (c ∷ s) =
    if c == b'-' then false else ltb 0 (atoi_digits 0 (if c == b'+' then s else c ∷ s))

abbrev pub to_route : Request → TargetBody → Route
to_route req target = record {
  scheme = target.scheme;
  host = trim_right (trim_left target.host);
  path = path_of req;
  header =
      (codes "x-appid", target.app_id)
      ∷ (codes "x-appkey", target.app_key)
      ∷ (codes "x-channel", target.channel)
      ∷ [];
}

abbrev pub zero_target : TargetBody
zero_target = record { app_id = []; app_key = []; channel = []; host = []; scheme = [] }

abbrev pub target_key : TargetBody → Bytes
target_key t = make_redis_key (t.app_id ∷ t.app_key ∷ t.channel ∷ [])
