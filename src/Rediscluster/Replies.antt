-- ===== src/Rediscluster/Replies.antt =====
-- reply.go: the conversions of a command's reply that do without reflection. With an error the code also
-- returns a value, which callers must not use and which is left out here. `int` has 64 bits.
use ipfs_nosql_frame.Prelude.{
  ℤ, Bool, true, false, not, ◌&&◌, ◌||◌, Option, none, some, [], ◌∷◌, Bytes, codes, Result, ok, err,
  ◌==◌, if◌then◌else◌, is_zero,
}
use ipfs_nosql_frame.Credis.Strconv.{parse_int}

-- The dynamic types of a reply, as doReply of node.go makes them.
mutual
  pub data Reply : Type 0 where
    integer : ℤ → Reply
    bulk simple redis_error : Bytes → Reply
    null : Reply
    array : ReplyList → Reply

  pub data ReplyList : Type 0 where
    nil : ReplyList
    cons : Reply → ReplyList → ReplyList

-- The errors: the one that came with the reply, ErrNil, the reply itself, strconv's, an unexpected type,
-- and those of StringMap, Scan and cannotConvert.
pub data ReplyError (E : Type 0) : Type 0 where
  given : E → ReplyError E
  err_nil : ReplyError E
  redis : Bytes → ReplyError E
  syntax unexpected_type : ReplyError E
  odd_length not_bulk mismatch cannot_convert : ReplyError E

-- bytes.Equal
unfoldable pub equal : Bytes → Bytes → Bool
equal [] [] = true
equal [] (d ∷ b) = false
equal (c ∷ a) [] = false
equal (c ∷ a) (d ∷ b) = let rest = equal a b in c == d && rest

-- strconv.ParseBool
unfoldable pub parse_bool : Bytes → Option Bool
unfolding equal
parse_bool s =
    if equal s (codes "1")
      || equal s (codes "t")
      || equal s (codes "T")
      || equal s (codes "TRUE")
      || equal s (codes "true")
      || equal s (codes "True")
    then some true
    else if equal s (codes "0")
        || equal s (codes "f")
        || equal s (codes "F")
        || equal s (codes "FALSE")
        || equal s (codes "false")
        || equal s (codes "False")
    then some false
    else none

module _ {E : Type 0} where
  abbrev pub or_syntax : {A : Type 0} → Option A → Result (ReplyError E) A
  or_syntax none = err syntax
  or_syntax (some a) = ok a

  unfoldable pub int : Reply → Option E → Result (ReplyError E) ℤ
  int r (some e) = err (given e)
  int (integer n) none = ok n
  int (bulk s) none = or_syntax (parse_int s)
  int null none = err err_nil
  int (redis_error m) none = err (redis m)
  int (simple s) none = err unexpected_type
  int (array l) none = err unexpected_type

  unfoldable pub int64 : Reply → Option E → Result (ReplyError E) ℤ
  int64 r (some e) = err (given e)
  int64 (integer n) none = ok n
  int64 (bulk s) none = or_syntax (parse_int s)
  int64 null none = err err_nil
  int64 (redis_error m) none = err (redis m)
  int64 (simple s) none = err unexpected_type
  int64 (array l) none = err unexpected_type

  -- Float64, given strconv.ParseFloat for 64 bits.
  unfoldable pub float64 :
      {F : Type 0} → (Bytes → Option F) → Reply → Option E → Result (ReplyError E) F
  float64 parse_float r (some e) = err (given e)
  float64 parse_float (bulk s) none = or_syntax (parse_float s)
  float64 parse_float null none = err err_nil
  float64 parse_float (redis_error m) none = err (redis m)
  float64 parse_float (integer n) none = err unexpected_type
  float64 parse_float (simple s) none = err unexpected_type
  float64 parse_float (array l) none = err unexpected_type

  unfoldable pub string : Reply → Option E → Result (ReplyError E) Bytes
  string r (some e) = err (given e)
  string (bulk s) none = ok s
  string (simple s) none = ok s
  string null none = err err_nil
  string (redis_error m) none = err (redis m)
  string (integer n) none = err unexpected_type
  string (array l) none = err unexpected_type

  unfoldable pub bytes : Reply → Option E → Result (ReplyError E) Bytes
  bytes r (some e) = err (given e)
  bytes (bulk s) none = ok s
  bytes (simple s) none = ok s
  bytes null none = err err_nil
  bytes (redis_error m) none = err (redis m)
  bytes (integer n) none = err unexpected_type
  bytes (array l) none = err unexpected_type

  unfoldable pub bool : Reply → Option E → Result (ReplyError E) Bool
  unfolding parse_bool
  bool r (some e) = err (given e)
  bool (integer n) none = ok (not (is_zero n))
  bool (bulk s) none = or_syntax (parse_bool s)
  bool null none = err err_nil
  bool (redis_error m) none = err (redis m)
  bool (simple s) none = err unexpected_type
  bool (array l) none = err unexpected_type

  unfoldable pub values : Reply → Option E → Result (ReplyError E) ReplyList
  values r (some e) = err (given e)
  values (array l) none = ok l
  values null none = err err_nil
  values (redis_error m) none = err (redis m)
  values (integer n) none = err unexpected_type
  values (bulk s) none = err unexpected_type
  values (simple s) none = err unexpected_type
