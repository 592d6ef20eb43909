-- ===== src/Rediscluster/Conversions.antt =====
-- What the conversions of reply.go accept, and which errors they pass on.
use ipfs_nosql_frame.Prelude.{
  ℤ, ◌≡◌, ◌↔◌, ◌⊎◌, refl, Option, none, some, Bytes, Result, ok, err, arith,
}
use ipfs_nosql_frame.Credis.Strconv.{IsInt64, format_int, parse_int, parse_int-format_int}
use ipfs_nosql_frame.Rediscluster.Replies
use ipfs_nosql_frame.Rediscluster.Replies.{
  Reply, ReplyList, ReplyError, integer, bulk, simple, redis_error, null, array, given, err_nil,
  redis,
}

-- A conversion that returns the error that comes with a reply, ErrNil for nil, and an error reply itself.
abbrev pub PassesErrors : {E A : Type 0} → (Reply → Option E → Result (ReplyError E) A) → Type 0
PassesErrors {E = E} f =
    ((r : Reply) (e : E) → f r (some e) ≡ err (given e))
    × (f null none ≡ err err_nil)
    × ((m : Bytes) → f (redis_error m) none ≡ err (redis m))

-- All seven conversions return the error that comes with a reply, ErrNil for nil, and an error reply itself.
pub conversions-PassesErrors :
    {E F : Type 0} (parse_float : Bytes → Option F)
    → PassesErrors {E = E} (Replies.float64 parse_float)
      × PassesErrors {E = E} Replies.int
      × PassesErrors {E = E} Replies.int64
      × PassesErrors {E = E} Replies.string
      × PassesErrors {E = E} Replies.bytes
      × PassesErrors {E = E} Replies.bool
      × PassesErrors {E = E} Replies.values
unfolding Replies.float64 Replies.int Replies.int64 Replies.string Replies.bytes Replies.bool
    Replies.values
conversions-PassesErrors parse_float = (
  (λ r e. refl, refl, λ m. refl),
  (λ r e. refl, refl, λ m. refl),
  (λ r e. refl, refl, λ m. refl),
  (λ r e. refl, refl, λ m. refl),
  (λ r e. refl, refl, λ m. refl),
  (λ r e. refl, refl, λ m. refl),
  (λ r e. refl, refl, λ m. refl),
)

-- The number of a reply: an integer, or a bulk string that ParseInt reads.
abbrev pub IsNumber : Reply → ℤ → Type 0
IsNumber r z = (r ≡ integer z) ⊎ ((s : Bytes) × (r ≡ bulk s) × (parse_int s ≡ some z))

abbrev pub IsText : Reply → Bytes → Type 0
IsText r s = (r ≡ bulk s) ⊎ (r ≡ simple s)

-- Without an error, Int and Int64 return a number exactly for an integer reply and for a bulk string that
-- ParseInt reads, String and Bytes return a text exactly for a bulk or a simple string, and Values
-- returns elements exactly for an array.
pub conversions_accept :
    {E : Type 0} (r : Reply) (z : ℤ) (s : Bytes) (l : ReplyList)
    → ((Replies.int {E = E} r none ≡ ok z) ↔ IsNumber r z)
      × ((Replies.int64 {E = E} r none ≡ ok z) ↔ IsNumber r z)
      × ((Replies.string {E = E} r none ≡ ok s) ↔ IsText r s)
      × ((Replies.bytes {E = E} r none ≡ ok s) ↔ IsText r s)
      × ((Replies.values {E = E} r none ≡ ok l) ↔ (r ≡ array l))
unfolding Replies.int Replies.int64 Replies.string Replies.bytes Replies.values
conversions_accept r z s l = ground arith

-- An int64 that FormatInt prints comes back from Int and Int64 the same, as an integer reply and as a
-- bulk string.
pub int64-format_int :
    {E : Type 0} (z : ℤ)
    → IsInt64 z
    → (Replies.int64 {E = E} (bulk (format_int z)) none ≡ ok z)
      × (Replies.int64 {E = E} (integer z) none ≡ ok z)
      × (Replies.int {E = E} (bulk (format_int z)) none ≡ ok z)
      × (Replies.int {E = E} (integer z) none ≡ ok z)
unfolding Replies.int Replies.int64
int64-format_int z h = (rw (parse_int-format_int z h), refl, rw (parse_int-format_int z h), refl)
