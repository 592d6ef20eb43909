-- ===== src/Rediscluster/Lists.antt =====
-- reply.go: the conversions of a reply with many elements, Scan with the destinations that they give it,
-- and convertAssign to a string and to an int. A Go map of strings is an association list.
use ipfs_nosql_frame.Prelude.{
  ℕ, zero, suc, ◌%◌, ◌==◌, ltb, ℤ, pos, Option, none, some, List, [], ◌∷◌, Bytes, length, Result,
  ok, err, if◌then◌else◌,
}
use ipfs_nosql_frame.Credis.Strconv.{parse_int}
use ipfs_nosql_frame.Rediscluster.Replies.{
  Reply, ReplyList, ReplyError, integer, bulk, simple, redis_error, null, array, nil, cons, redis,
  odd_length, not_bulk, mismatch, cannot_convert, or_syntax, equal, values,
}

-- make([]T, n)
unfoldable pub make : {A : Type 0} → A → ℕ → List A
make a zero = []
make a (suc n) = a ∷ make a n

unfoldable pub reply_count : ReplyList → ℕ
reply_count nil = 0
reply_count (cons r l) = suc (reply_count l)

-- map[string]string
abbrev pub StringMap : Type 0
StringMap = List (Bytes × Bytes)

-- m[k] = v
unfoldable pub put : Bytes → Bytes → StringMap → StringMap
put k v [] = (k, v) ∷ []
put k v ((a, old) ∷ m) = let rest = (a, old) ∷ put k v m in if equal a k then (k, v) ∷ m else rest

-- v, ok := m[k]
unfoldable pub entry : Bytes → StringMap → Option Bytes
entry k [] = none
entry k ((a, v) ∷ m) = let rest = entry k m in if equal a k then some v else rest

-- reply.([]byte)
abbrev pub as_bulk : Reply → Option Bytes
as_bulk (bulk b) = some b
as_bulk (integer n) = none
as_bulk null = none
as_bulk (simple s) = none
as_bulk (redis_error m) = none
as_bulk (array l) = none

module _ {E : Type 0} where
  -- convertAssign to a string that holds `old`
  unfoldable pub assign_string : Bytes → Reply → Result (ReplyError E) Bytes
  assign_string old null = ok old
  assign_string old (bulk b) = ok b
  assign_string old (redis_error m) = err (redis m)
  assign_string old (integer n) = err cannot_convert
  assign_string old (simple s) = err cannot_convert
  assign_string old (array l) = err cannot_convert

  -- convertAssign to an int that holds `old`
  unfoldable pub assign_int : ℤ → Reply → Result (ReplyError E) ℤ
  assign_int old null = ok old
  assign_int old (bulk b) = or_syntax (parse_int b)
  assign_int old (integer n) = ok n
  assign_int old (redis_error m) = err (redis m)
  assign_int old (simple s) = err cannot_convert
  assign_int old (array l) = err cannot_convert

  abbrev pub written :
      {D : Type 0} → D → Result (ReplyError E) (List D) → Result (ReplyError E) (List D)
  written d (err e) = err e
  written d (ok ds) = ok (d ∷ ds)

  module _ {D : Type 0} (assign : D → Reply → Result (ReplyError E) D) where
    -- The loop of Scan, which its test of the lengths keeps from running out of elements.
    unfoldable pub scan_loop : List D → ReplyList → Result (ReplyError E) (List D)
    scan_loop [] src = ok []
    scan_loop (d ∷ dst) nil = err mismatch
    scan_loop (d ∷ dst) (cons r src) = elim (assign d r) [
      | err e ↦ err e
      | ok x ↦ written x (scan_loop dst src)
    ]

    -- Scan, less the elements that it returns behind the copied ones.
    unfoldable pub scan : ReplyList → List D → Result (ReplyError E) (List D)
    scan src dst = if ltb (reply_count src) (length dst) then err mismatch else scan_loop dst src

  unfoldable pub ints : Reply → Option E → Result (ReplyError E) (List ℤ)
  ints r e = elim (values r e) [
    | err e' ↦ err e'
    | ok l ↦ scan assign_int l (make (pos 0) (reply_count l))
  ]

  unfoldable pub strings : Reply → Option E → Result (ReplyError E) (List Bytes)
  strings r e = elim (values r e) [
    | err e' ↦ err e'
    | ok l ↦ scan assign_string l (make [] (reply_count l))
  ]

  abbrev pub put_pair : Option Bytes → Option Bytes → StringMap → Result (ReplyError E) StringMap
  put_pair none v m = err not_bulk
  put_pair (some k) none m = err not_bulk
  put_pair (some k) (some v) m = ok (put k v m)

  -- The loop of StringMap, which its test of the length keeps from running out of values.
  unfoldable pub pairs_loop : ReplyList → StringMap → Result (ReplyError E) StringMap
  pairs_loop nil m = ok m
  pairs_loop (cons k nil) m = err odd_length
  pairs_loop (cons k (cons v more)) m = elim (put_pair (as_bulk k) (as_bulk v) m) [
    | err e ↦ err e
    | ok m' ↦ pairs_loop more m'
  ]

  unfoldable pub string_map : Reply → Option E → Result (ReplyError E) StringMap
  string_map r e = elim (values r e) [
    | err e' ↦ err e'
    | ok l ↦ if reply_count l % 2 == 0 then pairs_loop l [] else err odd_length
  ]
