-- ===== src/Rediscluster/Node/Wire.antt =====
-- node.go: readLine, parseLen, parseInt and readReply. The buffered reader of a connection is a Source. The
-- loop of readLine and the recursion of readReply take fuel, and `stuck` means that it ran out. An int is
-- computed with as its bit pattern, in 64 bits. With an error the code may return a part of a value, which
-- is left out.
use ipfs_nosql_frame.Prelude.{
  ℕ, zero, suc, ◌+◌, ◌-◌, ◌*◌, ◌%◌, ◌^◌, ℤ, pos, negsuc, ◌&&◌, Option, none, some, [], ◌∷◌, ◌++◌,
  Bytes, length, take, get_or, ltb, ◌==◌, if◌then◌else◌, Result, ok, err,
}
use ipfs_nosql_frame.Credis.Strconv.{is_digit}
use ipfs_nosql_frame.Credis.Decoder.{cr, lf}
use ipfs_nosql_frame.Credis.Source.{Source}
use ipfs_nosql_frame.Rediscluster.Replies.{
  Reply, ReplyList, integer, bulk, simple, redis_error, null, array, nil, cons,
}
use ipfs_nosql_frame.Rediscluster.Node.Errors.{
  NodeError, from_io, line_too_short, empty_len, len_not_numeric, empty_int, empty_int_digits,
  int_not_numeric, empty_line, bad_bulk_end, unexpected_line, stuck,
}

-- The loops of parseLen and parseInt: a number of 64 bits, or `none` at a byte that is no digit.
unfoldable pub digits_loop : Bytes → ℕ → Option ℕ
digits_loop [] n = some n
digits_loop (b ∷ p) n =
    let next = digits_loop p ((n * 10 % 2 ^ 64 + (b - b'0')) % 2 ^ 64) in
    if is_digit b then next else none

-- The int with a bit pattern of 64 bits.
unfoldable pub signed : ℕ → ℤ
signed n = if ltb n (2 ^ 63) then pos n else negsuc (2 ^ 64 - 1 - n)

abbrev pub or_error : NodeError → (ℕ → ℤ) → Option ℕ → Result NodeError ℤ
or_error e f none = err e
or_error e f (some n) = ok (f n)

unfoldable pub parse_len : Bytes → Result NodeError ℤ
unfolding digits_loop signed
parse_len [] = err empty_len
parse_len (b ∷ p) =
    if b == b'-' && length p == 1 && get_or p 0 0 == b'1'
    then ok (negsuc 0)
    else or_error len_not_numeric signed (digits_loop (b ∷ p) 0)

-- What follows the sign.
unfoldable pub parse_negative : Bytes → Result NodeError ℤ
unfolding digits_loop signed
parse_negative [] = err empty_int_digits
parse_negative (b ∷ p) =
    or_error int_not_numeric (λ n. signed ((2 ^ 64 - n) % 2 ^ 64)) (digits_loop (b ∷ p) 0)

unfoldable pub parse_int : Bytes → Result NodeError ℤ
unfolding parse_negative
parse_int [] = err empty_int
parse_int (b ∷ p) =
    if b == b'-' then parse_negative p else or_error int_not_numeric signed (digits_loop (b ∷ p) 0)

-- What a method does to the reader below it.
abbrev pub Reading : Type 0 → Type 0 → Type 0
Reading R A = R → Result NodeError A × R

module _ {R : Type 0} where
  abbrev pub proceed : {A B : Type 0} → Result NodeError A → (A → Reading R B) → Reading R B
  proceed (ok a) f r = f a r
  proceed (err e) f r = (err e, r)

  infixl 5 ◌>>=◌
  abbrev pub ◌>>=◌ : {A B : Type 0} → Reading R A → (A → Reading R B) → Reading R B
  ◌>>=◌ m f r = let (x, r') = m r in proceed x f r'

  abbrev pub return : {A : Type 0} → A → Reading R A
  return a r = (ok a, r)

  abbrev pub throw : {A : Type 0} → NodeError → Reading R A
  throw e r = (err e, r)

module _ (S : Source) where
  -- conn.br.ReadBytes('\n') and io.ReadFull(conn.br, p), for a p of n bytes
  abbrev read_to_feed : Reading S.Reader Bytes
  read_to_feed r = let (x, r') = S.read_bytes lf r in (from_io x, r')

  abbrev read_exactly : ℕ → Reading S.Reader Bytes
  read_exactly n r = let (x, r') = S.read_full n r in (from_io x, r')

  -- The loop of readLine, with what has been put into `line`.
  unfoldable pub line_loop : ℕ → Bytes → Reading S.Reader Bytes
  line_loop zero line = throw stuck
  line_loop (suc turns) line = do
    p ← read_to_feed
    if ltb (length p) 2
        then throw line_too_short
        else if get_or p (length p - 2) 0 == cr
        then return (line ++ take (length p - 2) p)
        else line_loop turns (line ++ p)

  unfoldable pub read_line : ℕ → Reading S.Reader Bytes
  read_line turns = line_loop turns []

  -- The case '$', from the length on; every negative length is a null.
  unfoldable pub bulk_body : ℕ → ℤ → Reading S.Reader Reply
  bulk_body turns (negsuc n) = return null
  bulk_body turns (pos n) = do
    p ← read_exactly n
    end ← read_line turns
    if length end == 0 then return (bulk p) else throw bad_bulk_end

  -- The loop over the elements, given the call that reads one.
  unfoldable pub read_items : Reading S.Reader Reply → ℕ → Reading S.Reader ReplyList
  read_items call zero = return nil
  read_items call (suc n) = do r ← call; l ← read_items call n; return (cons r l)

  -- The case '*', from the length on.
  unfoldable pub array_body : Reading S.Reader Reply → ℤ → Reading S.Reader Reply
  array_body call (negsuc n) = return null
  array_body call (pos n) = do l ← read_items call n; return (array l)

  abbrev integer_of : Result NodeError ℤ → Result NodeError Reply
  integer_of (ok n) = ok (integer n)
  integer_of (err e) = err e

  -- The switch on the first byte of the line. The shortcuts for OK and PONG return what the default does.
  unfoldable pub reply_body : ℕ → Reading S.Reader Reply → ℕ → Bytes → Reading S.Reader Reply
  reply_body turns call c rest =
      if c == b'+'
      then return (simple rest)
      else if c == b'-'
      then return (redis_error rest)
      else if c == b':'
      then (λ r. (integer_of (parse_int rest), r))
      else if c == b'$'
      then proceed (parse_len rest) (bulk_body turns)
      else if c == b'*'
      then proceed (parse_len rest) (array_body call)
      else throw unexpected_line

  abbrev by_line : ℕ → Reading S.Reader Reply → Bytes → Reading S.Reader Reply
  by_line turns call [] = throw empty_line
  by_line turns call (c ∷ rest) = reply_body turns call c rest

  unfoldable pub read_reply : ℕ → ℕ → Reading S.Reader Reply
  read_reply turns zero = throw stuck
  read_reply turns (suc f) = do line ← read_line turns; by_line turns (read_reply turns f) line
