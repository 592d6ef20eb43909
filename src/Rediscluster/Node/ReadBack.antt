-- ===== src/Rediscluster/Node/ReadBack.antt =====
-- readReply reads back what the codec of utils/resparse writes.
use ipfs_nosql_frame.Prelude.{
  ℕ, zero, suc, ◌+◌, ◌^◌, ◌≤◌, ◌<◌, ℤ, pos, negsuc, ◌≡◌, ◌≢◌, refl, none, some, [], ◌∷◌, ◌++◌,
  append_assoc, append-nil, arith, Bytes, length, All, ok,
}
use ipfs_nosql_frame.Credis.Strconv.{format_int, IsInt64, format_nat-All}
use ipfs_nosql_frame.Credis.Lines.{digit-ne-lf}
use ipfs_nosql_frame.Credis.Encoder.{crlf}
use ipfs_nosql_frame.Credis.Decoder.{lf}
use ipfs_nosql_frame.Credis.Source.{Source}
use ipfs_nosql_frame.Credis.Resp
use ipfs_nosql_frame.Credis.Resp.{
  Resp, RespList, make, items, type_string, type_error, type_int, type_bulk_bytes, type_array,
}
use ipfs_nosql_frame.Credis.Encoding.{encoding, array_text, items_text}
use ipfs_nosql_frame.Rediscluster.Replies.{
  Reply, ReplyList, integer, bulk, simple, redis_error, null, array, nil, cons,
}
use ipfs_nosql_frame.Rediscluster.Node.Wire
use ipfs_nosql_frame.Rediscluster.Node.Numbers.{Gives, line-Gives, parse-printed}

-- The RESP value that a reply stands for.
unfoldable mutual
  pub as_resp : Reply → Resp
  as_resp (integer n) = make type_int (some (format_int n)) Resp.null
  as_resp (bulk b) = make type_bulk_bytes (some b) Resp.null
  as_resp (simple s) = make type_string (some s) Resp.null
  as_resp (redis_error s) = make type_error (some s) Resp.null
  as_resp null = make type_bulk_bytes none Resp.null
  as_resp (array l) = make type_array none (items (as_resps l))

  pub as_resps : ReplyList → RespList
  as_resps nil = Resp.nil
  as_resps (cons r l) = Resp.cons (as_resp r) (as_resps l)

abbrev pub length_of : ReplyList → ℕ
length_of nil = 0
length_of (cons r l) = suc (length_of l)

-- A reply that can be sent: lines without line feeds, integers of 64 bits, lengths that are ints.
unfoldable mutual
  pub IsSendable : Reply → Type 0
  IsSendable (integer n) = IsInt64 n
  IsSendable (bulk b) = length b < 2 ^ 63
  IsSendable (simple s) = All (λ c. c ≢ lf) s
  IsSendable (redis_error s) = All (λ c. c ≢ lf) s
  IsSendable null = Unit
  IsSendable (array l) = (length_of l < 2 ^ 63) × AreSendable l

  pub AreSendable : ReplyList → Type 0
  AreSendable nil = Unit
  AreSendable (cons r l) = IsSendable r × AreSendable l

-- How deep the arrays of a reply are nested: the fuel that reading it takes.
unfoldable mutual
  pub depth : Reply → ℕ
  depth (integer n) = 1
  depth (bulk b) = 1
  depth (simple s) = 1
  depth (redis_error s) = 1
  depth null = 1
  depth (array l) = suc (depths l)

  pub depths : ReplyList → ℕ
  depths nil = 0
  depths (cons r l) = depth r + depths l

int_line_plain : (n : ℤ) → All (λ c. c ≢ lf) (format_int n)
unfolding format_int
int_line_plain (pos n) = digit-ne-lf _ (format_nat-All n)
int_line_plain (negsuc n) = (omega arith, digit-ne-lf _ (format_nat-All (suc n)))

count-as_resps : (l : ReplyList) → Resp.count (as_resps l) ≡ length_of l
unfolding as_resps
count-as_resps nil = refl
count-as_resps (cons r l) = omega (arith, count-as_resps l)

module _ (S : Source) (turns : ℕ) where
  -- A line that starts with the byte `c`, which is no line feed.
  first-Gives :
      (c : ℕ) (line : Bytes)
      → c ≢ lf
      → All (λ c. c ≢ lf) line
      → Gives S (Wire.read_line S (suc turns)) (c ∷ (line ++ crlf)) (c ∷ line)
  first-Gives c line hc h = line-Gives S turns (c ∷ line) (hc, h)

  integer-Gives :
      (call : Wire.Reading S.Reader Reply) (n : ℤ)
      → IsInt64 n
      → Gives S (λ r. Wire.reply_body S (suc turns) call b':' (format_int n) r) [] (integer n)
  unfolding Wire.reply_body
  integer-Gives call n h rest r g =
      let (_, parsed, _) = parse-printed 0 n (omega arith) h in (r, rw parsed refl, g)

  -- The case '$' and the case '*', from a printed length on.
  bulk-Gives :
      (call : Wire.Reading S.Reader Reply) (b : Bytes)
      → length b < 2 ^ 63
      → Gives S
          (λ r. Wire.reply_body S (suc turns) call b'$' (format_int (pos (length b))) r)
          (b ++ crlf)
          (bulk b)
  unfolding Wire.reply_body Wire.bulk_body format_int
  bulk-Gives call b h rest r g =
      let (parsed, _, _) = parse-printed (length b) (pos 0) h (omega arith) in
      let (r1, e1, g1) = S.read_full_holds b (crlf ++ rest) r (rw append_assoc at g) in
      let (r2, e2, g2) = line-Gives S turns [] tt rest r1 g1 in (r2, rw (parsed, e1, e2) refl, g2)

  array-Gives :
      (call : Wire.Reading S.Reader Reply) (l : ReplyList) (p : Bytes)
      → length_of l < 2 ^ 63
      → Gives S (Wire.read_items S call (length_of l)) p l
      → Gives S
          (λ r. Wire.reply_body S (suc turns) call b'*' (format_int (pos (length_of l))) r)
          p
          (array l)
  unfolding Wire.reply_body Wire.array_body format_int
  array-Gives call l p h all rest r g =
      let (parsed, _, _) = parse-printed (length_of l) (pos 0) h (omega arith) in
      let (r1, e1, g1) = all rest r g in (r1, rw (parsed, e1) refl, g1)

  null-Gives :
      (call : Wire.Reading S.Reader Reply)
      → Gives S (λ r. Wire.reply_body S (suc turns) call b'$' (format_int (negsuc 0)) r) [] null
  unfolding Wire.reply_body Wire.bulk_body
  null-Gives call rest r g =
      let (_, _, parsed) = parse-printed 0 (pos 0) (omega arith) (omega arith) in
      (r, rw parsed refl, g)

  -- A first line, and then what the switch on its first byte gives.
  whole-Gives :
      (f c : ℕ) (line q : Bytes) (x : Reply)
      → c ≢ lf
      → All (λ c. c ≢ lf) line
      → Gives S (λ r. Wire.reply_body S (suc turns) (Wire.read_reply S (suc turns) f) c line r) q x
      → Gives S (Wire.read_reply S (suc turns) (suc f)) (c ∷ ((line ++ crlf) ++ q)) x
  unfolding Wire.read_reply
  whole-Gives f c line q x hc h next rest r g =
      let (r1, e1, g1) = first-Gives c line hc h (q ++ rest) r (rw append_assoc at g) in
      let (r2, e2, g2) = next rest r1 g1 in (r2, rw (e1, e2) refl, g2)

  alone-Gives :
      (f c : ℕ) (line : Bytes) (x : Reply)
      → c ≢ lf
      → All (λ c. c ≢ lf) line
      → Gives S (λ r. Wire.reply_body S (suc turns) (Wire.read_reply S (suc turns) f) c line r) [] x
      → Gives S (Wire.read_reply S (suc turns) (suc f)) (c ∷ (line ++ crlf)) x
  alone-Gives f c line x hc h next rest r g =
      whole-Gives f c line [] x hc h next rest r (rw append-nil g)

  abbrev Each : (Reply → Type 0) → ReplyList → Type 0
  Each P nil = Unit
  Each P (cons x l) = P x × Each P l

  items-Gives :
      (call : Wire.Reading S.Reader Reply) (l : ReplyList)
      → Each (λ x. Gives S call (encoding (as_resp x)) x) l
      → Gives S (Wire.read_items S call (length_of l)) (items_text (as_resps l)) l
  unfolding Wire.read_items as_resps items_text
  items-Gives call nil h rest r g = (r, refl, g)
  items-Gives call (cons x l) (hx, hl) rest r g =
      let (r1, e1, g1) = hx (items_text (as_resps l) ++ rest) r (rw append_assoc at g) in
      let (r2, e2, g2) = items-Gives call l hl rest r1 g1 in (r2, rw (e1, e2) refl, g2)

  Each-sendable :
      (P : Reply → Type 0) (f : ℕ) (l : ReplyList)
      → ((x : Reply) → depth x ≤ f → IsSendable x → P x)
      → depths l ≤ f
      → AreSendable l
      → Each P l
  unfolding depths AreSendable
  Each-sendable P f nil h enough sent = tt
  Each-sendable P f (cons x l) h enough (one, sent) =
      (h x (omega arith) one, Each-sendable P f l h (omega arith) sent)

  some_depth : (x : Reply) → 1 ≤ depth x
  unfolding depth
  some_depth (integer n) = omega arith
  some_depth (bulk b) = omega arith
  some_depth (simple s) = omega arith
  some_depth (redis_error s) = omega arith
  some_depth null = omega arith
  some_depth (array l) = omega arith

  reply-Gives :
      (f : ℕ) (x : Reply)
      → depth x ≤ f
      → IsSendable x
      → Gives S (Wire.read_reply S (suc turns) f) (encoding (as_resp x)) x
  unfolding as_resp encoding array_text IsSendable depth Wire.reply_body
  reply-Gives zero x enough sent =
      let impossible : ⊥ = omega (arith, some_depth x) in elim impossible [ ]
  reply-Gives (suc f) (integer n) enough sent =
      alone-Gives f b':' (format_int n) (integer n) (omega arith) (int_line_plain n)
        (integer-Gives (Wire.read_reply S (suc turns) f) n sent)
  reply-Gives (suc f) (bulk b) enough sent =
      whole-Gives f b'$' (format_int (pos (length b))) (b ++ crlf) (bulk b) (omega arith)
        (int_line_plain (pos (length b))) (bulk-Gives (Wire.read_reply S (suc turns) f) b sent)
  reply-Gives (suc f) (simple s) enough sent =
      alone-Gives f b'+' s (simple s) (omega arith) sent (λ rest r g. (r, refl, g))
  reply-Gives (suc f) (redis_error s) enough sent =
      alone-Gives f b'-' s (redis_error s) (omega arith) sent (λ rest r g. (r, refl, g))
  reply-Gives (suc f) null enough sent =
      alone-Gives f b'$' (format_int (negsuc 0)) null (omega arith) (int_line_plain (negsuc 0))
        (null-Gives (Wire.read_reply S (suc turns) f))
  reply-Gives (suc f) (array l) enough (few, sent) =
      let call = Wire.read_reply S (suc turns) f in
      let each =
        Each-sendable (λ x. Gives S call (encoding (as_resp x)) x) f l (reply-Gives f) (omega arith)
          sent in
      rw (count-as_resps l) (
        whole-Gives f b'*' (format_int (pos (length_of l))) (items_text (as_resps l)) (array l)
          (omega arith) (int_line_plain (pos (length_of l)))
          (array-Gives call l (items_text (as_resps l)) few (items-Gives call l each)))

  -- `readReply`, with fuel for the depth of the reply and for at least one line, on a reader that holds
  -- the encoding of a sendable reply as the encoder of utils/resparse writes it, returns that reply, and
  -- leaves exactly what stands behind the encoding to be read.
  pub read_reply-encoding :
      (f : ℕ) (x : Reply) (rest : Bytes) (r : S.Reader)
      → depth x ≤ f
      → IsSendable x
      → S.Holds (encoding (as_resp x) ++ rest) r
      → (r' : S.Reader) × (Wire.read_reply S (suc turns) f r ≡ (ok x, r')) × S.Holds rest r'
  read_reply-encoding f x rest r enough sent g = reply-Gives f x enough sent rest r g
