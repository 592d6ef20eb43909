-- ===== src/Credis/Decoder.antt =====
-- decoder.go. The recursion of decodeResp takes fuel, and `stuck` means that it ran out. With an error the
-- code may also return a part of a value, which is left out here.
use ipfs_nosql_frame.Prelude.{
  ℕ, zero, suc, ◌+◌, ◌-◌, ◌*◌, ℤ, pos, negsuc, ◌&&◌, Option, none, some, [], ◌∷◌, ◌++◌, Bytes,
  length, take, get_or, ltb, ◌==◌, if◌then◌else◌, Result, ok, err,
}
use ipfs_nosql_frame.Credis.Number.{btoi64}
use ipfs_nosql_frame.Credis.Resp.{
  Resp, RespArray, RespList, make, null, items, nil, cons, is_text, resp_type, type_bulk_bytes,
  type_array, new_bulk_bytes,
}
use ipfs_nosql_frame.Credis.Source.{Source, IoError}

pub data DecodeError : Type 0 where
  io : IoError → DecodeError
  bad_resp_type : ℕ → DecodeError
  bad_number bad_crlf_end bad_array_len bad_array_len_too_long : DecodeError
  bad_bulk_bytes_len bad_bulk_bytes_len_too_long : DecodeError
  bad_multi_bulk_len bad_multi_bulk_content failed_decoder stuck : DecodeError

abbrev pub max_bulk_bytes_len : ℕ
max_bulk_bytes_len = 1024 * 1024 * 512

abbrev pub max_array_len : ℕ
max_array_len = 1024 * 1024

abbrev pub cr : ℕ
cr = b'\r'

abbrev pub lf : ℕ
lf = b'\n'

-- `n := len(b) - 2; n < 0 || b[n] != '\r'` and `b[:n]`
unfoldable pub strip_crlf : Bytes → Result DecodeError Bytes
strip_crlf b =
    if ltb (length b) 2
    then err bad_crlf_end
    else if get_or b (length b - 2) 0 == cr
    then ok (take (length b - 2) b)
    else err bad_crlf_end

-- `b[n] != '\r' || b[n+1] != '\n'` and `b[:n]`
unfoldable pub strip_bulk : ℕ → Bytes → Result DecodeError (Option Bytes)
strip_bulk n b =
    if get_or b n 0 == cr && get_or b (n + 1) 0 == lf
    then ok (some (take n b))
    else err bad_crlf_end

-- What `b[l:r]` adds to `multi`: nothing if it is empty.
unfoldable pub flush_word : Bytes → RespList → RespList
flush_word [] l = l
flush_word (c ∷ w) l = cons (new_bulk_bytes (some (c ∷ w))) l

-- The loop over the line: `w` is what stands between `l` and `r`.
unfoldable pub split_words : Bytes → Bytes → RespList
unfolding flush_word
split_words [] w = flush_word w nil
split_words (c ∷ b) w =
    let next = split_words b [] in
    let more = split_words b (w ++ c ∷ []) in if c == b' ' then flush_word w next else more

unfoldable pub single_line : Bytes → Result DecodeError RespArray
unfolding split_words
single_line [] = ok null
single_line (c ∷ b) = elim (split_words (c ∷ b) []) [
  | nil ↦ err bad_multi_bulk_len
  | cons r l ↦ ok (items (cons r l))
]

-- What a method of the decoder does to the reader below it.
abbrev pub Decodes : Type 0 → Type 0 → Type 0
Decodes R A = R → Result DecodeError A × R

abbrev pub from_io : {A : Type 0} → Result IoError A → Result DecodeError A
from_io (ok a) = ok a
from_io (err e) = err (io e)

abbrev pub or_bad_number : Option ℤ → Result DecodeError ℤ
or_bad_number none = err bad_number
or_bad_number (some n) = ok n

module _ {R : Type 0} where
  abbrev pub continue : {A B : Type 0} → Result DecodeError A → (A → Decodes R B) → Decodes R B
  continue (ok a) f r = f a r
  continue (err e) f r = (err e, r)

  infixl 5 ◌>>=◌ ◌>>◌
  abbrev pub ◌>>=◌ : {A B : Type 0} → Decodes R A → (A → Decodes R B) → Decodes R B
  ◌>>=◌ m f r = continue (m r).0 f (m r).1

  abbrev pub ◌>>◌ : {A B : Type 0} → Decodes R A → Decodes R B → Decodes R B
  m >> k = m >>= λ _. k

  abbrev pub pure : {A : Type 0} → A → Decodes R A
  pure a r = (ok a, r)

  abbrev pub fail : {A : Type 0} → DecodeError → Decodes R A
  fail e r = (err e, r)

  abbrev pub lift_io : {A : Type 0} → (R → Result IoError A × R) → Decodes R A
  lift_io m r = (from_io (m r).0, (m r).1)

  abbrev pub lift : {A : Type 0} → Result DecodeError A → Decodes R A
  lift x r = (x, r)

module _ (S : Source) where
  unfoldable pub decode_text_bytes : Decodes S.Reader Bytes
  unfolding strip_crlf
  decode_text_bytes = do b ← lift_io (S.read_bytes lf); lift (strip_crlf b)

  unfoldable pub decode_int : Decodes S.Reader ℤ
  unfolding strip_crlf
  decode_int = do
    b ← lift_io (S.read_slice lf)
    line ← lift (strip_crlf b)
    lift (or_bad_number (btoi64 line))

  -- The switch on the length of a bulk string.
  unfoldable pub bulk_body : ℤ → Decodes S.Reader (Option Bytes)
  unfolding strip_bulk
  bulk_body (negsuc zero) = pure none
  bulk_body (negsuc (suc n)) = fail bad_bulk_bytes_len
  bulk_body (pos n) =
      if ltb max_bulk_bytes_len n
      then fail bad_bulk_bytes_len_too_long
      else do b ← lift_io (S.read_full (n + 2)); lift (strip_bulk n b)

  unfoldable pub decode_bulk_bytes : Decodes S.Reader (Option Bytes)
  unfolding decode_int bulk_body
  decode_bulk_bytes = do n ← decode_int; bulk_body n

  -- The loop over the elements of an array, given the call that decodes one.
  unfoldable pub decode_items : Decodes S.Reader Resp → ℕ → Decodes S.Reader RespList
  decode_items call zero = pure nil
  decode_items call (suc n) = do r ← call; l ← decode_items call n; pure (cons r l)

  -- The switch on the length of an array.
  unfoldable pub array_body : Decodes S.Reader Resp → ℤ → Decodes S.Reader RespArray
  unfolding decode_items
  array_body call (negsuc zero) = pure null
  array_body call (negsuc (suc n)) = fail bad_array_len
  array_body call (pos n) =
      if ltb max_array_len n
      then fail bad_array_len_too_long
      else do l ← decode_items call n; pure (items l)

  unfoldable pub decode_array : Decodes S.Reader Resp → Decodes S.Reader RespArray
  unfolding decode_int array_body
  decode_array call = do n ← decode_int; array_body call n

  -- The switch on the type byte.
  unfoldable pub resp_body : Decodes S.Reader Resp → ℕ → Decodes S.Reader Resp
  unfolding decode_text_bytes decode_bulk_bytes decode_array
  resp_body call t =
      if is_text t
      then (do v ← decode_text_bytes; pure (make t (some v) null))
      else if t == type_bulk_bytes
      then (do v ← decode_bulk_bytes; pure (make t v null))
      else if t == type_array
      then (do a ← decode_array call; pure (make t none a))
      else fail (bad_resp_type t)

  unfoldable pub decode_resp : ℕ → Decodes S.Reader Resp
  unfolding resp_body
  decode_resp zero = fail stuck
  decode_resp (suc f) = do t ← lift_io S.read_byte; resp_body (decode_resp f) t

  unfoldable pub decode_single_line_multi_bulk : Decodes S.Reader RespArray
  unfolding decode_text_bytes single_line
  decode_single_line_multi_bulk = do b ← decode_text_bytes; lift (single_line b)

  -- One element of a multi-bulk request, which must be a bulk string.
  unfoldable pub decode_bulk_item : Decodes S.Reader Resp → Decodes S.Reader Resp
  decode_bulk_item call = do
    r ← call
    if resp_type r == type_bulk_bytes then pure r else fail bad_multi_bulk_content

  -- The switch on the number of elements of a multi-bulk request.
  unfoldable pub multi_body : Decodes S.Reader Resp → ℤ → Decodes S.Reader RespArray
  unfolding decode_items decode_bulk_item
  multi_body call (negsuc n) = fail bad_array_len
  multi_body call (pos zero) = fail bad_array_len
  multi_body call (pos (suc n)) =
      if ltb max_array_len (suc n)
      then fail bad_array_len_too_long
      else do l ← decode_items (decode_bulk_item call) (suc n); pure (items l)

  unfoldable pub decode_multi_bulk_body : ℕ → Decodes S.Reader RespArray
  unfolding decode_single_line_multi_bulk decode_int multi_body decode_resp
  decode_multi_bulk_body f = do
    b ← lift_io S.peek_byte
    if b == type_array
        then (do lift_io S.read_byte; n ← decode_int; multi_body (decode_resp f) n)
        else decode_single_line_multi_bulk

-- The error that `Decode` and `DecodeMultiBulk` keep.
abbrev pub keep : {A : Type 0} → Result DecodeError A → Option DecodeError
keep (ok a) = none
keep (err e) = some e

-- Decoder{br, Err}
pub record Decoder (S : Source) : Type 0 where
  pub br : S.Reader
  pub err : Option DecodeError

module _ {S : Source} where
  abbrev pub run : {A : Type 0} → Decodes S.Reader A → Decoder S → Result DecodeError A × Decoder S
  run m d = elim d.err [
    | some e ↦ (err failed_decoder, d)
    | none ↦ ((m d.br).0, record { br = (m d.br).1; err = keep (m d.br).0 })
  ]

  unfoldable pub decode : ℕ → Decoder S → Result DecodeError Resp × Decoder S
  unfolding decode_resp
  decode f d = run (decode_resp S f) d

  unfoldable pub decode_multi_bulk : ℕ → Decoder S → Result DecodeError RespArray × Decoder S
  unfolding decode_multi_bulk_body
  decode_multi_bulk f d = run (decode_multi_bulk_body S f) d
