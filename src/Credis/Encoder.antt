-- ===== src/Credis/Encoder.antt =====
-- encoder.go.
use ipfs_nosql_frame.Prelude.{
  ℕ, Bool, false, ℤ, pos, negsuc, Option, none, some, [], ◌∷◌, Bytes, length, ◌==◌, if◌then◌else◌,
}
use ipfs_nosql_frame.Credis.Itoa.{itoa}
use ipfs_nosql_frame.Credis.Resp.{
  Resp, RespArray, RespList, make, null, items, nil, cons, count, is_text, type_bulk_bytes,
  type_array,
}
use ipfs_nosql_frame.Credis.Source.{Sink, IoError}

pub data EncodeError : Type 0 where
  io : IoError → EncodeError
  bad_resp_type : ℕ → EncodeError
  failed_encoder : EncodeError

-- What a method of the encoder does to the writer below it; `none` is no error.
abbrev pub Encodes : Type 0 → Type 0
Encodes W = W → Option EncodeError × W

abbrev pub crlf : Bytes
crlf = b'\r' ∷ b'\n' ∷ []

abbrev pub from_io : Option IoError → Option EncodeError
from_io none = none
from_io (some e) = some (io e)

-- The bytes of a slice, which may be nil.
abbrev pub or_empty : Option Bytes → Bytes
or_empty none = []
or_empty (some b) = b

module _ {W : Type 0} where
  abbrev pub continue : Option EncodeError → Encodes W → Encodes W
  continue none k w = k w
  continue (some e) k w = (some e, w)

  infixl 5 ◌>>◌
  abbrev pub ◌>>◌ : Encodes W → Encodes W → Encodes W
  ◌>>◌ m k w = continue (m w).0 k (m w).1

  abbrev pub return : Encodes W
  return w = (none, w)

  abbrev pub fail : EncodeError → Encodes W
  fail e w = (some e, w)

  abbrev pub lift_io : (W → Option IoError × W) → Encodes W
  lift_io m w = (from_io (m w).0, (m w).1)

module _ (S : Sink) where
  unfoldable pub encode_text_bytes : Bytes → Encodes S.Writer
  encode_text_bytes b = do lift_io (S.write b); lift_io (S.write_string crlf)

  unfoldable pub encode_text_string : Bytes → Encodes S.Writer
  encode_text_string s = do lift_io (S.write_string s); lift_io (S.write_string crlf)

  unfoldable pub encode_int : ℤ → Encodes S.Writer
  unfolding encode_text_string
  encode_int v = encode_text_string (itoa v)

  unfoldable pub encode_bulk_bytes : Option Bytes → Encodes S.Writer
  unfolding encode_int encode_text_bytes
  encode_bulk_bytes none = encode_int (negsuc 0)
  encode_bulk_bytes (some b) = do encode_int (pos (length b)); encode_text_bytes b

  -- The switch on the type, given what the two sorts of content are encoded to.
  unfoldable pub encode_body : ℕ → Option Bytes → Encodes S.Writer → Encodes S.Writer
  unfolding encode_text_bytes encode_bulk_bytes
  encode_body t v array =
      if is_text t
      then encode_text_bytes (or_empty v)
      else if t == type_bulk_bytes
      then encode_bulk_bytes v
      else if t == type_array
      then array
      else fail (bad_resp_type t)

  unfoldable mutual
    unfolding encode_body encode_int

    pub encode_resp : Resp → Encodes S.Writer
    encode_resp (make t v a) = do lift_io (S.write_byte t); encode_body t v (encode_array a)

    pub encode_array : RespArray → Encodes S.Writer
    encode_array null = encode_int (negsuc 0)
    encode_array (items l) = do encode_int (pos (count l)); encode_items l

    pub encode_items : RespList → Encodes S.Writer
    encode_items nil = return
    encode_items (cons r l) = do encode_resp r; encode_items l

  unfoldable pub encode_multi_bulk_body : RespArray → Encodes S.Writer
  unfolding encode_resp
  encode_multi_bulk_body multi = do lift_io (S.write_byte type_array); encode_array multi

-- Encoder{bw, Err}
pub record Encoder (S : Sink) : Type 0 where
  pub bw : S.Writer
  pub err : Option EncodeError

module _ {S : Sink} where
  -- The common body of Encode and EncodeMultiBulk: encode, then flush if that is asked for.
  abbrev pub run : Encodes S.Writer → Bool → Encoder S → Option EncodeError × Encoder S
  run m flush e = elim e.err [
    | some _ ↦ (some failed_encoder, e)
    | none ↦
        let (er, w) = (m >> (if flush then lift_io S.flush else return)) e.bw in
        (er, record { bw = w; err = er })
  ]

  unfoldable pub encode : Resp → Bool → Encoder S → Option EncodeError × Encoder S
  unfolding encode_resp
  encode r flush e = run (encode_resp S r) flush e

  unfoldable pub encode_multi_bulk : RespArray → Bool → Encoder S → Option EncodeError × Encoder S
  unfolding encode_multi_bulk_body
  encode_multi_bulk multi flush e = run (encode_multi_bulk_body S multi) flush e

  unfoldable pub flush : Encoder S → Option EncodeError × Encoder S
  flush e = run (lift_io S.flush) false e
