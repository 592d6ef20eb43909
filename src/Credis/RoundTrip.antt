-- ===== src/Credis/RoundTrip.antt =====
-- Decoding what the encoder writes.
use ipfs_nosql_frame.Prelude.{
  ℕ, zero, suc, ◌+◌, ◌≤◌, ℤ, pos, negsuc, ◌≡◌, ◌≢◌, inl, inr, refl, false, Option, none, some, [],
  ◌∷◌, ◌++◌, append_assoc, arith, Bytes, length, length-append, All, ok, ltb,
}
use ipfs_nosql_frame.Credis.Strconv.{format_int, parse_int-format_int}
use ipfs_nosql_frame.Credis.Number.{btoi64-eq-parse_int}
use ipfs_nosql_frame.Credis.Resp.{Resp, RespArray, RespList, make, null, items, nil, cons, count}
use ipfs_nosql_frame.Credis.Source.{Source}
use ipfs_nosql_frame.Credis.Decoder
use ipfs_nosql_frame.Credis.Decoder.{Decodes, max_bulk_bytes_len, max_array_len, lf, cr, ◌>>=◌}
use ipfs_nosql_frame.Credis.Encoder.{crlf, or_empty}
use ipfs_nosql_frame.Credis.Encoding.{
  int_line, bulk_text, body_text, encoding, array_text, items_text, IsValid, AreValid, nodes,
  nodes_array, nodes_list,
}
use ipfs_nosql_frame.Credis.Lines.{
  strip_crlf-line, strip_bulk-text, IsShort, format_int-line, IsShort-IsInt64, line_assoc, line_end,
  line-ne-lf,
}

-- What holds of each value of a list, and of an array that is within the decoder's limit.
abbrev pub Each : (Resp → Type 0) → RespList → Type 0
Each P nil = Unit
Each P (cons x l) = P x × Each P l

abbrev pub EachOf : (Resp → Type 0) → RespArray → Type 0
EachOf P null = Unit
EachOf P (items l) = (count l ≤ max_array_len) × Each P l

Each-valid :
    (P : Resp → Type 0) (f : ℕ) (l : RespList)
    → ((x : Resp) → nodes x ≤ f → IsValid x → P x)
    → nodes_list l ≤ f
    → AreValid l
    → Each P l
unfolding nodes_list AreValid
Each-valid P f nil h enough valid = tt
Each-valid P f (cons x l) h enough (vx, vl) =
    (h x (omega arith) vx, Each-valid P f l h (omega arith) vl)

-- What holds of every valid value of at most `f` nodes holds of the elements of a valid one of `f + 1`.
valid_parts :
    (P : Resp → Type 0) (f t : ℕ) (v : Option Bytes) (a : RespArray)
    → ((x : Resp) → nodes x ≤ f → IsValid x → P x)
    → nodes_array a ≤ f
    → IsValid (make t v a)
    → EachOf P a
unfolding nodes_array IsValid
valid_parts P f t v null h enough valid = tt
valid_parts P f t (some v) (items l) h enough valid = elim valid [ ]
valid_parts P f t none (items l) h enough (_, few, valid) = (few, Each-valid P f l h enough valid)

module _ (S : Source) (room : 32 ≤ S.size) where
  -- From a reader that holds `p` and more, the method returns `a` and leaves what follows `p`.
  abbrev pub Reads : {A : Type 0} → Decodes S.Reader A → Bytes → A → Type 0
  Reads m p a =
      (rest : Bytes) (r : S.Reader)
      → S.Holds (p ++ rest) r
      → (r' : S.Reader) × (m r ≡ (ok a, r')) × S.Holds rest r'

  pub seq-Reads :
      {A B : Type 0} (m : Decodes S.Reader A) (f : A → Decodes S.Reader B) (p q : Bytes) (a : A)
      (b : B)
      → Reads m p a
      → Reads (f a) q b
      → Reads (m >>= f) (p ++ q) b
  seq-Reads m f p q a b hm hf rest r h =
      let (r1, e1, h1) = hm (q ++ rest) r (rw append_assoc at h) in
      let (r2, e2, h2) = hf rest r1 h1 in (r2, rw (e1, e2), h2)

  text-Reads : (v : Bytes) → All (λ c. c ≢ lf) v → Reads (Decoder.decode_text_bytes S) (v ++ crlf) v
  unfolding Decoder.decode_text_bytes
  text-Reads v h rest r g =
      let (r1, e1, h1) =
        S.read_bytes_holds lf (v ++ cr ∷ []) rest r (line-ne-lf v h) (rw line_assoc at g) in
      (r1, rw (e1, line_end) (rw strip_crlf-line), h1)

  pub int-Reads : (z : ℤ) → IsShort z → Reads (Decoder.decode_int S) (int_line z) z
  unfolding Decoder.decode_int
  int-Reads z h rest r g =
      let (no_lf, short) = format_int-line z h in
      let (r1, e1, h1) =
        S.read_slice_holds lf (format_int z ++ cr ∷ []) rest r (line-ne-lf _ no_lf)
          (omega (arith, length-append {0} (format_int z) (cr ∷ []))) (rw line_assoc at g) in
      (
        r1,
        rw (e1, line_end)
            (rw
              (strip_crlf-line, btoi64-eq-parse_int, parse_int-format_int z (IsShort-IsInt64 z h))),
        h1,
      )

  pub byte-Reads : (t : ℕ) → Reads (Decoder.lift_io S.read_byte) (t ∷ []) t
  byte-Reads t rest r g = let (r1, e1, h1) = S.read_byte_holds t rest r g in (r1, rw e1, h1)

  bulk_body-Reads :
      (b : Bytes)
      → length b ≤ max_bulk_bytes_len
      → Reads (Decoder.bulk_body S (pos (length b))) (b ++ crlf) (some b)
  unfolding Decoder.bulk_body
  bulk_body-Reads b small rest r g =
      let (r1, e1, h1) = S.read_full_holds (b ++ crlf) rest r g in
      let size : length (b ++ crlf) ≡ length b + 2 = omega (arith, length-append {0} b crlf) in
      let fits : ltb max_bulk_bytes_len (length b) ≡ false = ground arith in
      (r1, rw (fits, ← size, e1, strip_bulk-text), h1)

  bulk-Reads :
      (v : Option Bytes)
      → length (or_empty v) ≤ max_bulk_bytes_len
      → Reads (Decoder.decode_bulk_bytes S) (bulk_text v) v
  unfolding Decoder.decode_bulk_bytes Decoder.bulk_body
  bulk-Reads none small rest r g =
      let (r1, e1, h1) = int-Reads (negsuc 0) (omega arith) rest r g in (r1, rw e1, h1)
  bulk-Reads (some b) small rest r g =
      seq-Reads (Decoder.decode_int S) (Decoder.bulk_body S) (int_line (pos (length b))) (b ++ crlf)
        (pos (length b)) (some b) (int-Reads (pos (length b)) (omega arith))
        (bulk_body-Reads b small) rest r g

  null-Reads : Reads (Decoder.decode_bulk_bytes S) (bulk_text none) none
  null-Reads = bulk-Reads none (omega arith)

  -- The loop over the elements, when the call decodes each of them.
  pub items-Reads :
      (call : Decodes S.Reader Resp) (l : RespList)
      → Each (λ x. Reads call (encoding x) x) l
      → Reads (Decoder.decode_items S call (count l)) (items_text l) l
  unfolding Decoder.decode_items items_text
  items-Reads call nil h rest r g = (r, refl, g)
  items-Reads call (cons x l) (hx, hl) rest r g =
      let (r1, e1, h1) = hx (items_text l ++ rest) r (rw append_assoc at g) in
      let (r2, e2, h2) = items-Reads call l hl rest r1 h1 in (r2, rw (e1, e2), h2)

  array-Reads :
      (call : Decodes S.Reader Resp) (a : RespArray)
      → EachOf (λ x. Reads call (encoding x) x) a
      → Reads (Decoder.decode_array S call) (array_text a) a
  unfolding Decoder.decode_array Decoder.array_body array_text
  array-Reads call null h rest r g =
      let (r1, e1, h1) = int-Reads (negsuc 0) (omega arith) rest r g in (r1, rw e1, h1)
  array-Reads call (items l) (few, h) rest r g =
      let (r1, e1, h1) =
        int-Reads (pos (count l)) (omega arith) (items_text l ++ rest) r (rw append_assoc at g) in
      let (r2, e2, h2) = items-Reads call l h rest r1 h1 in
      let fits : ltb max_array_len (count l) ≡ false = ground arith in (r2, rw (e1, fits, e2), h2)

  -- The switch on the type byte, given that the call decodes each element.
  body-Reads :
      (call : Decodes S.Reader Resp) (t : ℕ) (v : Option Bytes) (a : RespArray)
      → IsValid (make t v a)
      → EachOf (λ x. Reads call (encoding x) x) a
      → Reads (Decoder.resp_body S call t) (body_text t v (array_text a)) (make t v a)
  unfolding Decoder.resp_body IsValid
  body-Reads call t (some v) null (inl (text, no_lf)) h rest r g =
      let (r1, e1, h1) = text-Reads v no_lf rest r (rw text at g) in (r1, rw (text, e1), h1)
  body-Reads call t (some v) null (inr (bulk, small)) h rest r g =
      let (r1, e1, h1) = bulk-Reads (some v) small rest r (rw bulk at g) in (r1, rw (bulk, e1), h1)
  body-Reads call t (some v) (items l) valid h rest r g = elim valid [ ]
  body-Reads call t none null (inl bulk) h rest r g =
      let (r1, e1, h1) = null-Reads rest r (rw bulk at g) in (r1, rw (bulk, e1), h1)
  body-Reads call t none null (inr array) h rest r g =
      let (r1, e1, h1) = array-Reads call null h rest r (rw array at g) in (r1, rw (array, e1), h1)
  body-Reads call t none (items l) (array, _, _) h rest r g =
      let (r1, e1, h1) = array-Reads call (items l) h rest r (rw array at g) in
      (r1, rw (array, e1), h1)

  -- By recursion on the fuel: what a value holds takes less fuel than it.
  pub resp-Reads :
      (f : ℕ) (x : Resp) → nodes x ≤ f → IsValid x → Reads (Decoder.decode_resp S f) (encoding x) x
  unfolding Decoder.decode_resp encoding nodes IsValid
  resp-Reads zero (make t v a) enough valid = let absurd : ⊥ = omega arith in elim absurd [ ]
  resp-Reads (suc f) (make t v a) enough valid =
      seq-Reads (Decoder.lift_io S.read_byte) (Decoder.resp_body S (Decoder.decode_resp S f))
        (t ∷ []) (body_text t v (array_text a)) t (make t v a) (byte-Reads t)
        (body-Reads (Decoder.decode_resp S f) t v a valid
          (valid_parts _ f t v a (resp-Reads f) (omega arith) valid))

  -- `Decode`, with as much fuel as the value has nodes, on a decoder that has not failed, whose reader has
  -- a buffer of at least 32 bytes and holds the encoding of a valid value, returns that value, stays
  -- usable, and leaves exactly what stands behind the encoding to be read.
  pub decode-encoding :
      (f : ℕ) (x : Resp) (rest : Bytes) (d : Decoder.Decoder S)
      → nodes x ≤ f
      → IsValid x
      → d.err ≡ none
      → S.Holds (encoding x ++ rest) d.br
      → (d' : Decoder.Decoder S) × (Decoder.decode f d ≡ (ok x, d'))
        × (d'.err ≡ none)
        × S.Holds rest d'.br
  unfolding Decoder.decode
  decode-encoding f x rest d enough valid fine h =
      let (r1, e1, h1) = resp-Reads f x enough valid rest d.br h in
      (record { br = r1; err = none }, rw (fine, e1), refl, h1)
