-- ===== src/Credis/Requests.antt =====
-- The requests of a client: arrays of bulk strings, as EncodeMultiBulk writes and DecodeMultiBulk reads
-- them.
use ipfs_nosql_frame.Prelude.{
  ℕ, suc, ◌≤◌, ◌≡◌, refl, true, false, Bool, none, some, [], ◌∷◌, ◌++◌, append_assoc, arith, Bytes,
  ltb, pos, ok,
}
use ipfs_nosql_frame.Credis.Resp.{
  Resp, RespList, make, null, items, nil, cons, count, resp_type, type_bulk_bytes, type_array,
}
use ipfs_nosql_frame.Credis.Source.{Source, Sink}
use ipfs_nosql_frame.Credis.Decoder
use ipfs_nosql_frame.Credis.Decoder.{Decodes, max_array_len}
use ipfs_nosql_frame.Credis.Encoder
use ipfs_nosql_frame.Credis.Encoding.{
  encoding, array_text, items_text, IsValid, AreValid, nodes, array-Writes, Writes, seq-Writes,
  lift-Writes,
}
use ipfs_nosql_frame.Credis.RoundTrip.{Reads, Each, int-Reads, items-Reads, resp-Reads}

-- A request: at least one element and not too many, and each of them a bulk string within the limit.
abbrev pub IsRequest : RespList → Type 0
IsRequest l =
    (1 ≤ count l)
    × (count l ≤ max_array_len)
    × Each (λ x. IsValid x × (resp_type x ≡ type_bulk_bytes)) l

abbrev pub request_text : RespList → Bytes
request_text l = type_array ∷ array_text (items l)

requests_valid :
    (l : RespList) → Each (λ x. IsValid x × (resp_type x ≡ type_bulk_bytes)) l → AreValid l
unfolding AreValid
requests_valid nil h = tt
requests_valid (cons x l) ((valid, _), h) = (valid, requests_valid l h)

nodes_bulk : (x : Resp) → IsValid x → resp_type x ≡ type_bulk_bytes → nodes x ≤ 1
unfolding IsValid nodes
nodes_bulk (make t v null) valid bulk = omega arith
nodes_bulk (make t (some v) (items l)) valid bulk = elim valid [ ]
nodes_bulk (make t none (items l)) (array, _, _) bulk =
    let absurd : ⊥ = omega arith in elim absurd [ ]

same_valid : (l m : RespList) → AreValid l → items l ≡ items m → AreValid m
same_valid l m valid e = let same : l ≡ m = cc in rw (← same) valid

request-Writes :
    (S : Sink) (l : RespList)
    → AreValid l
    → Writes S (Encoder.encode_multi_bulk_body S (items l)) (request_text l)
unfolding Encoder.encode_multi_bulk_body
request-Writes S l valid =
    seq-Writes S _ _ (type_array ∷ []) (array_text (items l))
      (lift-Writes S (S.write_byte type_array) (type_array ∷ []) (S.write_byte_wrote type_array))
      (array-Writes S (items l) (λ m same. same_valid l m valid same))

-- `EncodeMultiBulk` of a request, on an encoder that has not failed, returns no error, stays usable, and
-- has given the writer the encoding of the array behind what it had been given before.
pub encode_multi_bulk-request :
    (S : Sink) (l : RespList) (flush : Bool) (s : Bytes) (e : Encoder.Encoder S)
    → IsRequest l
    → e.err ≡ none
    → S.Wrote s e.bw
    → (e' : Encoder.Encoder S) × (Encoder.encode_multi_bulk (items l) flush e ≡ (none, e'))
      × (e'.err ≡ none)
      × S.Wrote (s ++ request_text l) e'.bw
unfolding Encoder.encode_multi_bulk
encode_multi_bulk-request S l false s e (_, _, valid) fine h =
    let (w1, e1, h1) = request-Writes S l (requests_valid l valid) s e.bw h in
    (record { bw = w1; err = none }, rw (fine, e1), refl, h1)
encode_multi_bulk-request S l true s e (_, _, valid) fine h =
    let (w1, e1, h1) = request-Writes S l (requests_valid l valid) s e.bw h in
    let (w2, e2, h2) = S.flush_wrote (s ++ request_text l) w1 h1 in
    (record { bw = w2; err = none }, rw (fine, e1, e2), refl, h2)

within : (n : ℕ) → n ≤ max_array_len → ltb max_array_len n ≡ false
within n h = ground arith

module _ (S : Source) (room : 32 ≤ S.size) where
  bulk_item-Reads :
      (call : Decodes S.Reader Resp) (x : Resp)
      → resp_type x ≡ type_bulk_bytes
      → Reads S room call (encoding x) x
      → Reads S room (Decoder.decode_bulk_item S call) (encoding x) x
  unfolding Decoder.decode_bulk_item
  bulk_item-Reads call x bulk h rest r g = let (r1, e1, h1) = h rest r g in (r1, rw (e1, bulk), h1)

  bulk_items :
      (f : ℕ) (l : RespList)
      → Each (λ x. IsValid x × (resp_type x ≡ type_bulk_bytes)) l
      → Each
          (λ x.
            Reads S room
              (Decoder.decode_bulk_item S (Decoder.decode_resp S (suc f)))
              (encoding x)
              x)
          l
  bulk_items f nil h = tt
  bulk_items f (cons x l) ((valid, bulk), h) = (
    bulk_item-Reads (Decoder.decode_resp S (suc f)) x bulk
        (resp-Reads S room (suc f) x (omega (arith, nodes_bulk x valid bulk)) valid),
    bulk_items f l h,
  )

  -- `DecodeMultiBulk`, with any fuel but 0, on a decoder that has not failed, whose reader has a buffer of
  -- at least 32 bytes and holds the encoding of a request, returns the request, stays usable, and leaves
  -- exactly what stands behind it to be read.
  pub decode_multi_bulk-request :
      (f : ℕ) (l : RespList) (rest : Bytes) (d : Decoder.Decoder S)
      → IsRequest l
      → d.err ≡ none
      → S.Holds (request_text l ++ rest) d.br
      → (d' : Decoder.Decoder S) × (Decoder.decode_multi_bulk (suc f) d ≡ (ok (items l), d'))
        × (d'.err ≡ none)
        × S.Holds rest d'.br
  unfolding Decoder.decode_multi_bulk Decoder.decode_multi_bulk_body Decoder.multi_body array_text
  decode_multi_bulk-request f nil rest d (some_item, _, _) fine h =
      let absurd : ⊥ = omega arith in elim absurd [ ]
  decode_multi_bulk-request f (cons x l) rest d (_, few, valid) fine h =
      let (r1, e1, h1) =
        S.peek_byte_holds type_array (array_text (items (cons x l)) ++ rest) d.br h in
      let (r2, e2, h2) =
        S.read_byte_holds type_array (array_text (items (cons x l)) ++ rest) r1 h1 in
      let (r3, e3, h3) =
        int-Reads S room (pos (count (cons x l))) (omega arith) (items_text (cons x l) ++ rest) r2
          (rw append_assoc at h2) in
      let (r4, e4, h4) =
        items-Reads S room (Decoder.decode_bulk_item S (Decoder.decode_resp S (suc f))) (cons x l)
          (bulk_items f (cons x l) valid) rest r3 h3 in
      let fits : ltb max_array_len (count (cons x l)) ≡ false = within (count (cons x l)) few in
      (record { br = r4; err = none }, rw (fine, e1, e2, e3, fits, e4), refl, h4)
