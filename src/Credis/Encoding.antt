-- ===== src/Credis/Encoding.antt =====
-- The RESP encoding of a value as a text, which values can be encoded and decoded back, and that the
-- encoder writes that text.
use ipfs_nosql_frame.Prelude.{
  ℕ, suc, ◌+◌, ◌≤◌, ℤ, pos, negsuc, ◌≡◌, ◌≢◌, ◌⊎◌, inl, inr, refl, true, false, Bool, Option, none,
  some, [], ◌∷◌, ◌++◌, append_assoc, append-nil, Bytes, length, All, ◌==◌, if◌then◌else◌,
}
use ipfs_nosql_frame.Credis.Strconv.{format_int}
use ipfs_nosql_frame.Credis.Itoa.{itoa-eq-format_int}
use ipfs_nosql_frame.Credis.Resp.{
  Resp, RespArray, RespList, make, null, items, nil, cons, count, is_text, type_bulk_bytes,
  type_array,
}
use ipfs_nosql_frame.Credis.Source.{Sink, IoError}
use ipfs_nosql_frame.Credis.Decoder.{max_bulk_bytes_len, max_array_len, lf}
use ipfs_nosql_frame.Credis.Encoder
use ipfs_nosql_frame.Credis.Encoder.{crlf, or_empty, EncodeError, Encodes, ◌>>◌}

abbrev pub int_line : ℤ → Bytes
int_line n = format_int n ++ crlf

abbrev pub bulk_text : Option Bytes → Bytes
bulk_text none = int_line (negsuc 0)
bulk_text (some b) = int_line (pos (length b)) ++ (b ++ crlf)

abbrev pub body_text : ℕ → Option Bytes → Bytes → Bytes
body_text t v array =
    if is_text t then or_empty v ++ crlf else if t == type_bulk_bytes then bulk_text v else array

unfoldable mutual
  pub encoding : Resp → Bytes
  encoding (make t v a) = t ∷ body_text t v (array_text a)

  pub array_text : RespArray → Bytes
  array_text null = int_line (negsuc 0)
  array_text (items l) = int_line (pos (count l)) ++ items_text l

  pub items_text : RespList → Bytes
  items_text nil = []
  items_text (cons r l) = encoding r ++ items_text l

-- A value that survives the trip: a text type with a line that holds no line feed, a bulk string or an
-- array within the decoder's limits, a null bulk string or a null array.
unfoldable mutual
  pub IsValid : Resp → Type 0
  IsValid (make t (some v) null) =
      ((is_text t ≡ true) × All (λ c. c ≢ lf) v)
      ⊎ ((t ≡ type_bulk_bytes) × (length v ≤ max_bulk_bytes_len))
  IsValid (make t (some v) (items l)) = ⊥
  IsValid (make t none null) = (t ≡ type_bulk_bytes) ⊎ (t ≡ type_array)
  IsValid (make t none (items l)) = (t ≡ type_array) × (count l ≤ max_array_len) × AreValid l

  pub AreValid : RespList → Type 0
  AreValid nil = Unit
  AreValid (cons r l) = IsValid r × AreValid l

-- The number of values in a value, itself included: the fuel that decoding it takes.
unfoldable mutual
  pub nodes : Resp → ℕ
  nodes (make t v a) = suc (nodes_array a)

  pub nodes_array : RespArray → ℕ
  nodes_array null = 0
  nodes_array (items l) = nodes_list l

  pub nodes_list : RespList → ℕ
  nodes_list nil = 0
  nodes_list (cons r l) = nodes r + nodes_list l

module _ (S : Sink) where
  -- From a writer that has been given `s`, the method ends without error and has given it `p` more.
  abbrev pub Writes : Encodes S.Writer → Bytes → Type 0
  Writes m p =
      (s : Bytes) (w : S.Writer)
      → S.Wrote s w
      → (w' : S.Writer) × (m w ≡ (none, w')) × S.Wrote (s ++ p) w'

  pub seq-Writes :
      (m k : Encodes S.Writer) (p q : Bytes) → Writes m p → Writes k q → Writes (m >> k) (p ++ q)
  seq-Writes m k p q hm hk s w h =
      let (w1, e1, h1) = hm s w h in
      let (w2, e2, h2) = hk (s ++ p) w1 h1 in (w2, rw (e1, e2), rw (← append_assoc s p q) h2)

  pub lift-Writes :
      (m : S.Writer → Option IoError × S.Writer) (p : Bytes)
      → ((s : Bytes) (w : S.Writer)
          → S.Wrote s w
          → (w' : S.Writer) × (m w ≡ (none, w')) × S.Wrote (s ++ p) w')
      → Writes (Encoder.lift_io m) p
  lift-Writes m p h s w g = let (w1, e1, h1) = h s w g in (w1, rw e1, h1)

  text-Writes : (b : Bytes) → Writes (Encoder.encode_text_bytes S b) (b ++ crlf)
  unfolding Encoder.encode_text_bytes
  text-Writes b =
      seq-Writes _ _ b crlf (lift-Writes (S.write b) b (S.write_wrote b))
        (lift-Writes (S.write_string crlf) crlf (S.write_string_wrote crlf))

  int-Writes : (n : ℤ) → Writes (Encoder.encode_int S n) (int_line n)
  unfolding Encoder.encode_int
  int-Writes n = rw itoa-eq-format_int (
      seq-Writes _ _ (format_int n) crlf
        (lift-Writes (S.write_string (format_int n)) (format_int n)
          (S.write_string_wrote (format_int n)))
        (lift-Writes (S.write_string crlf) crlf (S.write_string_wrote crlf)))

  bulk-Writes : (v : Option Bytes) → Writes (Encoder.encode_bulk_bytes S v) (bulk_text v)
  unfolding Encoder.encode_bulk_bytes
  bulk-Writes none = int-Writes (negsuc 0)
  bulk-Writes (some b) =
      seq-Writes _ _ (int_line (pos (length b))) (b ++ crlf) (int-Writes (pos (length b)))
        (text-Writes b)

  body-Writes :
      (t : ℕ) (v : Option Bytes) (m : Encodes S.Writer) (p : Bytes)
      → (is_text t ≡ true) ⊎ ((t ≡ type_bulk_bytes) ⊎ (t ≡ type_array))
      → Writes m p
      → Writes (Encoder.encode_body S t v m) (body_text t v p)
  unfolding Encoder.encode_body
  body-Writes t v m p (inl text) h = rw text (text-Writes (or_empty v))
  body-Writes t v m p (inr (inl bulk)) h = rw bulk (bulk-Writes v)
  body-Writes t v m p (inr (inr array)) h = rw array h

  known :
      (t : ℕ) (v : Option Bytes) (a : RespArray)
      → IsValid (make t v a)
      → (is_text t ≡ true) ⊎ ((t ≡ type_bulk_bytes) ⊎ (t ≡ type_array))
  unfolding IsValid
  known t (some v) null (inl (text, _)) = inl text
  known t (some v) null (inr (bulk, _)) = inr (inl bulk)
  known t (some v) (items l) h = elim h [ ]
  known t none null (inl bulk) = inr (inl bulk)
  known t none null (inr array) = inr (inr array)
  known t none (items l) (array, _, _) = inr (inr array)

  -- The array of a valid value is valid.
  valid_array :
      (t : ℕ) (v : Option Bytes) (l : RespList) → IsValid (make t v (items l)) → AreValid l
  unfolding IsValid
  valid_array t (some v) l h = elim h [ ]
  valid_array t none l (_, _, h) = h

  mutual
    unfolding encoding IsValid Encoder.encode_resp

    resp-Writes : (r : Resp) → IsValid r → Writes (Encoder.encode_resp S r) (encoding r)
    resp-Writes (make t v a) h =
        seq-Writes _ _ (t ∷ []) (body_text t v (array_text a))
          (lift-Writes (S.write_byte t) (t ∷ []) (S.write_byte_wrote t))
          (body-Writes t v (Encoder.encode_array S a) (array_text a) (known t v a h)
            (array-Writes a (λ l e. valid_array t v l (rw e at h))))

    pub array-Writes :
        (a : RespArray)
        → ((l : RespList) → a ≡ items l → AreValid l)
        → Writes (Encoder.encode_array S a) (array_text a)
    array-Writes null h = int-Writes (negsuc 0)
    array-Writes (items l) h =
        seq-Writes _ _ (int_line (pos (count l))) (items_text l) (int-Writes (pos (count l)))
          (list-Writes l (h l refl))

    list-Writes : (l : RespList) → AreValid l → Writes (Encoder.encode_items S l) (items_text l)
    list-Writes nil h = λ s w g. (w, refl, rw append-nil g)
    list-Writes (cons r l) (hr, hl) =
        seq-Writes _ _ (encoding r) (items_text l) (resp-Writes r hr) (list-Writes l hl)

  -- `Encode` of a valid value, on an encoder that has not failed, returns no error, stays usable, and has
  -- given the writer exactly the encoding of the value behind what it had been given before.
  pub encode-encoding :
      (r : Resp) (flush : Bool) (s : Bytes) (e : Encoder.Encoder S)
      → IsValid r
      → e.err ≡ none
      → S.Wrote s e.bw
      → (e' : Encoder.Encoder S) × (Encoder.encode r flush e ≡ (none, e'))
        × (e'.err ≡ none)
        × S.Wrote (s ++ encoding r) e'.bw
  unfolding Encoder.encode
  encode-encoding r false s e valid fine h =
      let (w1, e1, h1) = resp-Writes r valid s e.bw h in
      (record { bw = w1; err = none }, rw (fine, e1), refl, h1)
  encode-encoding r true s e valid fine h =
      let (w1, e1, h1) = resp-Writes r valid s e.bw h in
      let (w2, e2, h2) = S.flush_wrote (s ++ encoding r) w1 h1 in
      (record { bw = w2; err = none }, rw (fine, e1, e2), refl, h2)
