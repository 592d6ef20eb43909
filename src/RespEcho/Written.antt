-- ===== src/RespEcho/Written.antt =====
-- writer.go: what its methods write, as encodings of utils/resparse.
use ipfs_nosql_frame.Prelude.{
  suc, ℤ, pos, negsuc, ◌≡◌, refl, ap, subst, Option, none, some, List, [], ◌∷◌, ◌++◌, append_assoc,
  append-nil, Bytes, codes, length, All,
}
use ipfs_nosql_frame.Credis.Strconv.{format_int, format_nat}
use ipfs_nosql_frame.Credis.Encoder.{crlf}
use ipfs_nosql_frame.Credis.Resp.{
  Resp, RespList, make, null, items, nil, cons, count, type_string, type_error, type_int,
  type_bulk_bytes, type_array,
}
use ipfs_nosql_frame.Credis.Encoding.{encoding, items_text, int_line}
use ipfs_nosql_frame.Bufio2.Conn.{Outbound}
use ipfs_nosql_frame.RespEcho.Writer
use ipfs_nosql_frame.RespEcho.Writer.{
  Obj, nothing, bytes, string, int, int32, int64, other, EchoError, ◌>>◌, ◌>>?◌, nil_bulk,
  nil_array,
}

-- The value that a client reads for what WriteObjects is given.
abbrev pub obj_resp : Obj → Resp
obj_resp nothing = make type_bulk_bytes none null
obj_resp (bytes v) = make type_bulk_bytes v null
obj_resp (string s) = make type_bulk_bytes (some s) null
obj_resp (int n) = make type_int (some (format_int n)) null
obj_resp (int32 n) = make type_int (some (format_int n)) null
obj_resp (int64 n) = make type_int (some (format_int n)) null
obj_resp other = make type_bulk_bytes none null

abbrev pub obj_resps : List Obj → RespList
obj_resps [] = nil
obj_resps (v ∷ l) = cons (obj_resp v) (obj_resps l)

-- WriteObjects has no case for the type `other`.
abbrev pub IsSupported : Obj → Type 0
IsSupported nothing = Unit
IsSupported (bytes v) = Unit
IsSupported (string s) = Unit
IsSupported (int n) = Unit
IsSupported (int32 n) = Unit
IsSupported (int64 n) = Unit
IsSupported other = ⊥

count-obj_resps : (l : List Obj) → count (obj_resps l) ≡ length l
count-obj_resps [] = refl
count-obj_resps (v ∷ l) = ap suc (count-obj_resps l)

minus_one : int_line (negsuc 0) ≡ codes "-1" ++ crlf
unfolding format_int format_nat
minus_one = refl

bulk_parts : (a b c d e : Bytes) → ((((a ++ b) ++ c) ++ d) ++ e) ≡ (a ++ ((b ++ c) ++ (d ++ e)))
bulk_parts a b c d e = simp append_assoc

module _ (O : Outbound) where
  -- On a connection that works and has got `s`, the method returns no error and has sent it `p` more.
  abbrev pub Adds : Writer.Writes O → Bytes → Type 0
  Adds m p =
      (s : Bytes) (c : O.Conn) → O.Got s c → (c' : O.Conn) × (m c ≡ (none, c')) × O.Got (s ++ p) c'

  write-Adds : (p : Bytes) → Adds (Writer.write O p) p
  unfolding Writer.write
  write-Adds p s c h = let (c', runs, got) = O.write_got p s c h in (c', rw runs, got)

  seq-Adds : (m k : Writer.Writes O) (p q : Bytes) → Adds m p → Adds k q → Adds (m >> k) (p ++ q)
  seq-Adds m k p q hm hk s c h =
      let (c1, e1, h1) = hm s c h in
      let (c2, e2, h2) = hk (s ++ p) c1 h1 in (c2, rw (e1, e2), rw (← append_assoc s p q) h2)

  try-Adds : (m k : Writer.Writes O) (p q : Bytes) → Adds m p → Adds k q → Adds (m >>? k) (p ++ q)
  try-Adds m k p q hm hk s c h =
      let (c1, e1, h1) = hm s c h in
      let (c2, e2, h2) = hk (s ++ p) c1 h1 in (c2, rw (e1, e2), rw (← append_assoc s p q) h2)

  same-Adds : (m : Writer.Writes O) {p q : Bytes} → p ≡ q → Adds m p → Adds m q
  same-Adds m e h = subst (λ x. Adds m x) e h

  -- A line of three writes.
  line-Adds :
      (t b : Bytes)
      → Adds (Writer.write O t >> Writer.write O b >> Writer.write O crlf) ((t ++ b) ++ crlf)
  line-Adds t b =
      seq-Adds (Writer.write O t >> Writer.write O b) (Writer.write O crlf) (t ++ b) crlf
        (seq-Adds (Writer.write O t) (Writer.write O b) t b (write-Adds t) (write-Adds b))
        (write-Adds crlf)

  pub int-Adds :
      (n : ℤ) → Adds (Writer.write_int O n) (encoding (make type_int (some (format_int n)) null))
  unfolding Writer.write_int encoding
  int-Adds n = line-Adds (codes ":") (format_int n)

  pub simple_string-Adds :
      (s : Bytes)
      → Adds (Writer.write_simple_string O s) (encoding (make type_string (some s) null))
  unfolding Writer.write_simple_string encoding
  simple_string-Adds s = line-Adds (codes "+") s

  pub error-Adds :
      (s : Bytes) → Adds (Writer.write_error O s) (encoding (make type_error (some s) null))
  unfolding Writer.write_error encoding
  error-Adds s = line-Adds (codes "-") s

  pub bulk-Adds :
      (v : Option Bytes) → Adds (Writer.write_bulk O v) (encoding (make type_bulk_bytes v null))
  unfolding Writer.write_bulk encoding
  bulk-Adds none = rw minus_one (write-Adds nil_bulk)
  bulk-Adds (some b) =
      let size = format_int (pos (length b)) in
      let line = Writer.write O (codes "$") >> Writer.write O size >> Writer.write O crlf in
      let start = (codes "$" ++ size) ++ crlf in
      same-Adds (line >> Writer.write O b >> Writer.write O crlf)
        (bulk_parts (codes "$") size crlf b crlf)
        (seq-Adds (line >> Writer.write O b) (Writer.write O crlf) (start ++ b) crlf
          (seq-Adds line (Writer.write O b) start b (line-Adds (codes "$") size) (write-Adds b))
          (write-Adds crlf))

  object-Adds : (v : Obj) → IsSupported v → Adds (Writer.write_object O v) (encoding (obj_resp v))
  unfolding Writer.write_object Writer.write_bulk_string
  object-Adds nothing _ = bulk-Adds none
  object-Adds (bytes v) _ = bulk-Adds v
  object-Adds (string s) _ = bulk-Adds (some s)
  object-Adds (int n) _ = int-Adds n
  object-Adds (int32 n) _ = int-Adds n
  object-Adds (int64 n) _ = int-Adds n
  object-Adds other h = elim h [ ]

  objects_loop-Adds :
      (l : List Obj) → All IsSupported l → Adds (Writer.objects_loop O l) (items_text (obj_resps l))
  unfolding Writer.objects_loop items_text
  objects_loop-Adds [] _ = λ s c h. (c, refl, rw append-nil h)
  objects_loop-Adds (v ∷ l) (one, rest) =
      try-Adds (Writer.write_object O v) (Writer.objects_loop O l) (encoding (obj_resp v))
        (items_text (obj_resps l)) (object-Adds v one) (objects_loop-Adds l rest)

  -- What WriteObjects sends for a list, nil included: nil is the null array.
  abbrev pub objects_resp : Option (List Obj) → Resp
  objects_resp none = make type_array none null
  objects_resp (some l) = make type_array none (items (obj_resps l))

  abbrev pub AreSupported : Option (List Obj) → Type 0
  AreSupported none = Unit
  AreSupported (some l) = All IsSupported l

  -- On a connection that works, WriteObjects of supported values returns no error and sends the encoding
  -- of the array of their values, as utils/resparse writes it.
  pub write_objects-encoding :
      (l : Option (List Obj))
      → AreSupported l
      → Adds (Writer.write_objects O l) (encoding (objects_resp l))
  unfolding Writer.write_objects encoding
  write_objects-encoding none _ = rw minus_one (write-Adds nil_array)
  write_objects-encoding (some l) h = rw (count-obj_resps l) (
      seq-Adds (Writer.write_star O l) (Writer.objects_loop O l)
        (codes "*" ++ int_line (pos (length l))) (items_text (obj_resps l))
        (line-Adds (codes "*") (format_int (pos (length l)))) (objects_loop-Adds l h))
