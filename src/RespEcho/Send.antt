-- ===== src/RespEcho/Send.antt =====
-- fmt.go: the functions that send a reply through a buffered writer. The bufio.Writer is a Sink.
use ipfs_nosql_frame.Prelude.{ℤ, pos, Option, none, some, List, [], ◌∷◌, ◌++◌, Bytes, length}
use ipfs_nosql_frame.Credis.Strconv.{format_int}
use ipfs_nosql_frame.Credis.Encoder.{crlf}
use ipfs_nosql_frame.Credis.Source.{Sink, IoError}
use ipfs_nosql_frame.RespEcho.Writer.{
  Obj, nothing, bytes, string, int, int32, int64, other, nil_bulk, nil_array,
}

module _ {C : Type 0} where
  abbrev on_success : Option IoError → (C → Option IoError × C) → C → Option IoError × C
  on_success none k c = k c
  on_success (some e) k c = (some e, c)

  -- `if e := m; e != nil { return e }; k`
  infixl 5 ◌>>?◌
  abbrev pub ◌>>?◌ : (C → Option IoError × C) → (C → Option IoError × C) → C → Option IoError × C
  ◌>>?◌ m k c = on_success (m c).0 k (m c).1

module _ (W : Sink) where
  abbrev pub Sends : Type 0
  Sends = W.Writer → Option IoError × W.Writer

  abbrev succeed : Sends
  succeed c = (none, c)

  unfoldable pub send_error : Bytes → Sends
  send_error msg = W.write (b'-' ∷ msg ++ crlf) >>? W.flush

  unfoldable pub send_string : Bytes → Sends
  send_string msg = W.write (b'+' ∷ msg ++ crlf) >>? W.flush

  unfoldable pub put_int : ℤ → Sends
  put_int n = W.write (b':' ∷ format_int n ++ crlf)

  unfoldable pub send_int : ℤ → Sends
  unfolding put_int
  send_int n = put_int n >>? W.flush

  unfoldable pub put_bulk : Option Bytes → Sends
  put_bulk none = W.write nil_bulk
  put_bulk (some b) =
      W.write (b'$' ∷ format_int (pos (length b)) ++ crlf) >>? W.write b >>? W.write crlf

  unfoldable pub send_bulk : Option Bytes → Sends
  unfolding put_bulk
  send_bulk v = put_bulk v >>? W.flush

  -- The loop of sendBulks, which flushes behind every element.
  unfoldable pub send_each : List (Option Bytes) → Sends
  unfolding send_bulk
  send_each [] = W.flush
  send_each (v ∷ l) = send_bulk v >>? send_each l

  -- A nil array: the error of Write is overwritten by that of Flush.
  abbrev send_nil : Sends
  send_nil c = W.flush (W.write nil_array c).1

  abbrev star : {A : Type 0} → List A → Sends
  star l = W.write (b'*' ∷ format_int (pos (length l)) ++ crlf)

  unfoldable pub put_bulks : Option (List (Option Bytes)) → Sends
  unfolding send_each
  put_bulks none = send_nil
  put_bulks (some l) = star l >>? send_each l

  unfoldable pub send_bulks : Option (List (Option Bytes)) → Sends
  unfolding put_bulks
  send_bulks l = put_bulks l >>? W.flush

  -- The switch of SendObjects: a value of another type is only logged.
  unfoldable pub put_object : Obj → Sends
  put_object (int64 n) = put_int n
  put_object (bytes v) = put_bulk v
  put_object nothing = succeed
  put_object (string s) = succeed
  put_object (int n) = succeed
  put_object (int32 n) = succeed
  put_object other = succeed

  unfoldable pub put_each : List Obj → Sends
  unfolding put_object
  put_each [] = W.flush
  put_each (v ∷ l) = put_object v >>? put_each l

  unfoldable pub send_objects : Option (List Obj) → Sends
  unfolding put_each
  send_objects none = send_nil
  send_objects (some l) = star l >>? put_each l

  unfoldable pub send_bulk_string : Bytes → Sends
  unfolding send_bulk
  send_bulk_string s = send_bulk (some s)

  abbrev present : List Bytes → List (Option Bytes)
  present [] = []
  present (s ∷ l) = some s ∷ present l

  unfoldable pub send_bulk_strings : Option (List Bytes) → Sends
  unfolding send_bulks
  send_bulk_strings none = send_bulks none
  send_bulk_strings (some l) = send_bulks (some (present l))
