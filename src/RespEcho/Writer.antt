-- ===== src/RespEcho/Writer.antt =====
-- writer.go: WriterHandle, on the io.Writer below it. A nil slice is told from an empty one by `none`.
use ipfs_nosql_frame.Prelude.{ℤ, pos, Option, none, some, List, [], ◌∷◌, ◌++◌, Bytes, codes, length}
use ipfs_nosql_frame.Credis.Strconv.{format_int}
use ipfs_nosql_frame.Credis.Encoder.{crlf}
use ipfs_nosql_frame.Credis.Source.{IoError}
use ipfs_nosql_frame.Bufio2.Conn.{Outbound}

-- The error of the writer below, or `Value not suppport`.
pub data EchoError : Type 0 where
  io : IoError → EchoError
  unsupported : EchoError

-- interface{}, as far as the type switch of WriteObjects looks into it.
pub data Obj : Type 0 where
  nothing : Obj
  bytes : Option Bytes → Obj
  string : Bytes → Obj
  int int32 int64 : ℤ → Obj
  other : Obj

abbrev pub nil_bulk : Bytes
nil_bulk = codes "$-1" ++ crlf

abbrev pub nil_array : Bytes
nil_array = codes "*-1" ++ crlf

abbrev pub from_io : Option IoError → Option EchoError
from_io none = none
from_io (some e) = some (io e)

module _ {C : Type 0} where
  -- `m; k`, where the error of `m` is dropped.
  infixl 5 ◌>>◌ ◌>>?◌
  abbrev pub ◌>>◌ :
      (C → Option EchoError × C) → (C → Option EchoError × C) → C → Option EchoError × C
  ◌>>◌ m k c = k (m c).1

  abbrev on_success : Option EchoError → (C → Option EchoError × C) → C → Option EchoError × C
  on_success none k c = k c
  on_success (some e) k c = (some e, c)

  -- `if err := m; err != nil { return err }; k`
  abbrev pub ◌>>?◌ :
      (C → Option EchoError × C) → (C → Option EchoError × C) → C → Option EchoError × C
  ◌>>?◌ m k c = on_success (m c).0 k (m c).1

module _ (O : Outbound) where
  abbrev pub Writes : Type 0
  Writes = O.Conn → Option EchoError × O.Conn

  -- Write, without the count of bytes, which nothing here reads.
  unfoldable pub write : Bytes → Writes
  write p c = let ((n, e), c') = O.write p c in (from_io e, c')

  -- Flush; `buffered` is the Flush of the writer below, if that is a bufio.Writer.
  unfoldable pub flush : Option (O.Conn → Option IoError × O.Conn) → Writes
  flush none c = (none, c)
  flush (some f) c = let (e, c') = f c in (from_io e, c')

  unfoldable pub write_int : ℤ → Writes
  write_int n = write (codes ":") >> write (format_int n) >> write crlf

  unfoldable pub write_bulk : Option Bytes → Writes
  write_bulk none = write nil_bulk
  write_bulk (some b) =
      write (codes "$")
      >> write (format_int (pos (length b)))
      >> write crlf
      >> write b
      >> write crlf

  unfoldable pub write_bulk_string : Bytes → Writes
  unfolding write_bulk
  write_bulk_string s = write_bulk (some s)

  unfoldable pub write_simple_string : Bytes → Writes
  write_simple_string s = write (codes "+") >> write s >> write crlf

  unfoldable pub write_error : Bytes → Writes
  write_error s = write (codes "-") >> write s >> write crlf

  -- The line with the number of elements.
  abbrev pub write_star : {A : Type 0} → List A → Writes
  write_star l = write (codes "*") >> write (format_int (pos (length l))) >> write crlf

  abbrev pub succeed : Writes
  succeed c = (none, c)

  -- The switch in the loop of WriteObjects.
  unfoldable pub write_object : Obj → Writes
  write_object nothing = write_bulk none
  write_object (bytes v) = write_bulk v
  write_object (string s) = write_bulk_string s
  write_object (int n) = write_int n
  write_object (int32 n) = write_int n
  write_object (int64 n) = write_int n
  write_object other = λ c. (some unsupported, c)

  unfoldable pub objects_loop : List Obj → Writes
  objects_loop [] = succeed
  objects_loop (v ∷ l) = write_object v >>? objects_loop l

  unfoldable pub write_objects : Option (List Obj) → Writes
  write_objects none = write nil_array
  write_objects (some l) = write_star l >> objects_loop l

  unfoldable pub bulks_loop : List (Option Bytes) → Writes
  bulks_loop [] = succeed
  bulks_loop (v ∷ l) = write_bulk v >>? bulks_loop l

  unfoldable pub write_bulks : Option (List (Option Bytes)) → Writes
  write_bulks none = write nil_array
  write_bulks (some l) = write_star l >> bulks_loop l

  unfoldable pub strings_loop : List Bytes → Writes
  strings_loop [] = succeed
  strings_loop (s ∷ l) = write_bulk_string s >>? strings_loop l

  unfoldable pub write_bulk_strings : Option (List Bytes) → Writes
  write_bulk_strings none = write nil_array
  write_bulk_strings (some l) = write_star l >> strings_loop l
