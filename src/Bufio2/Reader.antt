-- ===== src/Bufio2/Reader.antt =====
-- bufio.go, the type Reader. `window` is buf[rpos:wpos]; the bytes of buf outside it are never read, and
-- fill moves the window to the front of buf before it reads, so that size - len(window) bytes are free.
-- `size` is len(buf), which no operation changes.
use ipfs_nosql_frame.Prelude.{
  ℕ, zero, suc, ◌-◌, Option, none, some, [], ◌∷◌, ◌++◌, Bytes, length, take, drop, leb, ◌==◌,
  if◌then◌else◌, true, false, Result, ok, err,
}
use ipfs_nosql_frame.Credis.Source.{IoError, eof, unexpected_eof, no_progress, buffer_full, stuck}
use ipfs_nosql_frame.Bufio2.Conn.{Inbound}

abbrev pub default_buffer_size : ℕ
default_buffer_size = 1024

-- The length of the buffer that NewReaderSize makes.
unfoldable pub reader_size : ℕ → ℕ
reader_size zero = default_buffer_size
reader_size (suc n) = suc n

-- bytes.IndexByte
unfoldable pub index_byte : ℕ → Bytes → Option ℕ
index_byte d [] = none
index_byte d (c ∷ b) =
    if c == d then some 0 else elim (index_byte d b) [ none ↦ none | some i ↦ some (suc i) ]

-- What ReadSlice returns: a slice through the delimiter, the whole buffer with ErrBufferFull, or an
-- error of the reader.
pub data Slice : Type 0 where
  found full : Bytes → Slice
  failed : IoError → Slice

-- io.ReadAtLeast turns EOF into ErrUnexpectedEOF once it has read something.
unfoldable pub at_eof : IoError → Bytes → IoError
at_eof eof (c ∷ b) = unexpected_eof
at_eof e b = e

-- `if b.err != nil { return ... }`
abbrev pub if_failed {ℓ} : {A : Type ℓ} → Option IoError → (IoError → A) → A → A
if_failed none f a = a
if_failed (some e) f a = f e

-- `if b.buffered() == 0 { ... }`
abbrev pub if_empty {ℓ} : {A : Type ℓ} → Bytes → A → A → A
if_empty [] a b = a
if_empty (c ∷ w) a b = b

module _ (I : Inbound) (size : ℕ) where
  -- Reader{err, buf, rd, rpos, wpos}
  pub record Reader : Type 0 where
    pub err : Option IoError
    pub window : Bytes
    pub rd : I.Conn

  unfoldable pub new_reader : I.Conn → Reader
  new_reader d = record { err = none; window = []; rd = d }

  -- What fill does with the result of Read: the bytes that come with an error are not kept.
  unfoldable pub filled : (Bytes × Option IoError) × I.Conn → Reader → Option IoError × Reader
  filled ((p, some e), d) r = (some e, record { err = some e; window = r.window; rd = d })
  filled (([], none), d) r =
      (some no_progress, record { err = some no_progress; window = r.window; rd = d })
  filled ((c ∷ p, none), d) r = (none, record { err = none; window = r.window ++ c ∷ p; rd = d })

  unfoldable pub fill : Reader → Option IoError × Reader
  unfolding filled
  fill r = if_failed r.err (λ e. (some e, r)) (filled (I.read (size - length r.window) r.rd) r)

  -- `if b.buffered() == 0 { if b.fill() != nil ...`
  unfoldable pub ensure : Reader → Option IoError × Reader
  unfolding fill
  ensure r = if_empty r.window (fill r) (none, r)

  -- `copy(p, b.buf[b.rpos:b.wpos])` into a slice of `n` bytes.
  unfoldable pub give : ℕ → Reader → (Bytes × Option IoError) × Reader
  give n r = ((take n r.window, none), record { err = r.err; window = drop n r.window; rd = r.rd })

  unfoldable pub give_filled : ℕ → Option IoError × Reader → (Bytes × Option IoError) × Reader
  unfolding give
  give_filled n (some e, r) = (([], some e), r)
  give_filled n (none, r) = give n r

  unfoldable pub read_through :
      (Bytes × Option IoError) × I.Conn → Reader → (Bytes × Option IoError) × Reader
  read_through ((p, e), d) r = ((p, e), record { err = e; window = r.window; rd = d })

  -- `Read` into a slice of `n` bytes.
  unfoldable pub read : ℕ → Reader → (Bytes × Option IoError) × Reader
  unfolding ensure give_filled read_through
  read zero r = (([], r.err), r)
  read (suc n) r =
      if_failed r.err (λ e. (([], some e), r))
        (if_empty r.window
          (if leb size (suc n)
            then read_through (I.read (suc n) r.rd) r
            else give_filled (suc n) (fill r))
          (give (suc n) r))

  -- `c := b.buf[b.rpos]`, with what the reader becomes.
  unfoldable pub first : (ℕ → Bytes → Bytes) → Option IoError × Reader → Result IoError ℕ × Reader
  first next (some e, r) = (err e, r)
  first next (none, r) = elim r.window [
    | [] ↦ (err stuck, r)
    | c ∷ w ↦ (ok c, record { err = r.err; window = next c w; rd = r.rd })
  ]

  unfoldable pub read_byte : Reader → Result IoError ℕ × Reader
  unfolding ensure first
  read_byte r = if_failed r.err (λ e. (err e, r)) (first (λ c w. w) (ensure r))

  unfoldable pub peek_byte : Reader → Result IoError ℕ × Reader
  unfolding ensure first
  peek_byte r = if_failed r.err (λ e. (err e, r)) (first (λ c w. c ∷ w) (ensure r))

  -- The loop of ReadSlice. Each turn that does not end it adds a byte to the window.
  unfoldable pub slice_loop : ℕ → ℕ → Reader → Slice × Reader
  unfolding index_byte fill
  slice_loop zero d r = (failed stuck, r)
  slice_loop (suc f) d r = elim (index_byte d r.window) [
    | some i ↦ (
      found (take (suc i) r.window),
      record { err = r.err; window = drop (suc i) r.window; rd = r.rd },
    )
    | none ↦ elim (length r.window == size) [
      | true ↦ (full r.window, record { err = r.err; window = []; rd = r.rd })
      | false ↦
          let (e, r') = fill r in elim e [ some x ↦ (failed x, r') | none ↦ slice_loop f d r' ]
    ]
  ]

  unfoldable pub slice : ℕ → Reader → Slice × Reader
  unfolding slice_loop
  slice d r = if_failed r.err (λ e. (failed e, r)) (slice_loop (suc size) d r)

  -- `ReadSlice` for a caller that drops the slice when there is an error.
  unfoldable pub read_slice : ℕ → Reader → Result IoError Bytes × Reader
  unfolding slice
  read_slice d r =
      let (x, r') = slice d r in
      elim x [ found b ↦ (ok b, r') | full b ↦ (err buffer_full, r') | failed e ↦ (err e, r') ]

  -- The loop of ReadBytes, with the fragments read so far put together.
  unfoldable pub bytes_loop : ℕ → ℕ → Bytes → Reader → Result IoError Bytes × Reader
  unfolding slice
  bytes_loop zero d acc r = (err stuck, r)
  bytes_loop (suc f) d acc r =
      let (x, r') = slice d r in
      elim x [
        | found b ↦ (ok (acc ++ b), r')
        | full b ↦ bytes_loop f d (acc ++ b) r'
        | failed e ↦ (err e, r')
      ]

  -- `ReadBytes`, whose loop runs at most `limit` turns here.
  unfoldable pub read_bytes : ℕ → ℕ → Reader → Result IoError Bytes × Reader
  unfolding bytes_loop
  read_bytes limit d r = bytes_loop limit d [] r

  -- The loop of io.ReadFull: `need` bytes are still missing behind `acc`.
  unfoldable pub full_loop : ℕ → ℕ → Bytes → Reader → Result IoError Bytes × Reader
  unfolding read at_eof
  full_loop f zero acc r = (ok acc, r)
  full_loop zero (suc need) acc r = (err stuck, r)
  full_loop (suc f) (suc need) acc r =
      let ((p, e), r') = read (suc need) r in
      elim e [
        | none ↦ full_loop f (suc need - length p) (acc ++ p) r'
        | some x ↦
            if leb (suc need) (length p)
            then (ok (acc ++ p), r')
            else (err (at_eof x (acc ++ p)), r')
      ]

  unfoldable pub read_full : ℕ → Reader → Result IoError Bytes × Reader
  unfolding full_loop
  read_full n r = if_failed r.err (λ e. (err e, r)) (full_loop n n [] r)
