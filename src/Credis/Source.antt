-- ===== src/Credis/Source.antt =====
-- What the codec asks of utils/resparse/bufio2: the operations of a buffered reader and of a buffered
-- writer, and the laws that the codec's theorems rest on. Bufio2 fills both.
use ipfs_nosql_frame.Prelude.{
  ℕ, ◌<◌, ◌≡◌, ◌≢◌, Option, none, [], ◌∷◌, ◌++◌, Bytes, length, All, Result, ok,
}

pub data IoError : Type 0 where
  eof unexpected_eof no_progress short_write buffer_full stuck : IoError
  broken : ℕ → IoError

-- `Holds s r` says that the reader `r` has met no error and that `s` is what it will still deliver.
pub record Source : Type 1 where
  pub Reader : Type 0
  pub size : ℕ
  pub read_byte : Reader → Result IoError ℕ × Reader
  pub peek_byte : Reader → Result IoError ℕ × Reader
  pub read_slice : ℕ → Reader → Result IoError Bytes × Reader
  pub read_bytes : ℕ → Reader → Result IoError Bytes × Reader
  pub read_full : ℕ → Reader → Result IoError Bytes × Reader
  pub Holds : Bytes → Reader → Type 0
  pub read_byte_holds :
      (c : ℕ) (s : Bytes) (r : Reader)
      → Holds (c ∷ s) r
      → (r' : Reader) × (read_byte r ≡ (ok c, r')) × Holds s r'
  pub peek_byte_holds :
      (c : ℕ) (s : Bytes) (r : Reader)
      → Holds (c ∷ s) r
      → (r' : Reader) × (peek_byte r ≡ (ok c, r')) × Holds (c ∷ s) r'
  pub read_slice_holds :
      (d : ℕ) (line rest : Bytes) (r : Reader)
      → All (λ c. c ≢ d) line
      → length line < size
      → Holds (line ++ d ∷ rest) r
      → (r' : Reader) × (read_slice d r ≡ (ok (line ++ d ∷ []), r')) × Holds rest r'
  pub read_bytes_holds :
      (d : ℕ) (line rest : Bytes) (r : Reader)
      → All (λ c. c ≢ d) line
      → Holds (line ++ d ∷ rest) r
      → (r' : Reader) × (read_bytes d r ≡ (ok (line ++ d ∷ []), r')) × Holds rest r'
  pub read_full_holds :
      (p rest : Bytes) (r : Reader)
      → Holds (p ++ rest) r
      → (r' : Reader) × (read_full (length p) r ≡ (ok p, r')) × Holds rest r'

-- `Wrote s w` says that the writer `w` has met no error and has been given `s`.
pub record Sink : Type 1 where
  pub Writer : Type 0
  pub write_byte : ℕ → Writer → Option IoError × Writer
  pub write : Bytes → Writer → Option IoError × Writer
  pub write_string : Bytes → Writer → Option IoError × Writer
  pub flush : Writer → Option IoError × Writer
  pub Wrote : Bytes → Writer → Type 0
  pub write_byte_wrote :
      (c : ℕ) (s : Bytes) (w : Writer)
      → Wrote s w
      → (w' : Writer) × (write_byte c w ≡ (none, w')) × Wrote (s ++ c ∷ []) w'
  pub write_wrote :
      (p s : Bytes) (w : Writer)
      → Wrote s w
      → (w' : Writer) × (write p w ≡ (none, w')) × Wrote (s ++ p) w'
  pub write_string_wrote :
      (p s : Bytes) (w : Writer)
      → Wrote s w
      → (w' : Writer) × (write_string p w ≡ (none, w')) × Wrote (s ++ p) w'
  pub flush_wrote :
      (s : Bytes) (w : Writer) → Wrote s w → (w' : Writer) × (flush w ≡ (none, w')) × Wrote s w'
