-- ===== src/Bufio2/Conn.antt =====
-- The io.Reader and the io.Writer that bufio.go is given, with what their documentation promises of a
-- connection that works. They are not code of the repository.
use ipfs_nosql_frame.Prelude.{ℕ, ◌<◌, ◌≤◌, ◌≡◌, Option, none, ◌∷◌, ◌++◌, Bytes, length}
use ipfs_nosql_frame.Credis.Source.{IoError}

-- `read n c` is `Read` into a slice of `n` bytes. `Delivers s c` says that `s` is what is still to come.
pub record Inbound : Type 1 where
  pub Conn : Type 0
  pub read : ℕ → Conn → (Bytes × Option IoError) × Conn
  pub Delivers : Bytes → Conn → Type 0
  pub read_delivers :
      (n c : ℕ) (s : Bytes) (d : Conn)
      → Delivers (c ∷ s) d
      → 0 < n
      → (a : ℕ) × (p t : Bytes) × (d' : Conn) × (read n d ≡ ((a ∷ p, none), d'))
        × ((a ∷ p) ++ t ≡ c ∷ s)
        × (length (a ∷ p) ≤ n)
        × Delivers t d'

-- `write p c` is `Write` of the bytes `p`. `Got s c` says that `s` is what has been written.
pub record Outbound : Type 1 where
  pub Conn : Type 0
  pub write : Bytes → Conn → (ℕ × Option IoError) × Conn
  pub Got : Bytes → Conn → Type 0
  pub write_got :
      (p s : Bytes) (d : Conn)
      → Got s d
      → (d' : Conn) × (write p d ≡ ((length p, none), d')) × Got (s ++ p) d'
