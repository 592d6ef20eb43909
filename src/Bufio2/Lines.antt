-- ===== src/Bufio2/Lines.antt =====
-- Reading lines: ReadSlice and ReadBytes.
use ipfs_nosql_frame.Prelude.{
  ℕ, zero, suc, ◌+◌, ◌<◌, ◌≡◌, ◌≢◌, ◌⊎◌, inl, inr, true, false, none, some, [], ◌∷◌, ◌++◌, arith,
  Bytes, ◌∙◌, ap, length, length-append, take, drop, length-drop_le, All, All-append_right, ok,
  ◌==◌, Bool-cases,
}
use ipfs_nosql_frame.Bufio2.Conn.{Inbound}
use ipfs_nosql_frame.Bufio2.Reader
use ipfs_nosql_frame.Bufio2.Reader.{Slice, found, full, failed, index_byte, if_failed, if_empty}
use ipfs_nosql_frame.Bufio2.Split.{index_split, length_parts, append_line, append_cons}
use ipfs_nosql_frame.Bufio2.Branches.{usable}
use ipfs_nosql_frame.Bufio2.Holding.{Holds, fill-Holds}

module _ (I : Inbound) (size limit : ℕ) (room : 0 < size) where
  found_step :
      (f d i : ℕ) (r : Reader.Reader I size)
      → index_byte d r.window ≡ some i
      → Reader.slice_loop I size (suc f) d r
        ≡ (found (take (suc i) r.window), record r { window = drop (suc i) r.window })
  unfolding Reader.slice_loop
  found_step f d i r e = rw (e, Reader.slice_loop)

  full_slice_step :
      (f d : ℕ) (r : Reader.Reader I size)
      → index_byte d r.window ≡ none
      → (length r.window == size) ≡ true
      → Reader.slice_loop I size (suc f) d r ≡ (full r.window, record r { window = [] })
  unfolding Reader.slice_loop
  full_slice_step f d r e1 e2 = rw (e1, e2, Reader.slice_loop)

  fill_step :
      (f d : ℕ) (r r' : Reader.Reader I size)
      → index_byte d r.window ≡ none
      → (length r.window == size) ≡ false
      → Reader.fill I size r ≡ (none, r')
      → Reader.slice_loop I size (suc f) d r ≡ Reader.slice_loop I size f d r'
  unfolding Reader.slice_loop
  fill_step f d r r' e1 e2 e3 = rw (e1, e2, e3, e3, Reader.slice_loop)

  -- The result `m` of a ReadSlice before `line`, `d` and `rest`: the line with its delimiter, or, if the
  -- buffer is too small for that, as much of the line as fills it.
  abbrev Sliced : ℕ → Bytes → Bytes → Slice × Reader.Reader I size → Type 0
  Sliced d line rest m =
      ((r' : Reader.Reader I size) × (m ≡ (found (line ++ d ∷ []), r'))
        × Holds I size limit room rest r')
      ⊎ ((p t : Bytes) × (r' : Reader.Reader I size) × (m ≡ (full p, r'))
          × (p ++ t ≡ line)
          × (length p ≡ size)
          × Holds I size limit room (t ++ d ∷ rest) r')

  later :
      (d : ℕ) (line rest : Bytes) (m m' : Slice × Reader.Reader I size)
      → m ≡ m'
      → Sliced d line rest m'
      → Sliced d line rest m
  later d line rest m m' e h = rw e h

  loop-Holds :
      (f d : ℕ) (line rest : Bytes) (r : Reader.Reader I size)
      → All (λ c. c ≢ d) line
      → size < f + length r.window
      → Holds I size limit room (line ++ d ∷ rest) r
      → Sliced d line rest (Reader.slice_loop I size f d r)
  unfolding Reader.slice_loop
  loop-Holds zero d line rest r h enough (t, fine, fits, whole, more, short) =
      let absurd : ⊥ = omega arith in elim absurd [ ]
  loop-Holds (suc f) d line rest r h enough (t, fine, fits, whole, more, short) =
      elim (index_split d r.window t line rest h whole) [
        | inl (e1, e2, e3) ↦ inl (
          record r { window = drop (suc (length line)) r.window },
          found_step f d (length line) r e1
              ∙ ap (λ x. (found x, record r { window = drop (suc (length line)) r.window })) e2,
          (
            t,
            fine,
            omega (arith, length-drop_le (suc (length line)) r.window),
            e3,
            more,
            omega (arith, length-append {0} line (d ∷ rest)),
          ),
        )
        | inr (u, e1, e2, e3) ↦ elim (Bool-cases (length r.window == size)) [
          | inl all ↦
              let sizes : length (line ++ d ∷ rest) ≡ length r.window + length t =
                length_parts r.window t (line ++ d ∷ rest) whole in
              let same : length t ≡ length (u ++ d ∷ rest) = ap length e3 in
              inr (
                r.window,
                u,
                record r { window = [] },
                full_slice_step f d r e1 all,
                e2,
                ground arith,
                (t, fine, omega arith, e3, more, omega arith),
              )
          | inr some_left ↦
              let (c, t', e4) = append_cons u d rest in
              let coming : t ≡ c ∷ t' = e3 ∙ e4 in
              let free : length r.window < size = ground arith in
              let (a, p, r1, f1, f2, h1) =
                fill-Holds I size limit room (line ++ d ∷ rest) t' c r fine free
                  (rw coming at whole) (rw coming at more) short in
              let grown : length r1.window ≡ length r.window + length (a ∷ p) =
                ap length f2 ∙ length-append r.window (a ∷ p) in
              later d line rest _ _ (fill_step f d r r1 e1 some_left f1)
                (loop-Holds f d line rest r1 h (omega arith) h1)
        ]
      ]

  slice-Holds :
      (d : ℕ) (line rest : Bytes) (r : Reader.Reader I size)
      → All (λ c. c ≢ d) line
      → Holds I size limit room (line ++ d ∷ rest) r
      → Sliced d line rest (Reader.slice I size d r)
  unfolding Reader.slice
  slice-Holds d line rest r h held =
      let (_, err_none, _, _, _, _) = held in
      later d line rest _ _ (usable _ _ r.err err_none)
        (loop-Holds (suc size) d line rest r h (omega arith) held)

  -- `ReadSlice` on a reader that holds a line, its delimiter and more, where the line without the
  -- delimiter is shorter than the buffer, returns the line with the delimiter and leaves the rest, in
  -- whatever parts the connection delivers.
  pub read_slice-Holds :
      (d : ℕ) (line rest : Bytes) (r : Reader.Reader I size)
      → All (λ c. c ≢ d) line
      → length line < size
      → Holds I size limit room (line ++ d ∷ rest) r
      → (r' : Reader.Reader I size) × (Reader.read_slice I size d r ≡ (ok (line ++ d ∷ []), r'))
        × Holds I size limit room rest r'
  unfolding Reader.read_slice
  read_slice-Holds d line rest r h short held = elim (slice-Holds d line rest r h held) [
    | inl (r1, e1, h1) ↦ (r1, rw (e1, e1, Reader.read_slice), h1)
    | inr (p, t, r1, e1, e2, e3, h1) ↦
        let sizes : length line ≡ length p + length t = length_parts p t line e2 in
        let absurd : ⊥ = omega arith in elim absurd [ ]
  ]

  bytes_step :
      (f d : ℕ) (acc p : Bytes) (r r' : Reader.Reader I size)
      → Reader.slice I size d r ≡ (full p, r')
      → Reader.bytes_loop I size (suc f) d acc r ≡ Reader.bytes_loop I size f d (acc ++ p) r'
  unfolding Reader.bytes_loop
  bytes_step f d acc p r r' e = rw (e, e, Reader.bytes_loop)

  bytes_loop-Holds :
      (f d : ℕ) (acc line rest : Bytes) (r : Reader.Reader I size)
      → All (λ c. c ≢ d) line
      → length line < f
      → Holds I size limit room (line ++ d ∷ rest) r
      → (r' : Reader.Reader I size) × (Reader.bytes_loop I size f d acc r
          ≡ (ok (acc ++ (line ++ d ∷ [])), r'))
        × Holds I size limit room rest r'
  unfolding Reader.bytes_loop
  bytes_loop-Holds zero d acc line rest r h enough held =
      let absurd : ⊥ = omega arith in elim absurd [ ]
  bytes_loop-Holds (suc f) d acc line rest r h enough held =
      elim (slice-Holds d line rest r h held) [
        | inl (r1, e1, h1) ↦ (r1, rw (e1, e1, Reader.bytes_loop), h1)
        | inr (p, t, r1, e1, e2, e3, h1) ↦
            let sizes : length line ≡ length p + length t = length_parts p t line e2 in
            let (r2, e4, h2) =
              bytes_loop-Holds f d (acc ++ p) t rest r1
                (All-append_right (λ c. c ≢ d) p t (rw e2 h)) (omega arith) h1 in
            (
              r2,
              bytes_step f d acc p r r1 e1
                  ∙ e4
                  ∙ ap (λ x. (ok x, r2)) (append_line acc p t line d e2),
              h2,
            )
      ]

  -- `ReadBytes` on a reader that holds a line of any length, its delimiter and more returns the line with
  -- the delimiter and leaves the rest, in whatever parts the connection delivers, if its loop is given
  -- more turns than the stream has bytes.
  pub read_bytes-Holds :
      (d : ℕ) (line rest : Bytes) (r : Reader.Reader I size)
      → All (λ c. c ≢ d) line
      → Holds I size limit room (line ++ d ∷ rest) r
      → (r' : Reader.Reader I size) × (Reader.read_bytes I size limit d r
          ≡ (ok (line ++ d ∷ []), r'))
        × Holds I size limit room rest r'
  unfolding Reader.read_bytes
  read_bytes-Holds d line rest r h held =
      let (_, _, _, _, _, short) = held in
      bytes_loop-Holds limit d [] line rest r h (omega (arith, length-append {0} line (d ∷ rest)))
        held
