-- ===== src/Bufio2/Holding.antt =====
-- What a buffered reader still holds, and the operations that take one byte of it.
use ipfs_nosql_frame.Prelude.{
  ℕ, ◌-◌, ◌≤◌, ◌<◌, ◌≡◌, refl, none, [], ◌∷◌, ◌++◌, append_assoc, arith, Bytes, ◌∙◌, ap, length,
  length-append, ok,
}
use ipfs_nosql_frame.Bufio2.Conn.{Inbound}
use ipfs_nosql_frame.Bufio2.Reader
use ipfs_nosql_frame.Bufio2.Reader.{Slice, found, full, failed, index_byte, if_failed, if_empty}
use ipfs_nosql_frame.Bufio2.Branches.{usable, on_empty, on_buffered}

module _ (I : Inbound) (size limit : ℕ) (room : 0 < size) where
  -- The reader has met no error, and its window and the connection together deliver `s`, which is
  -- shorter than `limit`.
  abbrev pub Holds : Bytes → Reader.Reader I size → Type 0
  Holds s r =
      (t : Bytes) × (r.err ≡ none)
      × (length r.window ≤ size)
      × (r.window ++ t ≡ s)
      × I.Delivers t r.rd
      × (length s < limit)

  -- Where the window is not full and more is to come, fill adds to the window.
  pub fill-Holds :
      (s t : Bytes) (c : ℕ) (r : Reader.Reader I size)
      → r.err ≡ none
      → length r.window < size
      → r.window ++ c ∷ t ≡ s
      → I.Delivers (c ∷ t) r.rd
      → length s < limit
      → (a : ℕ) × (p : Bytes) × (r' : Reader.Reader I size) × (Reader.fill I size r ≡ (none, r'))
        × (r'.window ≡ r.window ++ a ∷ p)
        × Holds s r'
  unfolding Reader.fill Reader.filled
  fill-Holds s t c r fine free whole more short =
      let (a, p, t', d', e1, e2, e3, e4) =
        I.read_delivers (size - length r.window) c t r.rd more (omega arith) in
      let fits : length (r.window ++ a ∷ p) ≤ size =
        omega (arith, length-append {0} r.window (a ∷ p)) in
      let same : (r.window ++ a ∷ p) ++ t' ≡ s = rw (append_assoc, e2) whole in
      (
        a,
        p,
        record { err = none; window = r.window ++ a ∷ p; rd = d' },
        usable _ _ r.err fine ∙ ap (λ x. Reader.filled I size x r) e1,
        refl,
        (t', refl, fits, same, e4, short),
      )

  ensure_at :
      (c : ℕ) (s : Bytes) (r : Reader.Reader I size) (win : Bytes)
      → r.window ≡ win
      → Holds (c ∷ s) r
      → (w : Bytes) × (r' : Reader.Reader I size) × (Reader.ensure I size r ≡ (none, r'))
        × (r'.window ≡ c ∷ w)
        × Holds (c ∷ s) r'
  unfolding Reader.ensure
  ensure_at c s r [] e (t, fine, fits, whole, more, short) =
      let none_left : t ≡ c ∷ s = rw e at whole in
      let free : length r.window < size = rw e room in
      let same : r.window ++ c ∷ s ≡ c ∷ s = rw e refl in
      let (a, p, r', e1, e2, h) =
        fill-Holds (c ∷ s) s c r fine free same (rw none_left at more) short in
      let (t', _, _, whole', _, _) = h in
      let view : r'.window ≡ a ∷ p = rw e at e2 in
      let all : (a ∷ p) ++ t' ≡ c ∷ s = rw view at whole' in
      let head : a ≡ c = cc in (p, r', on_empty _ _ r.window e ∙ e1, rw (view, head) refl, h)
  ensure_at c s r (b ∷ w) e (t, fine, fits, whole, more, short) =
      let all : (b ∷ w) ++ t ≡ c ∷ s = rw e at whole in
      let head : b ≡ c = cc in
      (w, r, on_buffered _ _ r.window b w e, rw (e, head) refl, (t, fine, fits, whole, more, short))

  -- `ensure` makes the window begin with the next byte.
  ensure-Holds :
      (c : ℕ) (s : Bytes) (r : Reader.Reader I size)
      → Holds (c ∷ s) r
      → (w : Bytes) × (r' : Reader.Reader I size) × (Reader.ensure I size r ≡ (none, r'))
        × (r'.window ≡ c ∷ w)
        × Holds (c ∷ s) r'
  unfolding Reader.ensure
  ensure-Holds c s r h = ensure_at c s r r.window refl h

  first_window :
      (next : ℕ → Bytes → Bytes) (r : Reader.Reader I size) (c : ℕ) (w : Bytes)
      → r.window ≡ c ∷ w
      → Reader.first I size next (none, r) ≡ (ok c, record r { window = next c w })
  unfolding Reader.first
  first_window next r c w h = rw h

  pub read_byte-Holds :
      (c : ℕ) (s : Bytes) (r : Reader.Reader I size)
      → Holds (c ∷ s) r
      → (r' : Reader.Reader I size) × (Reader.read_byte I size r ≡ (ok c, r')) × Holds s r'
  unfolding Reader.read_byte Reader.first
  read_byte-Holds c s r h =
      let (_, err_none, _, _, _, _) = h in
      let (w, r', e1, e2, (t, fine, fits, whole, more, short)) = ensure-Holds c s r h in
      let same : (c ∷ w) ++ t ≡ c ∷ s = rw e2 at whole in
      let rest : w ++ t ≡ s = cc in
      let small : length (c ∷ w) ≤ size = rw e2 at fits in
      (
        record { err = r'.err; window = w; rd = r'.rd },
        usable _ _ r.err err_none
            ∙ ap (Reader.first I size (λ c w. w)) e1
            ∙ first_window (λ c w. w) r' c w e2,
        (t, fine, omega arith, rest, more, omega arith),
      )

  pub peek_byte-Holds :
      (c : ℕ) (s : Bytes) (r : Reader.Reader I size)
      → Holds (c ∷ s) r
      → (r' : Reader.Reader I size) × (Reader.peek_byte I size r ≡ (ok c, r')) × Holds (c ∷ s) r'
  unfolding Reader.peek_byte Reader.first
  peek_byte-Holds c s r h =
      let (_, err_none, _, _, _, _) = h in
      let (w, r', e1, e2, (t, fine, fits, whole, more, short)) = ensure-Holds c s r h in
      (
        record { err = r'.err; window = c ∷ w; rd = r'.rd },
        usable _ _ r.err err_none
            ∙ ap (Reader.first I size (λ c w. c ∷ w)) e1
            ∙ first_window (λ c w. c ∷ w) r' c w e2,
        (t, fine, rw e2 at fits, rw e2 at whole, more, short),
      )
