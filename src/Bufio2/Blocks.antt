-- ===== src/Bufio2/Blocks.antt =====
-- Reading blocks: Read and ReadFull.
use ipfs_nosql_frame.Prelude.{
  ℕ, zero, suc, ◌+◌, ◌-◌, ◌≤◌, ◌<◌, ◌≡◌, inl, inr, refl, Option, none, [], ◌∷◌, ◌++◌, append_assoc,
  append-nil, arith, Bytes, ◌∙◌, ap, length, take, drop, take-drop, length-take_le, length-drop_le,
  if◌then◌else◌, ok, leb, Bool-cases,
}
use ipfs_nosql_frame.Credis.Source.{IoError}
use ipfs_nosql_frame.Bufio2.Conn.{Inbound}
use ipfs_nosql_frame.Bufio2.Reader
use ipfs_nosql_frame.Bufio2.Reader.{Slice, found, full, failed, index_byte, if_failed, if_empty}
use ipfs_nosql_frame.Bufio2.Split.{prefix_split, length_parts, append_parts}
use ipfs_nosql_frame.Bufio2.Branches.{usable, on_empty, on_buffered, when_true, when_false}
use ipfs_nosql_frame.Bufio2.Holding.{Holds, fill-Holds}

module _ (I : Inbound) (size limit : ℕ) (room : 0 < size) where
  -- The result `m` of a read of `suc n` bytes has at least one of them, no error, and leaves the rest.
  abbrev Delivered : ℕ → Bytes → (Bytes × Option IoError) × Reader.Reader I size → Type 0
  Delivered n s m =
      (a : ℕ) × (p t : Bytes) × (r' : Reader.Reader I size) × (m ≡ ((a ∷ p, none), r'))
      × ((a ∷ p) ++ t ≡ s)
      × (length (a ∷ p) ≤ suc n)
      × Holds I size limit room t r'

  along :
      (n : ℕ) (s : Bytes) (m m' : (Bytes × Option IoError) × Reader.Reader I size)
      → m ≡ m'
      → Delivered n s m'
      → Delivered n s m
  along n s m m' e h = rw e h

  give-Holds :
      (n : ℕ) (s : Bytes) (r : Reader.Reader I size) (b : ℕ) (w : Bytes)
      → r.window ≡ b ∷ w
      → Holds I size limit room s r
      → Delivered n s (Reader.give I size (suc n) r)
  unfolding Reader.give
  give-Holds n s r b w e (t, fine, fits, whole, more, short) =
      let small : length (b ∷ w) ≤ size = rw e at fits in
      let all : (b ∷ w) ++ t ≡ s = rw e at whole in
      let joined : (b ∷ take n w) ++ (drop n w ++ t) ≡ s =
        rw (← append_assoc (take n w) (drop n w) t, take-drop n w) all in
      let size_s : length s ≡ length (b ∷ take n w) + length (drop n w ++ t) =
        length_parts (b ∷ take n w) (drop n w ++ t) s joined in
      (
        b,
        take n w,
        drop n w ++ t,
        record { err = r.err; window = drop n w; rd = r.rd },
        rw e,
        joined,
        omega (arith, length-take_le n w),
        (t, fine, omega (arith, length-drop_le n w), refl, more, omega arith),
      )

  -- Reading past the buffer into the caller's slice.
  through-Holds :
      (n c : ℕ) (s : Bytes) (r : Reader.Reader I size)
      → r.window ≡ []
      → Holds I size limit room (c ∷ s) r
      → Delivered n (c ∷ s) (Reader.read_through I size (I.read (suc n) r.rd) r)
  unfolding Reader.read_through
  through-Holds n c s r e (t, fine, fits, whole, more, short) =
      let none_left : t ≡ c ∷ s = rw e at whole in
      let (a, p, t', d', e1, e2, e3, e4) =
        I.read_delivers (suc n) c s r.rd (rw none_left at more) (omega arith) in
      let size_s : length (c ∷ s) ≡ length (a ∷ p) + length t' =
        length_parts (a ∷ p) t' (c ∷ s) e2 in
      (
        a,
        p,
        t',
        record { err = none; window = r.window; rd = d' },
        ap (λ x. Reader.read_through I size x r) e1,
        e2,
        e3,
        (t', refl, fits, rw e refl, e4, omega arith),
      )

  refill-Holds :
      (n c : ℕ) (s : Bytes) (r : Reader.Reader I size)
      → r.window ≡ []
      → Holds I size limit room (c ∷ s) r
      → Delivered n (c ∷ s) (Reader.give_filled I size (suc n) (Reader.fill I size r))
  unfolding Reader.give_filled
  refill-Holds n c s r e (t, fine, fits, whole, more, short) =
      let none_left : t ≡ c ∷ s = rw e at whole in
      let free : length r.window < size = rw e room in
      let same : r.window ++ c ∷ s ≡ c ∷ s = rw e refl in
      let (a, p, r', e1, e2, h) =
        fill-Holds I size limit room (c ∷ s) s c r fine free same (rw none_left at more) short in
      let view : r'.window ≡ a ∷ p = rw e at e2 in
      along n (c ∷ s) _ _ (ap (Reader.give_filled I size (suc n)) e1)
        (give-Holds n (c ∷ s) r' a p view h)

  read_at :
      (n c : ℕ) (s : Bytes) (r : Reader.Reader I size) (win : Bytes)
      → r.window ≡ win
      → Holds I size limit room (c ∷ s) r
      → Delivered n (c ∷ s) (
          if_empty r.window
            (if leb size (suc n)
              then Reader.read_through I size (I.read (suc n) r.rd) r
              else Reader.give_filled I size (suc n) (Reader.fill I size r))
            (Reader.give I size (suc n) r))
  unfolding Reader.read_through Reader.give_filled
  read_at n c s r (b ∷ w) e h =
      along n (c ∷ s) _ _ (on_buffered _ _ r.window b w e) (give-Holds n (c ∷ s) r b w e h)
  read_at n c s r [] e h =
      along n (c ∷ s) _ _ (on_empty _ _ r.window e) (elim (Bool-cases (leb size (suc n))) [
        | inl big ↦
            along n (c ∷ s) _ _ (when_true _ _ (leb size (suc n)) big) (through-Holds n c s r e h)
        | inr small ↦
            along n (c ∷ s) _ _ (when_false _ _ (leb size (suc n)) small) (refill-Holds n c s r e h)
      ])

  -- `Read` of at least one byte delivers at least one, in order.
  read-Holds :
      (n c : ℕ) (s : Bytes) (r : Reader.Reader I size)
      → Holds I size limit room (c ∷ s) r
      → Delivered n (c ∷ s) (Reader.read I size (suc n) r)
  unfolding Reader.read
  read-Holds n c s r h =
      let (_, err_none, _, _, _, _) = h in
      along n (c ∷ s) _ _ (usable _ _ r.err err_none) (read_at n c s r r.window refl h)

  full_step :
      (f need k : ℕ) (acc p : Bytes) (r r' : Reader.Reader I size)
      → Reader.read I size (suc need) r ≡ ((p, none), r')
      → suc need - length p ≡ k
      → Reader.full_loop I size (suc f) (suc need) acc r ≡ Reader.full_loop I size f k (acc ++ p) r'
  unfolding Reader.full_loop
  full_step f need k acc p r r' e1 e2 = rw (e1, e1, e2, Reader.full_loop)

  full_loop-Holds :
      (f : ℕ) (q acc rest : Bytes) (r : Reader.Reader I size)
      → length q ≤ f
      → Holds I size limit room (q ++ rest) r
      → (r' : Reader.Reader I size) × (Reader.full_loop I size f (length q) acc r
          ≡ (ok (acc ++ q), r'))
        × Holds I size limit room rest r'
  unfolding Reader.full_loop
  full_loop-Holds f [] acc rest r enough h = (r, rw append-nil, h)
  full_loop-Holds zero (c ∷ q) acc rest r enough h = let absurd : ⊥ = omega arith in elim absurd [ ]
  full_loop-Holds (suc f) (c ∷ q) acc rest r enough h =
      let (a, p, t, r1, e1, e2, e3, h1) = read-Holds (length q) c (q ++ rest) r h in
      let (q', f1, f2) = prefix_split (a ∷ p) t (c ∷ q) rest e2 e3 in
      let sizes : length (c ∷ q) ≡ length (a ∷ p) + length q' =
        length_parts (a ∷ p) q' (c ∷ q) f1 in
      let (r2, e4, h2) = full_loop-Holds f q' (acc ++ a ∷ p) rest r1 (omega arith) (rw f2 at h1) in
      let need : suc (length q) - length (a ∷ p) ≡ length q' = omega arith in
      let joined : (acc ++ a ∷ p) ++ q' ≡ acc ++ c ∷ q = append_parts acc (a ∷ p) q' (c ∷ q) f1 in
      (
        r2,
        full_step f (length q) (length q') acc (a ∷ p) r r1 e1 need
            ∙ e4
            ∙ ap (λ x. (ok x, r2)) joined,
        h2,
      )

  -- `ReadFull` of as many bytes as `p` has, on a reader that holds `p` and more, returns `p` and leaves
  -- the rest, in whatever parts the connection delivers.
  pub read_full-Holds :
      (p rest : Bytes) (r : Reader.Reader I size)
      → Holds I size limit room (p ++ rest) r
      → (r' : Reader.Reader I size) × (Reader.read_full I size (length p) r ≡ (ok p, r'))
        × Holds I size limit room rest r'
  unfolding Reader.read_full
  read_full-Holds p rest r h =
      let (_, err_none, _, _, _, _) = h in
      let (r', e, h') = full_loop-Holds (length p) p [] rest r (omega arith) h in
      (r', usable _ _ r.err err_none ∙ e, h')
