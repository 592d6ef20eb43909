-- ===== src/Bufio2/Sending.antt =====
-- What a buffered writer has been given, and the turns that the loops of Write and WriteString share.
use ipfs_nosql_frame.Prelude.{
  ℕ, zero, suc, ◌-◌, ◌≤◌, ◌<◌, ◌≡◌, refl, false, Option, none, [], ◌∷◌, ◌++◌, ◌∙◌, ap, sym,
  append_assoc, append-nil, arith, Bytes, length, length-append, take, drop, length-take_le, ltb,
}
use ipfs_nosql_frame.Credis.Source.{IoError}
use ipfs_nosql_frame.Bufio2.Conn.{Outbound}
use ipfs_nosql_frame.Bufio2.Branches.{usable, on_empty, on_buffered, when_false}
use ipfs_nosql_frame.Bufio2.Writer

take_all : (n : ℕ) (p : Bytes) → length p ≤ n → take n p ≡ p
take_all zero [] h = refl
take_all zero (c ∷ p) h = let absurd : ⊥ = omega arith in elim absurd [ ]
take_all (suc n) [] h = refl
take_all (suc n) (c ∷ p) h = ap (λ l. c ∷ l) (take_all n p (omega arith))

pub drop_all : (p : Bytes) → drop (length p) p ≡ []
drop_all [] = refl
drop_all (c ∷ p) = drop_all p

pub length-drop : (n : ℕ) (p : Bytes) → length (drop n p) ≡ length p - n
length-drop zero p = omega arith
length-drop (suc n) [] = omega arith
length-drop (suc n) (c ∷ p) = omega (arith, length-drop n p)

module _ (O : Outbound) (size : ℕ) (room : 0 < size) where
  -- The writer has met no error, and what the connection got and what is in the buffer make up `s`.
  abbrev pub Wrote : Bytes → Writer.Writer O size → Type 0
  Wrote s w = (t : Bytes) × (w.err ≡ none) × (length w.buf ≤ size) × (t ++ w.buf ≡ s) × O.Got t w.wr

  flush_at :
      (s b : Bytes) (w : Writer.Writer O size)
      → w.buf ≡ b
      → Wrote s w
      → (w' : Writer.Writer O size) × (Writer.flush O size w ≡ (none, w'))
        × (w'.buf ≡ [])
        × Wrote s w'
  unfolding Writer.flush Writer.flushed
  flush_at s [] w e h =
      let (_, fine, _, _, _) = h in (w, usable _ _ w.err fine ∙ on_empty _ _ w.buf e, e, h)
  flush_at s (c ∷ b) w e (t, fine, fits, whole, got) =
      let (d', e1, got') = O.write_got w.buf t w.wr got in
      let all_of_it : ltb (length w.buf) (length w.buf) ≡ false = ground arith in
      (
        record { err = none; buf = []; wr = d' },
        usable _ _ w.err fine
            ∙ on_buffered _ _ w.buf c b e
            ∙ ap (λ x. Writer.flushed O size x w) e1
            ∙ when_false _ _ (ltb (length w.buf) (length w.buf)) all_of_it,
        refl,
        (t ++ w.buf, refl, omega arith, append-nil (t ++ w.buf) ∙ whole, got'),
      )

  pub flush-Wrote :
      (s : Bytes) (w : Writer.Writer O size)
      → Wrote s w
      → (w' : Writer.Writer O size) × (Writer.flush O size w ≡ (none, w'))
        × (w'.buf ≡ [])
        × Wrote s w'
  flush-Wrote s w h = flush_at s w.buf w refl h

  copied-Wrote :
      (p s : Bytes) (w : Writer.Writer O size)
      → Wrote s w
      → Wrote (s ++ take (Writer.available O size w) p) (Writer.copied O size p w)
  unfolding Writer.copied Writer.available
  copied-Wrote p s w (t, fine, fits, whole, got) =
      let part = take (size - length w.buf) p in
      (
        t,
        fine,
        omega (arith, length-append {0} w.buf part, length-take_le (size - length w.buf) p),
        sym (append_assoc t w.buf part) ∙ ap (λ x. x ++ part) whole,
        got,
      )

  retext : (s a b : Bytes) (w : Writer.Writer O size) → a ≡ b → Wrote (s ++ a) w → Wrote (s ++ b) w
  retext s a b w e h = rw (← e) h

  pub same_text : (s s' : Bytes) (w : Writer.Writer O size) → s ≡ s' → Wrote s w → Wrote s' w
  same_text s s' w e h = rw (← e) h

  -- Where what is to be written fits the buffer.
  pub fits-Wrote :
      (p s : Bytes) (w : Writer.Writer O size)
      → length p ≤ Writer.available O size w
      → Wrote s w
      → Wrote (s ++ p) (Writer.copied O size p w)
  fits-Wrote p s w small h =
      retext s (take (Writer.available O size w) p) p (Writer.copied O size p w)
        (take_all (Writer.available O size w) p small) (copied-Wrote p s w h)

  -- One turn of either loop that copies what fits and flushes.
  pub turn-Wrote :
      (p s : Bytes) (w : Writer.Writer O size)
      → Wrote s w
      → (w' : Writer.Writer O size) × (Writer.copy_flush O size p w
          ≡ (drop (Writer.available O size w) p, w'))
        × (w'.buf ≡ [])
        × Wrote (s ++ take (Writer.available O size w) p) w'
  unfolding Writer.copy_flush
  turn-Wrote p s w h =
      let (w', e, empty, h') =
        flush-Wrote (s ++ take (Writer.available O size w) p) (Writer.copied O size p w)
          (copied-Wrote p s w h) in
      (w', ap (λ x. (drop (Writer.available O size w) p, x.1)) e, empty, h')

  pub free : (w : Writer.Writer O size) → w.buf ≡ [] → Writer.available O size w ≡ size
  unfolding Writer.available
  free w e = ap (λ b. size - length b) e ∙ omega arith

  -- The text `p` is written by `m`.
  abbrev pub Ends : Bytes → Bytes → Option IoError × Writer.Writer O size → Type 0
  Ends p s m = (w' : Writer.Writer O size) × (m ≡ (none, w')) × Wrote (s ++ p) w'

  pub along :
      (p s : Bytes) (m m' : Option IoError × Writer.Writer O size)
      → m ≡ m'
      → Ends p s m'
      → Ends p s m
  along p s m m' e h = rw e h
