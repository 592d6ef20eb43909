-- ===== src/Bufio2/Writing.antt =====
-- That the buffered writer passes on what it is given, in order: the laws of the interface Sink.
use ipfs_nosql_frame.Prelude.{
  ℕ, suc, ◌≤◌, ◌<◌, ◌≡◌, refl, true, none, [], ◌∷◌, ◌++◌, ◌∙◌, ap, sym, append_assoc, append-nil,
  arith, Bytes, length, length-append, take, drop, take-drop, leb, ◌==◌, Bool-cases, inl, inr,
}
use ipfs_nosql_frame.Credis.Source.{Sink}
use ipfs_nosql_frame.Bufio2.Conn.{Outbound}
use ipfs_nosql_frame.Bufio2.Branches.{usable, on_empty, on_buffered, when_true, when_false}
use ipfs_nosql_frame.Bufio2.Writer
use ipfs_nosql_frame.Bufio2.Sending.{
  drop_all, Wrote, flush-Wrote, fits-Wrote, turn-Wrote, same_text, free, Ends, along,
}
use ipfs_nosql_frame.Bufio2.Texts.{write_string-Wrote}

module _ (O : Outbound) (size : ℕ) (room : 0 < size) where
  write_fits :
      (f : ℕ) (p s : Bytes) (w : Writer.Writer O size)
      → length p ≤ Writer.available O size w
      → Wrote O size room s w
      → Ends O size room p s (Writer.write_loop O size (suc f) p w)
  unfolding Writer.write_loop
  write_fits f p s w small h =
      let (_, fine, _, _, _) = h in
      let yes : leb (length p) (Writer.available O size w) ≡ true = ground arith in
      (
        Writer.copied O size p w,
        usable _ _ w.err fine ∙ when_true _ _ (leb (length p) (Writer.available O size w)) yes,
        fits-Wrote O size room p s w small h,
      )

  -- With an empty buffer: into the buffer, or past it in one write.
  write_empty :
      (f : ℕ) (p s : Bytes) (w : Writer.Writer O size)
      → w.buf ≡ []
      → Wrote O size room s w
      → Ends O size room p s (Writer.write_loop O size (suc (suc f)) p w)
  unfolding Writer.write_loop Writer.wrote_through
  write_empty f p s w empty h = elim (Bool-cases (leb (length p) (Writer.available O size w))) [
    | inl small ↦ write_fits (suc f) p s w (ground arith) h
    | inr big ↦
        let (t, fine, fits, whole, got) = h in
        let nothing : t ≡ s = sym (append-nil t) ∙ ap (λ b. t ++ b) (sym empty) ∙ whole in
        let (d', e1, got') = O.write_got p t w.wr got in
        let w1 : Writer.Writer O size = record { err = none; buf = w.buf; wr = d' } in
        let after : Wrote O size room (s ++ p) w1 = (
          t ++ p,
          refl,
          fits,
          ap (λ b. (t ++ p) ++ b) empty ∙ append-nil (t ++ p) ∙ ap (λ x. x ++ p) nothing,
          got',
        ) in
        let (w2, e2, h2) = write_fits f [] (s ++ p) w1 (omega arith) after in
        (
          w2,
          usable _ _ w.err fine
              ∙ when_false _ _ (leb (length p) (Writer.available O size w)) big
              ∙ ap (λ x. Writer.write_loop O size (suc f) x.0 x.1)
                  (on_empty _ _ w.buf empty
                    ∙ ap (λ x. Writer.wrote_through O size p x w) e1
                    ∙ ap (λ x. (x, w1)) (drop_all p))
              ∙ e2,
          same_text O size room ((s ++ p) ++ []) (s ++ p) w2 (append-nil (s ++ p)) h2,
        )
  ]

  -- With something in the buffer, a first turn that fills and flushes it.
  write_buffered :
      (p s b : Bytes) (w : Writer.Writer O size)
      → w.buf ≡ b
      → Wrote O size room s w
      → Ends O size room p s (Writer.write_loop O size 3 p w)
  unfolding Writer.write_loop
  write_buffered p s [] w e h = write_empty 1 p s w e h
  write_buffered p s (c ∷ b) w e h =
      elim (Bool-cases (leb (length p) (Writer.available O size w))) [
        | inl small ↦ write_fits 2 p s w (ground arith) h
        | inr big ↦
            let (_, fine, _, _, _) = h in
            let k = Writer.available O size w in
            let (w1, e1, empty, h1) = turn-Wrote O size room p s w h in
            let (w2, e2, h2) = write_empty 0 (drop k p) (s ++ take k p) w1 empty h1 in
            let whole : (s ++ take k p) ++ drop k p ≡ s ++ p =
              append_assoc s (take k p) (drop k p) ∙ ap (λ x. s ++ x) (take-drop k p) in
            (
              w2,
              usable _ _ w.err fine
                  ∙ when_false _ _ (leb (length p) (Writer.available O size w)) big
                  ∙ ap (λ x. Writer.write_loop O size 2 x.0 x.1) (on_buffered _ _ w.buf c b e ∙ e1)
                  ∙ e2,
              rw (← whole) h2,
            )
      ]

  -- `Write` on a writer that has met no error, before a connection that works, returns no error, and what
  -- the connection got and the buffer holds is what it was before with `p` behind it. The three turns that
  -- its loop is given are enough.
  pub write-Wrote :
      (p s : Bytes) (w : Writer.Writer O size)
      → Wrote O size room s w
      → Ends O size room p s (Writer.write O size p w)
  unfolding Writer.write
  write-Wrote p s w h = write_buffered p s w.buf w refl h

  put-Wrote :
      (c : ℕ) (s : Bytes) (w : Writer.Writer O size)
      → 0 < Writer.available O size w
      → Wrote O size room s w
      → Ends O size room (c ∷ []) s (Writer.put O size c (none, w))
  unfolding Writer.put Writer.available
  put-Wrote c s w some_left (t, fine, fits, whole, got) = (
    record { err = w.err; buf = w.buf ++ c ∷ []; wr = w.wr },
    refl,
    (
      t,
      fine,
      omega (arith, length-append {0} w.buf (c ∷ [])),
      sym (append_assoc t w.buf (c ∷ [])) ∙ ap (λ x. x ++ c ∷ []) whole,
      got,
    ),
  )

  pub write_byte-Wrote :
      (c : ℕ) (s : Bytes) (w : Writer.Writer O size)
      → Wrote O size room s w
      → Ends O size room (c ∷ []) s (Writer.write_byte O size c w)
  unfolding Writer.write_byte
  write_byte-Wrote c s w h =
      let (_, fine, _, _, _) = h in
      along O size room (c ∷ []) s _ _ (usable _ _ w.err fine)
        (elim (Bool-cases (Writer.available O size w == 0)) [
          | inl no_room ↦
              let (w1, e1, empty, h1) = flush-Wrote O size room s w h in
              let all : Writer.available O size w1 ≡ size = free O size room w1 empty in
              along O size room (c ∷ []) s _ _
                (ap (Writer.put O size c)
                  (when_true _ _ (Writer.available O size w == 0) no_room ∙ e1))
                (put-Wrote c s w1 (omega arith) h1)
          | inr some_left ↦
              along O size room (c ∷ []) s _ _
                (ap (Writer.put O size c)
                  (when_false _ _ (Writer.available O size w == 0) some_left))
                (put-Wrote c s w (ground arith) h)
        ])

  pub flush-Sent :
      (s : Bytes) (w : Writer.Writer O size)
      → Wrote O size room s w
      → (w' : Writer.Writer O size) × (Writer.flush O size w ≡ (none, w')) × Wrote O size room s w'
  flush-Sent s w h = let (w', e, _, h') = flush-Wrote O size room s w h in (w', e, h')

  -- The buffered writer as the codec uses it.
  abbrev pub sink : Sink
  sink = record {
    Writer = Writer.Writer O size;
    write_byte = Writer.write_byte O size;
    write = Writer.write O size;
    write_string = Writer.write_string O size;
    flush = Writer.flush O size;
    Wrote = Wrote O size room;
    write_byte_wrote = write_byte-Wrote;
    write_wrote = write-Wrote;
    write_string_wrote = write_string-Wrote O size room;
    flush_wrote = flush-Sent;
  }
