-- ===== src/Bufio2/Texts.antt =====
-- WriteString.
use ipfs_nosql_frame.Prelude.{
  ℕ, zero, suc, ◌+◌, ◌≤◌, ◌<◌, ◌≡◌, true, false, [], ◌++◌, ◌∙◌, ap, append_assoc, arith, Bytes,
  length, take, drop, take-drop, leb, Bool-cases, inl, inr,
}
use ipfs_nosql_frame.Bufio2.Conn.{Outbound}
use ipfs_nosql_frame.Bufio2.Branches.{usable, when_true, when_false}
use ipfs_nosql_frame.Bufio2.Writer
use ipfs_nosql_frame.Bufio2.Sending.{length-drop, Wrote, fits-Wrote, turn-Wrote, free, Ends}

module _ (O : Outbound) (size : ℕ) (room : 0 < size) where
  string_fits :
      (f : ℕ) (p s : Bytes) (w : Writer.Writer O size)
      → length p ≤ Writer.available O size w
      → Wrote O size room s w
      → Ends O size room p s (Writer.write_string_loop O size (suc f) p w)
  unfolding Writer.write_string_loop
  string_fits f p s w small h =
      let (_, fine, _, _, _) = h in
      let yes : leb (length p) (Writer.available O size w) ≡ true = ground arith in
      (
        Writer.copied O size p w,
        usable _ _ w.err fine ∙ when_true _ _ (leb (length p) (Writer.available O size w)) yes,
        fits-Wrote O size room p s w small h,
      )

  string_turn :
      (f : ℕ) (p s : Bytes) (w : Writer.Writer O size)
      → Writer.available O size w < length p
      → Wrote O size room s w
      → ((q s' : Bytes) (w' : Writer.Writer O size)
          → w'.buf ≡ []
          → length q + Writer.available O size w ≡ length p
          → Wrote O size room s' w'
          → Ends O size room q s' (Writer.write_string_loop O size f q w'))
      → Ends O size room p s (Writer.write_string_loop O size (suc f) p w)
  unfolding Writer.write_string_loop
  string_turn f p s w big h then =
      let (_, fine, _, _, _) = h in
      let k = Writer.available O size w in
      let no : leb (length p) (Writer.available O size w) ≡ false = ground arith in
      let (w1, e1, empty, h1) = turn-Wrote O size room p s w h in
      let sizes : length (drop k p) + k ≡ length p = omega (arith, length-drop k p) in
      let (w2, e2, h2) = then (drop k p) (s ++ take k p) w1 empty sizes h1 in
      let whole : (s ++ take k p) ++ drop k p ≡ s ++ p =
        append_assoc s (take k p) (drop k p) ∙ ap (λ x. s ++ x) (take-drop k p) in
      (
        w2,
        usable _ _ w.err fine
            ∙ when_false _ _ (leb (length p) (Writer.available O size w)) no
            ∙ ap (λ x. Writer.write_string_loop O size f x.0 x.1) e1
            ∙ e2,
        rw (← whole) h2,
      )

  string_empty :
      (f : ℕ) (p s : Bytes) (w : Writer.Writer O size)
      → w.buf ≡ []
      → length p ≤ f
      → Wrote O size room s w
      → Ends O size room p s (Writer.write_string_loop O size (suc f) p w)
  string_empty zero p s w empty enough h = string_fits zero p s w (omega arith) h
  string_empty (suc f) p s w empty enough h =
      let all : Writer.available O size w ≡ size = free O size room w empty in
      elim (Bool-cases (leb (length p) (Writer.available O size w))) [
        | inl small ↦ string_fits (suc f) p s w (ground arith) h
        | inr big ↦
            string_turn (suc f) p s w (ground arith) h
              (λ q s' w' empty' sizes h'. string_empty f q s' w' empty' (omega arith) h')
      ]

  -- `WriteString` on a writer that has met no error, before a connection that works, returns no error, and
  -- what the connection got and the buffer holds is what it was before with `p` behind it. As many turns of
  -- its loop as `p` has bytes and two are enough.
  pub write_string-Wrote :
      (p s : Bytes) (w : Writer.Writer O size)
      → Wrote O size room s w
      → Ends O size room p s (Writer.write_string O size p w)
  unfolding Writer.write_string
  write_string-Wrote p s w h = elim (Bool-cases (leb (length p) (Writer.available O size w))) [
    | inl small ↦ string_fits (suc (length p)) p s w (ground arith) h
    | inr big ↦
        string_turn (suc (length p)) p s w (ground arith) h
          (λ q s' w' empty' sizes h'. string_empty (length p) q s' w' empty' (omega arith) h')
  ]
