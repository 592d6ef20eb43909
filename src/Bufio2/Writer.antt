-- ===== src/Bufio2/Writer.antt =====
-- bufio.go, the type Writer. `buf` is buf[:wpos], `size` is len(buf), and the loops of Write and
-- WriteString take fuel. Both return a number of bytes too, which no caller uses.
use ipfs_nosql_frame.Prelude.{
  ℕ, zero, suc, ◌-◌, Option, none, some, [], ◌∷◌, ◌++◌, Bytes, length, take, drop, leb, ltb, ◌==◌,
  if◌then◌else◌,
}
use ipfs_nosql_frame.Credis.Source.{IoError, short_write, stuck}
use ipfs_nosql_frame.Bufio2.Conn.{Outbound}
use ipfs_nosql_frame.Bufio2.Reader.{if_failed, if_empty}

module _ (O : Outbound) (size : ℕ) where
  -- Writer{err, buf, wr, wpos}
  pub record Writer : Type 0 where
    pub err : Option IoError
    pub buf : Bytes
    pub wr : O.Conn

  unfoldable pub new_writer : O.Conn → Writer
  new_writer d = record { err = none; buf = []; wr = d }

  -- What flush does with the result of Write.
  unfoldable pub flushed : (ℕ × Option IoError) × O.Conn → Writer → Option IoError × Writer
  flushed ((n, some e), d) w = (some e, record { err = some e; buf = w.buf; wr = d })
  flushed ((n, none), d) w =
      if ltb n (length w.buf)
      then (some short_write, record { err = some short_write; buf = w.buf; wr = d })
      else (none, record { err = none; buf = []; wr = d })

  unfoldable pub flush : Writer → Option IoError × Writer
  unfolding flushed
  flush w =
      if_failed w.err (λ e. (some e, w)) (if_empty w.buf (none, w) (flushed (O.write w.buf w.wr) w))

  unfoldable pub available : Writer → ℕ
  available w = size - length w.buf

  -- `copy(b.buf[b.wpos:], p)`
  unfoldable pub copied : Bytes → Writer → Writer
  unfolding available
  copied p w = record { err = w.err; buf = w.buf ++ take (available w) p; wr = w.wr }

  -- What Write does past its buffer: the connection takes `n` bytes of `p`.
  unfoldable pub wrote_through : Bytes → (ℕ × Option IoError) × O.Conn → Writer → Bytes × Writer
  wrote_through p ((n, e), d) w = (drop n p, record { err = e; buf = w.buf; wr = d })

  -- The copy and the flush of one turn, with what is left of `p`.
  unfoldable pub copy_flush : Bytes → Writer → Bytes × Writer
  unfolding copied available flush
  copy_flush p w = (drop (available w) p, (flush (copied p w)).1)

  -- `Write`
  unfoldable pub write_loop : ℕ → Bytes → Writer → Option IoError × Writer
  unfolding available copied wrote_through copy_flush
  write_loop zero p w = (some stuck, w)
  write_loop (suc f) p w =
      let next = if_empty w.buf (wrote_through p (O.write p w.wr) w) (copy_flush p w) in
      let rest = write_loop f next.0 next.1 in
      if_failed w.err (λ e. (some e, w))
        (if leb (length p) (available w) then (none, copied p w) else rest)

  -- `WriteString`
  unfoldable pub write_string_loop : ℕ → Bytes → Writer → Option IoError × Writer
  unfolding available copied copy_flush
  write_string_loop zero p w = (some stuck, w)
  write_string_loop (suc f) p w =
      let next = copy_flush p w in
      let rest = write_string_loop f next.0 next.1 in
      if_failed w.err (λ e. (some e, w))
        (if leb (length p) (available w) then (none, copied p w) else rest)

  unfoldable pub write : Bytes → Writer → Option IoError × Writer
  unfolding write_loop
  write p w = write_loop 3 p w

  unfoldable pub write_string : Bytes → Writer → Option IoError × Writer
  unfolding write_string_loop
  write_string p w = write_string_loop (suc (suc (length p))) p w

  -- `b.buf[b.wpos] = c`
  unfoldable pub put : ℕ → Option IoError × Writer → Option IoError × Writer
  put c (some e, w) = (some e, w)
  put c (none, w) = (none, record { err = w.err; buf = w.buf ++ c ∷ []; wr = w.wr })

  unfoldable pub write_byte : ℕ → Writer → Option IoError × Writer
  unfolding available flush put
  write_byte c w =
      if_failed w.err (λ e. (some e, w)) (put c (if available w == 0 then flush w else (none, w)))
