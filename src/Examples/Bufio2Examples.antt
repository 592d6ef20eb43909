-- ===== src/Examples/Bufio2Examples.antt =====
-- Lines and blocks that come in parts of three bytes, and writes that pass an eight byte buffer.
use ipfs_nosql_frame.Prelude.{
  ◌≡◌, ◌≢◌, ◌<◌, refl, arith, none, [], ◌∷◌, ◌++◌, ok, All, Bytes, codes, length,
}
use ipfs_nosql_frame.Bufio2.Reader
use ipfs_nosql_frame.Bufio2.Holding
use ipfs_nosql_frame.Bufio2.Blocks
use ipfs_nosql_frame.Bufio2.Lines
use ipfs_nosql_frame.Bufio2.Writer
use ipfs_nosql_frame.Bufio2.Sending
use ipfs_nosql_frame.Bufio2.Texts
use ipfs_nosql_frame.Bufio2.Writing
use ipfs_nosql_frame.Examples.Wires.{inbound, outbound}

abbrev room : 0 < 16
room = omega arith

abbrev reader : Bytes → Reader.Reader inbound 16
reader s = record { err = none; window = []; rd = s }

abbrev small_line : Bytes
small_line = codes "PING\r"

abbrev long_line : Bytes
long_line = codes "a line that is longer than the buffer\r"

line_plain : All (λ c. c ≢ 10) small_line × All (λ c. c ≢ 10) long_line
line_plain = ground arith

read_bytes-Holds_example :
    (r' : Reader.Reader inbound 16) × (Reader.read_bytes inbound 16 100 10
        (reader (long_line ++ 10 ∷ codes "x"))
      ≡ (ok (long_line ++ 10 ∷ []), r'))
    × Holding.Holds inbound 16 100 room (codes "x") r'
read_bytes-Holds_example =
    Lines.read_bytes-Holds inbound 16 100 room 10 long_line (codes "x")
      (reader (long_line ++ 10 ∷ codes "x")) line_plain.1
      (long_line ++ 10 ∷ codes "x", refl, omega arith, refl, refl, omega arith)

read_full-Holds_example :
    (r' : Reader.Reader inbound 16) × (Reader.read_full inbound 16
        (length long_line)
        (reader (long_line ++ codes "x"))
      ≡ (ok long_line, r'))
    × Holding.Holds inbound 16 100 room (codes "x") r'
read_full-Holds_example =
    Blocks.read_full-Holds inbound 16 100 room long_line (codes "x")
      (reader (long_line ++ codes "x"))
      (long_line ++ codes "x", refl, omega arith, refl, refl, omega arith)

abbrev roomy : 0 < 8
roomy = omega arith

-- Five of the eight bytes of the buffer are taken.
abbrev writer : Writer.Writer outbound 8
writer = record { err = none; buf = codes "12345"; wr = codes "0" }

write-Wrote_example :
    (w' : Writer.Writer outbound 8) × (Writer.write outbound 8 long_line writer ≡ (none, w'))
    × Sending.Wrote outbound 8 roomy (codes "012345" ++ long_line) w'
write-Wrote_example =
    Writing.write-Wrote outbound 8 roomy long_line (codes "012345") writer
      (codes "0", refl, omega arith, refl, refl)

write_string-Wrote_example :
    (w' : Writer.Writer outbound 8) × (Writer.write_string outbound 8 long_line writer ≡ (none, w'))
    × Sending.Wrote outbound 8 roomy (codes "012345" ++ long_line) w'
write_string-Wrote_example =
    Texts.write_string-Wrote outbound 8 roomy long_line (codes "012345") writer
      (codes "0", refl, omega arith, refl, refl)
