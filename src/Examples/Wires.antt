-- ===== src/Examples/Wires.antt =====
-- Connections made of byte strings: one that delivers at most three bytes to a read, and one that takes
-- all that is written.
use ipfs_nosql_frame.Prelude.{
  ℕ, zero, suc, ◌≤◌, ◌<◌, ◌≡◌, refl, ap, Option, none, some, [], ◌∷◌, ◌++◌, arith, Bytes, length,
  take, drop, take-drop, length-take_le, leb, if◌then◌else◌,
}
use ipfs_nosql_frame.Credis.Source.{IoError, eof, Source, Sink}
use ipfs_nosql_frame.Bufio2.Conn.{Inbound, Outbound}
use ipfs_nosql_frame.Bufio2.Reading
use ipfs_nosql_frame.Bufio2.Writing

abbrev pub at_most_two : ℕ → ℕ
at_most_two n = if leb n 2 then n else 2

at_most_two_le : (n : ℕ) → at_most_two n ≤ n
at_most_two_le n = ground arith

abbrev pub read_three : ℕ → Bytes → (Bytes × Option IoError) × Bytes
read_three n [] = (([], some eof), [])
read_three zero (c ∷ s) = (([], none), c ∷ s)
read_three (suc n) (c ∷ s) = ((c ∷ take (at_most_two n) s, none), drop (at_most_two n) s)

pub read_three_delivers :
    (n c : ℕ) (s d : Bytes)
    → d ≡ c ∷ s
    → 0 < n
    → (a : ℕ) × (p t d' : Bytes) × (read_three n d ≡ ((a ∷ p, none), d'))
      × ((a ∷ p) ++ t ≡ c ∷ s)
      × (length (a ∷ p) ≤ n)
      × (d' ≡ t)
read_three_delivers zero c s d e h = let absurd : ⊥ = omega arith in elim absurd [ ]
read_three_delivers (suc n) c s d e h = (
  c,
  take (at_most_two n) s,
  drop (at_most_two n) s,
  drop (at_most_two n) s,
  ap (read_three (suc n)) e,
  ap (λ x. c ∷ x) (take-drop (at_most_two n) s),
  omega (arith, length-take_le (at_most_two n) s, at_most_two_le n),
  refl,
)

abbrev pub inbound : Inbound
inbound = record {
  Conn = Bytes;
  read = read_three;
  Delivers = λ s d. d ≡ s;
  read_delivers = read_three_delivers;
}

abbrev pub outbound : Outbound
outbound = record {
  Conn = Bytes;
  write = λ p d. ((length p, none), d ++ p);
  Got = λ s d. d ≡ s;
  write_got = λ p s d e. (d ++ p, refl, ap (λ x. x ++ p) e);
}

-- A reader of 32 bytes on it, for streams of less than 1000 bytes, and a writer of 8.
abbrev pub bytes_source : Source
bytes_source = Reading.source inbound 32 1000 (omega arith)

abbrev pub bytes_sink : Sink
bytes_sink = Writing.sink outbound 8 (omega arith)
