-- ===== src/Rediscluster/Node/Numbers.antt =====
-- The lines of a reply: parseLen and parseInt read back what is printed, and readLine a line.
use ipfs_nosql_frame.Prelude.{
  ℕ, suc, ◌+◌, ◌-◌, ◌*◌, ◌%◌, ◌^◌, ◌≤◌, ◌<◌, ℤ, pos, negsuc, ◌≡◌, ◌≢◌, refl, inl, inr, Bool-cases,
  true, false, some, [], ◌∷◌, ◌++◌, arith, Bytes, length, length-append, take, get_or,
  take-append_self, get_or-append_length, All, ltb, ◌==◌, ok,
}
use ipfs_nosql_frame.Credis.Strconv.{
  scan, parse_nat, format_nat, format_int, format_nat_cons, format_nat-All, parse_nat-format_nat,
  is_digit, IsInt64, IsDigit,
}
use ipfs_nosql_frame.Credis.Encoder.{crlf}
use ipfs_nosql_frame.Credis.Decoder.{cr, lf}
use ipfs_nosql_frame.Credis.Source.{Source}
use ipfs_nosql_frame.Credis.Lines.{line_assoc, line_end, line-ne-lf}
use ipfs_nosql_frame.Rediscluster.Node.Wire
use ipfs_nosql_frame.Rediscluster.Node.Wire.{digits_loop, signed}

scan-le : (p : Bytes) (n m : ℕ) → scan p n ≡ some m → n ≤ m
unfolding scan
scan-le [] n m e = let same : n ≡ m = cc in omega (arith, same)
scan-le (c ∷ p) n m e = ground (arith, scan-le p (n * 10 + (c - b'0')) m)

no_wrap : (a b : ℕ) → a + b < 2 ^ 64 → (a % 2 ^ 64 + b) % 2 ^ 64 ≡ a + b
no_wrap a b h = omega arith

-- As long as the value fits into 64 bits, the loop computes it.
digits_loop-scan : (p : Bytes) (n m : ℕ) → m < 2 ^ 64 → scan p n ≡ some m → digits_loop p n ≡ some m
unfolding scan digits_loop
digits_loop-scan [] n m h e = e
digits_loop-scan (c ∷ p) n m h e = elim (Bool-cases (is_digit c)) [
  | inl digit ↦
      let inner : scan p (n * 10 + (c - b'0')) ≡ some m = rw digit at e in
      let small : n * 10 + (c - b'0') < 2 ^ 64 =
        omega (arith, scan-le p (n * 10 + (c - b'0')) m inner) in
      rw (digit, no_wrap (n * 10) (c - b'0') small)
        (digits_loop-scan p (n * 10 + (c - b'0')) m h inner)
  | inr strange ↦ let impossible : ⊥ = ground arith in elim impossible [ ]
]

pub digits_loop-format_nat : (n : ℕ) → n < 2 ^ 64 → digits_loop (format_nat n) 0 ≡ some n
unfolding parse_nat
digits_loop-format_nat n h =
    let (c, s, e) = format_nat_cons n in
    let scanned : scan (c ∷ s) 0 ≡ some n = rw e at (parse_nat-format_nat n) in
    rw e (digits_loop-scan (c ∷ s) 0 n h scanned)

signed_pos : (n : ℕ) → n < 2 ^ 63 → signed n ≡ pos n
unfolding signed
signed_pos n h = ground arith

signed_neg : (n : ℕ) → n < 2 ^ 63 → signed ((2 ^ 64 - suc n) % 2 ^ 64) ≡ negsuc n
unfolding signed
signed_neg n h =
    let low : (2 ^ 64 - suc n) % 2 ^ 64 ≡ 2 ^ 64 - suc n = omega arith in
    let big : ltb (2 ^ 64 - suc n) (2 ^ 63) ≡ false = ground arith in
    let back : 2 ^ 64 - 1 - (2 ^ 64 - suc n) ≡ n = omega arith in rw (low, big, back) refl

not_minus : (c : ℕ) (s : Bytes) → All IsDigit (c ∷ s) → (c == b'-') ≡ false
not_minus c s (digit, _) = ground arith

parse_len-format_nat : (n : ℕ) → n < 2 ^ 63 → Wire.parse_len (format_nat n) ≡ ok (pos n)
unfolding Wire.parse_len
parse_len-format_nat n h =
    let (c, s, e) = format_nat_cons n in
    let number : digits_loop (c ∷ s) 0 ≡ some n =
      rw e at (digits_loop-format_nat n (omega arith)) in
    rw (e, not_minus c s (rw e at (format_nat-All n)), number, signed_pos n h) refl

parse_int-format_int : (z : ℤ) → IsInt64 z → Wire.parse_int (format_int z) ≡ ok z
unfolding Wire.parse_int Wire.parse_negative format_int
parse_int-format_int (pos n) h =
    let (c, s, e) = format_nat_cons n in
    let number : digits_loop (c ∷ s) 0 ≡ some n =
      rw e at (digits_loop-format_nat n (omega arith)) in
    rw (e, not_minus c s (rw e at (format_nat-All n)), number, signed_pos n h) refl
parse_int-format_int (negsuc n) h =
    let (c, s, e) = format_nat_cons (suc n) in
    let number : digits_loop (c ∷ s) 0 ≡ some (suc n) =
      rw e at (digits_loop-format_nat (suc n) (omega arith)) in
    rw (e, number, signed_neg n h) refl

-- parseLen reads back every printed length, parseInt every printed int64, and parseLen reads -1 as it is.
pub parse-printed :
    (n : ℕ) (z : ℤ)
    → n < 2 ^ 63
    → IsInt64 z
    → (Wire.parse_len (format_nat n) ≡ ok (pos n))
      × (Wire.parse_int (format_int z) ≡ ok z)
      × (Wire.parse_len (format_int (negsuc 0)) ≡ ok (negsuc 0))
unfolding format_int Wire.parse_len
parse-printed n z h hz = (parse_len-format_nat n h, parse_int-format_int z hz, refl)

-- Cutting the end off a line, as readLine does it.
cut_line :
    (line : Bytes)
    → (ltb (length (line ++ crlf)) 2 ≡ false)
      × ((get_or (line ++ crlf) (length (line ++ crlf) - 2) 0 == cr) ≡ true)
      × (take (length (line ++ crlf) - 2) (line ++ crlf) ≡ line)
cut_line line =
    let size : length (line ++ crlf) ≡ length line + 2 =
      omega (arith, length-append {0} line crlf) in
    let back : length (line ++ crlf) - 2 ≡ length line = omega arith in
    (
      ground arith,
      rw (back, get_or-append_length line crlf 0) refl,
      rw (back, take-append_self line crlf) refl,
    )

module _ (S : Source) where
  -- From a reader that holds `p` and more, the method returns `a` and leaves what follows `p`.
  abbrev pub Gives : {A : Type 0} → Wire.Reading S.Reader A → Bytes → A → Type 0
  Gives m p a =
      (rest : Bytes) (r : S.Reader)
      → S.Holds (p ++ rest) r
      → (r' : S.Reader) × (m r ≡ (ok a, r')) × S.Holds rest r'

  pub line-Gives :
      (turns : ℕ) (line : Bytes)
      → All (λ c. c ≢ lf) line
      → Gives (Wire.read_line S (suc turns)) (line ++ crlf) line
  unfolding Wire.read_line Wire.line_loop
  line-Gives turns line h rest r g =
      let (r1, e1, h1) =
        S.read_bytes_holds lf (line ++ cr ∷ []) rest r (line-ne-lf line h) (rw line_assoc at g) in
      let (long, ended, cut) = cut_line line in (r1, rw (e1, line_end, long, ended, cut) refl, h1)
