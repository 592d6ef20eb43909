-- ===== src/Credis/Strconv.antt =====
-- What the code uses of Go's strconv: FormatInt and ParseInt in base 10 for int64.
use native.Mathlib.Nat.{pow-suc}
use ipfs_nosql_frame.Prelude.{
  length, ℕ, zero, suc, ◌+◌, ◌-◌, ◌*◌, ◌/◌, ◌%◌, ◌^◌, ◌≤◌, ◌<◌, ℤ, pos, negsuc, ◌≡◌, inl, inr,
  Bool-cases, Bool, ◌&&◌, Option, none, some, [], ◌∷◌, ◌++◌, refl, arith, Bytes, ltb, leb, ◌==◌,
  if◌then◌else◌, All,
}

abbrev pub max_int64 : ℕ
max_int64 = 2 ^ 63 - 1

abbrev pub is_digit : ℕ → Bool
is_digit c = leb b'0' c && leb c b'9'

abbrev pub IsDigit : ℕ → Type 0
IsDigit c = (b'0' ≤ c) × (c ≤ b'9')

abbrev pub IsInt64 : ℤ → Type 0
IsInt64 (pos n) = n < 2 ^ 63
IsInt64 (negsuc n) = n < 2 ^ 63

abbrev pub neg : ℕ → ℤ
neg zero = pos 0
neg (suc n) = negsuc n

-- The digits of `n` in front of `out`; the first argument bounds their number.
unfoldable pub emit : ℕ → ℕ → Bytes → Bytes
emit zero n out = out
emit (suc f) n out =
    let rest = emit f (n / 10) ((b'0' + n % 10) ∷ out) in
    if ltb n 10 then (b'0' + n) ∷ out else rest

unfoldable pub format_nat : ℕ → Bytes
unfolding emit
format_nat n = emit (suc n) n []

pub emit-append : (f n : ℕ) (a b : Bytes) → emit f n (a ++ b) ≡ emit f n a ++ b
unfolding emit
emit-append zero n a b = refl
emit-append (suc f) n a b = ground (arith, emit-append f (n / 10) ((b'0' + n % 10) ∷ a) b)

-- strconv.FormatInt(i, 10) and strconv.Itoa
unfoldable pub format_int : ℤ → Bytes
unfolding format_nat
format_int (pos n) = format_nat n
format_int (negsuc n) = b'-' ∷ format_nat (suc n)

unfoldable pub scan : Bytes → ℕ → Option ℕ
scan [] n = some n
scan (c ∷ s) n = if is_digit c then scan s (n * 10 + (c - b'0')) else none

unfoldable pub parse_nat : Bytes → Option ℕ
unfolding scan
parse_nat [] = none
parse_nat (c ∷ s) = scan (c ∷ s) 0

abbrev pub bounded : ℕ → (ℕ → ℤ) → Option ℕ → Option ℤ
bounded limit f none = none
bounded limit f (some n) = if leb n limit then some (f n) else none

-- strconv.ParseInt(s, 10, 64); `none` is any error.
unfoldable pub parse_int : Bytes → Option ℤ
unfolding parse_nat
parse_int [] = none
parse_int (c ∷ s) =
    if c == b'-'
    then bounded (2 ^ 63) neg (parse_nat s)
    else if c == b'+'
    then bounded max_int64 pos (parse_nat s)
    else bounded max_int64 pos (parse_nat (c ∷ s))

scan-emit : (f n : ℕ) (out : Bytes) → n < f → scan (emit f n out) 0 ≡ scan out n
unfolding emit scan
scan-emit zero n out h = absurd (omega arith)
scan-emit (suc f) n out h = ground (arith, scan-emit f (n / 10) ((b'0' + n % 10) ∷ out))

emit-All : (f n : ℕ) (out : Bytes) → All IsDigit out → All IsDigit (emit f n out)
unfolding emit
emit-All zero n out h = h
emit-All (suc f) n out h =
    ground (arith, emit-All f (n / 10) ((b'0' + n % 10) ∷ out) (ground arith))

-- A printed number is digits only, and there is one.
pub format_nat-All : (n : ℕ) → All IsDigit (format_nat n)
unfolding format_nat
format_nat-All n = emit-All (suc n) n [] tt

emit_cons : (f n : ℕ) (out : Bytes) → (c : ℕ) × (s : Bytes) × (emit (suc f) n out ≡ c ∷ s)
unfolding emit
emit_cons zero n out = elim (Bool-cases (ltb n 10)) [
  | inl small ↦ (b'0' + n, out, rw small)
  | inr big ↦ (b'0' + n % 10, out, rw big)
]
emit_cons (suc f) n out = elim (Bool-cases (ltb n 10)) [
  | inl small ↦ (b'0' + n, out, rw small)
  | inr big ↦ let (c, s, e) = emit_cons f (n / 10) ((b'0' + n % 10) ∷ out) in (c, s, rw big e)
]

pub format_nat_cons : (n : ℕ) → (c : ℕ) × (s : Bytes) × (format_nat n ≡ c ∷ s)
unfolding format_nat
format_nat_cons n = emit_cons n n []

pub parse_nat-format_nat : (n : ℕ) → parse_nat (format_nat n) ≡ some n
unfolding parse_nat format_nat
parse_nat-format_nat n =
    let (c, s, e) = emit_cons n n [] in ground (arith, e, scan-emit (suc n) n [])

-- ParseInt reads back what FormatInt has printed, for every int64.
pub parse_int-format_int : (z : ℤ) → IsInt64 z → parse_int (format_int z) ≡ some z
unfolding parse_int format_int
parse_int-format_int (pos n) h =
    let (c, s, e) = format_nat_cons n in ground (arith, e, format_nat-All n, parse_nat-format_nat n)
parse_int-format_int (negsuc n) h = ground (arith, parse_nat-format_nat (suc n))

length-emit :
    (k f n : ℕ) (out : Bytes) → n < f → n < 10 ^ suc k → length (emit f n out) ≤ suc k + length out
unfolding emit
length-emit k zero n out h small = absurd (omega arith)
length-emit zero (suc f) n out h small = ground arith
length-emit (suc k) (suc f) n out h small = elim (Bool-cases (ltb n 10)) [
  | inl one ↦ rw one (omega arith)
  | inr more ↦ rw more (
      omega (
        arith,
        length-emit k f (n / 10) ((b'0' + n % 10) ∷ out) (ground arith)
            (omega (arith, pow-suc 10 (suc k))),
      ))
]

-- A number below a power of ten has no more digits than that.
pub length-format_nat : (k n : ℕ) → n < 10 ^ suc k → length (format_nat n) ≤ suc k
unfolding format_nat
length-format_nat k n h = omega (arith, length-emit k (suc n) n [] (omega arith) h)
