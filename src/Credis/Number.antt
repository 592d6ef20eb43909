-- ===== src/Credis/Number.antt =====
-- decoder.go: Btoi64. An int64 that is being computed is its bit pattern.
use ipfs_nosql_frame.Prelude.{
  ℕ, zero, suc, Bool-cases, Option-cases, refl, ◌+◌, ◌-◌, ◌*◌, ◌%◌, ◌^◌, ◌≤◌, ◌<◌, ℤ, pos, negsuc,
  ◌≡◌, Bool, true, false, ◌&&◌, not, Option, none, some, [], ◌∷◌, inl, inr, ◌⊎◌, arith, Bytes,
  length, ltb, ◌==◌, if◌then◌else◌,
}
use ipfs_nosql_frame.Credis.Strconv.{is_digit, scan, parse_nat, neg, parse_int}

-- The integer that a 64-bit pattern stands for.
abbrev pub to_int64 : ℕ → ℤ
to_int64 n = if ltb n (2 ^ 63) then pos n else negsuc (2 ^ 64 - 1 - n)

-- The loop over the digits: the number so far, and what is left from the first byte that is no digit.
digits_loop : Bytes → ℕ → ℕ × Bytes
digits_loop [] n = (n, [])
digits_loop (c ∷ b) n =
    let rest = digits_loop b ((c - b'0' + n * 10) % 2 ^ 64) in
    if is_digit c then rest else (n, c ∷ b)

-- `neg` and what stands behind the sign.
split_sign : Bytes → Bool × Bytes
split_sign [] = (false, [])
split_sign (c ∷ b) =
    if c == b'-' then (true, b) else if c == b'+' then (false, b) else (false, c ∷ b)

-- `if neg { n = -n }`
negate : Bool → ℕ → ℤ
negate true n = to_int64 ((2 ^ 64 - n) % 2 ^ 64)
negate false n = to_int64 n

is_empty : Bytes → Bool
is_empty [] = true
is_empty (c ∷ b) = false

-- The fast path for up to nine bytes; `none` where the code falls through to ParseInt.
fast : Bytes → Option ℤ
unfolding digits_loop split_sign negate is_empty
fast b =
    let (sign, digits) = split_sign b in
    let (n, rest) = digits_loop digits 0 in
    if not (is_empty digits) && is_empty rest then some (negate sign n) else none

-- `none` is any error of ParseInt.
unfoldable pub btoi64 : Bytes → Option ℤ
unfolding fast is_empty
btoi64 b =
    if not (is_empty b) && ltb (length b) 10
    then (elim (fast b) [ some n ↦ some n | none ↦ parse_int b ])
    else parse_int b

-- The largest number that `n` with as many digits as `b` behind it can be.
abbrev top : Bytes → ℕ → ℕ
top [] n = n
top (c ∷ b) n = top b (n * 10 + 9)

top_mono : (b : Bytes) (n m : ℕ) → n ≤ m → top b n ≤ top b m
top_mono [] n m h = h
top_mono (c ∷ b) n m h = top_mono b (n * 10 + 9) (m * 10 + 9) (omega arith)

le-top : (b : Bytes) (n : ℕ) → n ≤ top b n
le-top [] n = omega arith
le-top (c ∷ b) n = omega (arith, le-top b (n * 10 + 9))

-- Nine digits stay far below 2 ^ 63.
top-lt : (b : Bytes) → length b ≤ 9 → top b 0 < 2 ^ 63
top-lt [] h = omega arith
top-lt (_ ∷ []) h = omega arith
top-lt (_ ∷ _ ∷ []) h = omega arith
top-lt (_ ∷ _ ∷ _ ∷ []) h = omega arith
top-lt (_ ∷ _ ∷ _ ∷ _ ∷ []) h = omega arith
top-lt (_ ∷ _ ∷ _ ∷ _ ∷ _ ∷ []) h = omega arith
top-lt (_ ∷ _ ∷ _ ∷ _ ∷ _ ∷ _ ∷ []) h = omega arith
top-lt (_ ∷ _ ∷ _ ∷ _ ∷ _ ∷ _ ∷ _ ∷ []) h = omega arith
top-lt (_ ∷ _ ∷ _ ∷ _ ∷ _ ∷ _ ∷ _ ∷ _ ∷ []) h = omega arith
top-lt (_ ∷ _ ∷ _ ∷ _ ∷ _ ∷ _ ∷ _ ∷ _ ∷ _ ∷ []) h = omega arith
top-lt (_ ∷ _ ∷ _ ∷ _ ∷ _ ∷ _ ∷ _ ∷ _ ∷ _ ∷ _ ∷ b) h = absurd (omega arith)

-- Where nothing wraps around, the loop reaches the end exactly if `scan` accepts, with its number.
loop-scan :
    (b : Bytes) (n : ℕ)
    → top b n < 2 ^ 63
    → ((is_empty (digits_loop b n).1 ≡ true)
        × (scan b n ≡ some (digits_loop b n).0)
        × ((digits_loop b n).0 ≤ top b n))
      ⊎ (is_empty (digits_loop b n).1 ≡ false)
unfolding digits_loop is_empty scan
loop-scan [] n h = inl (ground arith, ground arith, ground arith)
loop-scan (c ∷ b) n h = elim (Bool-cases (is_digit c)) [
  | inr other ↦ inr (rw other)
  | inl digit ↦
      let m : ℕ = n * 10 + (c - b'0') in
      let fits : (m ≤ n * 10 + 9) × ((c - b'0' + n * 10) % 2 ^ 64 ≡ m) =
        (ground arith, ground (arith, le-top b (n * 10 + 9))) in
      let step = top_mono b m (n * 10 + 9) fits.0 in
      rw (digit, fits.1) (weaken (loop-scan b m (omega arith)) step)
]
  where
    weaken : {P Q R : Type 0} {x y z : ℕ} → (P × Q × (x ≤ y)) ⊎ R → y ≤ z → (P × Q × (x ≤ z)) ⊎ R
    weaken (inl (p, q, le)) h = inl (p, q, omega arith)
    weaken (inr r) h = inr r

-- What the fast path accepts behind the sign, ParseInt's digits accept with the same number.
accepts :
    (b : Bytes)
    → length b ≤ 9
    → not (is_empty b) && is_empty (digits_loop b 0).1 ≡ true
    → (parse_nat b ≡ some (digits_loop b 0).0) × ((digits_loop b 0).0 < 2 ^ 63)
unfolding is_empty parse_nat
accepts [] h e = cc
accepts (c ∷ b) h e = elim (loop-scan (c ∷ b) 0 (top-lt (c ∷ b) h)) [
  | inl (p, q, le) ↦ (q, omega (arith, top-lt (c ∷ b) h))
  | inr r ↦ absurd (ground (arith, r))
]

to_int64_small : (n : ℕ) → n < 2 ^ 63 → to_int64 n ≡ pos n
to_int64_small n h = ground arith

to_int64-neg : (n : ℕ) → n < 2 ^ 63 → to_int64 ((2 ^ 64 - n) % 2 ^ 64) ≡ neg n
to_int64-neg zero h = ground arith
to_int64-neg (suc n) h = ground arith

-- The number that the fast path returns is ParseInt's.
fast_sound :
    (c : ℕ) (b : Bytes)
    → length (c ∷ b) ≤ 9
    → (z : ℤ) → fast (c ∷ b) ≡ some z
    → parse_int (c ∷ b) ≡ some z
unfolding fast negate split_sign parse_int
fast_sound c b h z e = elim (Bool-cases (c == b'-')) [
  | inl minus ↦ ground (
    arith,
    accepts b (omega arith),
    to_int64-neg (digits_loop b 0).0,
    to_int64_small (digits_loop b 0).0,
  )
  | inr other ↦ elim (Bool-cases (c == b'+')) [
    | inl plus ↦ ground (arith, accepts b (omega arith), to_int64_small (digits_loop b 0).0)
    | inr digit ↦ ground (arith, accepts (c ∷ b) h, to_int64_small (digits_loop (c ∷ b) 0).0)
  ]
]

-- `Btoi64`, with its fast path for short numbers, is ParseInt on every input.
pub btoi64-eq-parse_int : (b : Bytes) → btoi64 b ≡ parse_int b
unfolding btoi64 is_empty
btoi64-eq-parse_int [] = refl
btoi64-eq-parse_int (c ∷ b) = elim (Bool-cases (ltb (length (c ∷ b)) 10)) [
  | inr long ↦ rw long
  | inl short ↦ elim (Option-cases (fast (c ∷ b))) [
    | inl slow ↦ rw (short, slow)
    | inr (z, found) ↦ rw (short, found, fast_sound c b (ground arith) z found)
  ]
]
