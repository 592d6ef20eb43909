-- ===== src/Rediscluster/Tags.antt =====
-- Which part of a key decides its slot, and the polynomial behind the table of crc16.go.
use Prim.Native.Nat.{bit_xor}
use native.Mathlib.Numerals.{add-one}
use ipfs_nosql_frame.Prelude.{
  ℕ, ◌∙◌, ap, zero, suc, ◌+◌, ◌-◌, ◌*◌, ◌%◌, ◌<◌, ◌≡◌, ◌≢◌, refl, true, false, Bool, ◌&&◌, ◌||◌,
  List, [], ◌∷◌, ◌++◌, arith, Bytes, length, length-append, drop, take-append_self, All, get_or,
  leb, ◌==◌, if◌then◌else◌,
}
use ipfs_nosql_frame.Rediscluster.Slot
use ipfs_nosql_frame.Rediscluster.Slot.{cluster_slots, crc16tab, index_or_length}

-- One step of the XMODEM register: shift left in 16 bits, and add the polynomial if a one fell out.
abbrev pub xmodem_bit : ℕ → ℕ
xmodem_bit r = if leb 32768 r then bit_xor (r * 2 % 65536) 0x1021 else r * 2 % 65536

abbrev pub xmodem_bits : ℕ → ℕ → ℕ
xmodem_bits zero r = r
xmodem_bits (suc n) r = xmodem_bits n (xmodem_bit r)

-- Whether the entries from index `i` on are right.
rows_right : List ℕ → ℕ → Bool
rows_right [] i = true
rows_right (x ∷ rows) i = x == xmodem_bits 8 (i * 256) && rows_right rows (suc i)

row_right :
    (rows : List ℕ) (i j m : ℕ)
    → rows_right rows i ≡ true
    → j < length rows
    → i + j ≡ m
    → get_or rows j 0 ≡ xmodem_bits 8 (m * 256)
unfolding rows_right
row_right [] i j m h short e = let impossible : ⊥ = omega arith in elim impossible [ ]
row_right (x ∷ rows) i zero m h short e =
    let first : x ≡ xmodem_bits 8 (i * 256) = ground arith in
    let here : i ≡ m = omega arith in first ∙ ap (λ k. xmodem_bits 8 (k * 256)) here
row_right (x ∷ rows) i (suc j) m h short e =
    row_right rows (suc i) j m (ground arith) (omega arith) (omega arith)

crc16tab_checked : (rows_right crc16tab 0 ≡ true) × (length crc16tab ≡ 256)
unfolding rows_right crc16tab
crc16tab_checked = (refl, refl)

-- Every entry of the table is what eight steps with the polynomial 0x1021 make of its index as the high
-- byte of the register.
pub crc16tab-xmodem : (i : ℕ) → i < 256 → get_or crc16tab i 0 ≡ xmodem_bits 8 (i * 256)
crc16tab-xmodem i h =
    row_right crc16tab 0 i i crc16tab_checked.0 (omega (arith, crc16tab_checked.1)) (omega arith)

-- The check value of the XMODEM CRC.
check_value : Slot.crc16 (49 ∷ 50 ∷ 51 ∷ 52 ∷ 53 ∷ 54 ∷ 55 ∷ 56 ∷ 57 ∷ []) ≡ 0x31c3
unfolding Slot.crc16
check_value = refl

index_found : (c : ℕ) (p q : Bytes) → All (λ x. x ≢ c) p → index_or_length c (p ++ c ∷ q) ≡ length p
unfolding index_or_length
index_found c [] q h = ground arith
index_found c (x ∷ p) q (hx, h) = ground (arith, index_found c p q h, hx)

index_missing : (c : ℕ) (p : Bytes) → All (λ x. x ≢ c) p → index_or_length c p ≡ length p
unfolding index_or_length
index_missing c [] h = refl
index_missing c (x ∷ p) (hx, h) = ground (arith, index_missing c p h, hx)

drop_past : (p q : Bytes) (c : ℕ) → drop (suc (length p)) (p ++ c ∷ q) ≡ q
drop_past [] q c = refl
drop_past (x ∷ p) q c = drop_past p q c

self_eq : (n : ℕ) → (n == n) ≡ true
self_eq n = ground arith

-- The three tests of hash, for a key of length `n` whose first brace is at `p` and whose tag has `t` bytes.
tag_tests :
    (p t q n : ℕ)
    → 0 < t
    → n ≡ p + (t + q + 2)
    → ((p == n) ≡ false)
      × ((suc p + t == n || suc p + t == suc p) ≡ false)
      × (suc p + t - suc p ≡ t)
tag_tests p t q n h e = (ground arith, ground arith, omega arith)

module _ (runes : Bytes → List ℕ) where
  -- Where the first `{` of a key is followed by a `}` that does not stand right behind it, the slot is
  -- that of the text between the two; a key without `{` hashes as a whole.
  pub hash_tag :
      (p tag q : Bytes)
      → All (λ x. x ≢ b'{') p
      → All (λ x. x ≢ b'}') tag
      → 0 < length tag
      → (Slot.hash runes (p ++ b'{' ∷ (tag ++ b'}' ∷ q)) ≡ Slot.slot_of runes tag)
        × (Slot.hash runes p ≡ Slot.slot_of runes p)
  unfolding Slot.hash
  hash_tag p tag q hp ht some_tag =
      let key = p ++ b'{' ∷ (tag ++ b'}' ∷ q) in
      let size : length key ≡ length p + (length tag + length q + 2) =
        omega (
          arith,
          length-append {0} p (b'{' ∷ (tag ++ b'}' ∷ q)),
          length-append {0} tag (b'}' ∷ q),
        ) in
      let (a, b, c) = tag_tests (length p) (length tag) (length q) (length key) some_tag size in
      (
        rw (
          index_found b'{' p (tag ++ b'}' ∷ q) hp,
          add-one (length p),
          drop_past p (tag ++ b'}' ∷ q) b'{',
          index_found b'}' tag q ht,
          a,
          b,
          c,
          take-append_self tag (b'}' ∷ q),
        ),
        rw (index_missing b'{' p hp, self_eq (length p)),
      )
