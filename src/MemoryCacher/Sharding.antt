-- ===== src/MemoryCacher/Sharding.antt =====
-- sharded.go: the hash that picks the shard of a key, in 32 bits. A key is a string of bytes.
use Prim.Native.Nat.{bit_xor}
use ipfs_nosql_frame.Prelude.{
  ℕ, ◌+◌, ◌*◌, ◌/◌, ◌%◌, ◌^◌, ◌≡◌, refl, ap, sym, ◌∙◌, [], ◌∷◌, ◌++◌, Bytes, length, length-append,
}

-- `d = (d * 33) ^ uint32(c)`
unfoldable pub djb_step : ℕ → ℕ → ℕ
djb_step d c = bit_xor (d * 33 % 2 ^ 32) c

-- The loop over blocks of four bytes while more than four are left, and the switch on what is left.
unfoldable pub djb_loop : ℕ → Bytes → ℕ
unfolding djb_step
djb_loop d [] = d
djb_loop d (a ∷ []) = d
djb_loop d (a ∷ b ∷ []) = djb_step d a
djb_loop d (a ∷ b ∷ c ∷ []) = djb_step (djb_step d a) b
djb_loop d (a ∷ b ∷ c ∷ e ∷ []) = djb_step (djb_step (djb_step d a) b) c
djb_loop d (a ∷ b ∷ c ∷ e ∷ f ∷ k) =
    djb_loop (djb_step (djb_step (djb_step (djb_step d a) b) c) e) (f ∷ k)

unfoldable pub djb33 : ℕ → Bytes → ℕ
unfolding djb_loop
djb33 seed k = let d = djb_loop ((5381 + seed + length k) % 2 ^ 32) k in bit_xor d (d / 2 ^ 16)

-- The index that bucket uses, in a cache of `m` shards.
unfoldable pub bucket : ℕ → ℕ → Bytes → ℕ
unfolding djb33
bucket seed m k = djb33 seed k % m

-- Every byte but the last one, one after the other.
abbrev pub all_but_last : ℕ → Bytes → ℕ
all_but_last d [] = d
all_but_last d (a ∷ []) = d
all_but_last d (a ∷ b ∷ k) = all_but_last (djb_step d a) (b ∷ k)

djb_loop-all_but_last : (d : ℕ) (k : Bytes) → djb_loop d k ≡ all_but_last d k
unfolding djb_loop
djb_loop-all_but_last d [] = refl
djb_loop-all_but_last d (a ∷ []) = refl
djb_loop-all_but_last d (a ∷ b ∷ []) = refl
djb_loop-all_but_last d (a ∷ b ∷ c ∷ []) = refl
djb_loop-all_but_last d (a ∷ b ∷ c ∷ e ∷ []) = refl
djb_loop-all_but_last d (a ∷ b ∷ c ∷ e ∷ f ∷ k) =
    djb_loop-all_but_last (djb_step (djb_step (djb_step (djb_step d a) b) c) e) (f ∷ k)

last_ignored :
    (d : ℕ) (k : Bytes) (a b : ℕ) → all_but_last d (k ++ a ∷ []) ≡ all_but_last d (k ++ b ∷ [])
last_ignored d [] a b = refl
last_ignored d (c ∷ []) a b = refl
last_ignored d (c ∷ e ∷ k) a b = last_ignored (djb_step d c) (e ∷ k) a b

loop_ignores : (d : ℕ) (k : Bytes) (a b : ℕ) → djb_loop d (k ++ a ∷ []) ≡ djb_loop d (k ++ b ∷ [])
loop_ignores d k a b =
    djb_loop-all_but_last d (k ++ a ∷ [])
    ∙ last_ignored d k a b
    ∙ sym (djb_loop-all_but_last d (k ++ b ∷ []))

-- The unrolled loop computes what a loop over all bytes of the key but the last one does, so that two
-- keys that differ in their last byte only always fall into the same shard.
pub djb33_last_byte :
    (seed m : ℕ) (k : Bytes) (a b : ℕ)
    → (djb_loop seed k ≡ all_but_last seed k)
      × (djb33 seed (k ++ a ∷ []) ≡ djb33 seed (k ++ b ∷ []))
      × (bucket seed m (k ++ a ∷ []) ≡ bucket seed m (k ++ b ∷ []))
unfolding djb33 bucket
djb33_last_byte seed m k a b =
    let sizes : length (k ++ a ∷ []) ≡ length (k ++ b ∷ []) =
      length-append k (a ∷ []) ∙ sym (length-append k (b ∷ [])) in
    let same : djb33 seed (k ++ a ∷ []) ≡ djb33 seed (k ++ b ∷ []) =
      rw (sizes, loop_ignores ((5381 + seed + length (k ++ b ∷ [])) % 2 ^ 32) k a b) in
    (djb_loop-all_but_last seed k, same, ap (λ h. h % m) same)
