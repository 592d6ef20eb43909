-- ===== src/MemoryCacher/TypedCounting.antt =====
-- cache.go: the versions of Increment and Decrement for one integer type do what their names say.
use ipfs_nosql_frame.Prelude.{ℕ, ◌+◌, ◌-◌, ◌%◌, String}
use ipfs_nosql_frame.MemoryCacher.Cache.{Cache}
use ipfs_nosql_frame.MemoryCacher.Counters.{Values, Object, Kind, modulus}
use ipfs_nosql_frame.MemoryCacher.Counters.Typed
use ipfs_nosql_frame.MemoryCacher.Counting.{Counts, add_kind-Counts, sub_kind-Counts}

-- Go's `a + n` and `a - n` in an integer type, on bit patterns.
abbrev pub sum : Kind → ℕ → ℕ → ℕ
sum t n a = (a + n) % modulus t

abbrev pub difference : Kind → ℕ → ℕ → ℕ
difference t n a = (a + modulus t - n) % modulus t

module _ {W : Values} (k : String) (n now : ℕ) (c : Cache (Object W)) where
  abbrev pub TypedCounts : Type 0
  TypedCounts =
      Counts Kind.int (sum Kind.int n) k now c (Typed.increment_int k n now c)
      × Counts Kind.int8 (sum Kind.int8 n) k now c (Typed.increment_int8 k n now c)
      × Counts Kind.int16 (sum Kind.int16 n) k now c (Typed.increment_int16 k n now c)
      × Counts Kind.int32 (sum Kind.int32 n) k now c (Typed.increment_int32 k n now c)
      × Counts Kind.int64 (sum Kind.int64 n) k now c (Typed.increment_int64 k n now c)
      × Counts Kind.uint (sum Kind.uint n) k now c (Typed.increment_uint k n now c)
      × Counts Kind.uintptr (sum Kind.uintptr n) k now c (Typed.increment_uintptr k n now c)
      × Counts Kind.uint8 (sum Kind.uint8 n) k now c (Typed.increment_uint8 k n now c)
      × Counts Kind.uint16 (sum Kind.uint16 n) k now c (Typed.increment_uint16 k n now c)
      × Counts Kind.uint32 (sum Kind.uint32 n) k now c (Typed.increment_uint32 k n now c)
      × Counts Kind.uint64 (sum Kind.uint64 n) k now c (Typed.increment_uint64 k n now c)
      × Counts Kind.int (difference Kind.int n) k now c (Typed.decrement_int k n now c)
      × Counts Kind.int8 (difference Kind.int8 n) k now c (Typed.decrement_int8 k n now c)
      × Counts Kind.int16 (difference Kind.int16 n) k now c (Typed.decrement_int16 k n now c)
      × Counts Kind.int32 (difference Kind.int32 n) k now c (Typed.decrement_int32 k n now c)
      × Counts Kind.int64 (difference Kind.int64 n) k now c (Typed.decrement_int64 k n now c)
      × Counts Kind.uint (difference Kind.uint n) k now c (Typed.decrement_uint k n now c)
      × Counts Kind.uintptr (difference Kind.uintptr n) k now c (Typed.decrement_uintptr k n now c)
      × Counts Kind.uint8 (difference Kind.uint8 n) k now c (Typed.decrement_uint8 k n now c)
      × Counts Kind.uint16 (difference Kind.uint16 n) k now c (Typed.decrement_uint16 k n now c)
      × Counts Kind.uint32 (difference Kind.uint32 n) k now c (Typed.decrement_uint32 k n now c)
      × Counts Kind.uint64 (difference Kind.uint64 n) k now c (Typed.decrement_uint64 k n now c)

  -- Each of the 22 methods for one integer type works on the integers of its own type: it returns 0
  -- with an error and leaves the cache as it is, or a number of that type was read under the key, and
  -- the sum or difference in that type is returned with no error, and a read then finds it.
  pub typed_counts : TypedCounts
  unfolding Typed.increment_int Typed.increment_int8 Typed.increment_int16 Typed.increment_int32
      Typed.increment_int64 Typed.increment_uint Typed.increment_uintptr Typed.increment_uint8
      Typed.increment_uint16 Typed.increment_uint32 Typed.increment_uint64 Typed.decrement_int
      Typed.decrement_int8 Typed.decrement_int16 Typed.decrement_int32 Typed.decrement_int64
      Typed.decrement_uint Typed.decrement_uintptr Typed.decrement_uint8 Typed.decrement_uint16
      Typed.decrement_uint32 Typed.decrement_uint64
  typed_counts = (
    add_kind-Counts Kind.int n k now c,
    add_kind-Counts Kind.int8 n k now c,
    add_kind-Counts Kind.int16 n k now c,
    add_kind-Counts Kind.int32 n k now c,
    add_kind-Counts Kind.int64 n k now c,
    add_kind-Counts Kind.uint n k now c,
    add_kind-Counts Kind.uintptr n k now c,
    add_kind-Counts Kind.uint8 n k now c,
    add_kind-Counts Kind.uint16 n k now c,
    add_kind-Counts Kind.uint32 n k now c,
    add_kind-Counts Kind.uint64 n k now c,
    sub_kind-Counts Kind.int n k now c,
    sub_kind-Counts Kind.int8 n k now c,
    sub_kind-Counts Kind.int16 n k now c,
    sub_kind-Counts Kind.int32 n k now c,
    sub_kind-Counts Kind.int64 n k now c,
    sub_kind-Counts Kind.uint n k now c,
    sub_kind-Counts Kind.uintptr n k now c,
    sub_kind-Counts Kind.uint8 n k now c,
    sub_kind-Counts Kind.uint16 n k now c,
    sub_kind-Counts Kind.uint32 n k now c,
    sub_kind-Counts Kind.uint64 n k now c,
  )
