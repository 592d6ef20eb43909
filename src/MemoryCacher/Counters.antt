-- ===== src/MemoryCacher/Counters.antt =====
-- cache.go, the numeric operations: Increment, Decrement and their versions for each numeric type.
--
-- An integer of w bits, signed or not, is its bit pattern, a number below 2 ^ w: Go's sums and
-- differences wrap around, and its conversions between integer types keep the low bits. `int`, `uint`
-- and `uintptr` have 64 bits. Floats and all other dynamic types are parameters.
pub mod Typed
use mathlib.Core.Logic.{ite}
use native.Mathlib.Decide.{ℕ_discrete}
use ipfs_nosql_frame.Prelude.{
  ℕ, ◌+◌, ◌-◌, ◌%◌, ◌^◌, String, Bool, true, false, Option, none, some, if◌then◌else◌,
}
use ipfs_nosql_frame.Prelude.GoMap
use ipfs_nosql_frame.MemoryCacher.Cache.{Item, Cache, CacheError, not_found, wrong_type, expired}

-- The floating point types with the operations that the cache uses, and the type of the values
-- that are not numbers. An int64 is its bit pattern.
pub record Values : Type 1 where
  pub Float32 : Type 0
  pub Float64 : Type 0
  pub Other : Type 0
  pub add32 : Float32 → Float32 → Float32
  pub sub32 : Float32 → Float32 → Float32
  pub add64 : Float64 → Float64 → Float64
  pub sub64 : Float64 → Float64 → Float64
  pub int64_to_32 : ℕ → Float32
  pub int64_to_64 : ℕ → Float64
  pub narrow : Float64 → Float32
  pub zero32 : Float32
  pub zero64 : Float64

-- The integer types of the type switches.
pub data Kind : Type 0 where
  int int8 int16 int32 int64 uint uintptr uint8 uint16 uint32 uint64 : Kind

unfoldable pub Kind-discrete : Discrete Kind
Kind-discrete = hlevel

abbrev pub width : Kind → ℕ
width int8 = 8
width uint8 = 8
width int16 = 16
width uint16 = 16
width int32 = 32
width uint32 = 32
width _ = 64

abbrev pub modulus : Kind → ℕ
modulus k = 2 ^ width k

-- T(n) for an int64 n
unfoldable pub convert : Kind → ℕ → ℕ
convert k n = n % modulus k

unfoldable pub plus : Kind → ℕ → ℕ → ℕ
plus k a b = (a + b) % modulus k

unfoldable pub minus : Kind → ℕ → ℕ → ℕ
minus k a b = (a + modulus k - b) % modulus k

pub data Object (W : Values) : Type 0 where
  integer : Kind → ℕ → Object W
  float32 : W.Float32 → Object W
  float64 : W.Float64 → Object W
  other : W.Other → Object W

-- What a numeric operation leaves behind: the cache, the returned number and the error.
pub record Update (W : Values) (R : Type 0) : Type 0 where
  pub cache : Cache (Object W)
  pub value : R
  pub error : Option CacheError

module _ {W : Values} where
  -- The frame that all these methods share: look the key up, refuse a missing or expired item,
  -- compute, refuse another type, store. `d` is the value that is returned with an error.
  unfoldable pub update :
      {R : Type 0}
      → R
      → (Object W → Option (Object W × R))
      → String
      → ℕ
      → Cache (Object W)
      → Update W R
  unfolding expired
  update d f k now c = elim (GoMap.lookup k c.items) [
    | none ↦ record { cache = c; value = d; error = some (not_found k) }
    | some v ↦
        if expired v now
        then record { cache = c; value = d; error = some (not_found k) }
        else elim (f v.object) [
          | none ↦ record { cache = c; value = d; error = some (wrong_type k) }
          | some (o, r) ↦ record {
            cache = record c { items = GoMap.insert k (record v { object = o }) c.items };
            value = r;
            error = none;
          }
        ]
  ]

  -- The type switch of Increment.
  unfoldable pub add_int64 : ℕ → Object W → Option (Object W × Unit {0})
  unfolding plus convert
  add_int64 n (integer k a) = some (integer k (plus k a (convert k n)), tt)
  add_int64 n (float32 x) = some (float32 (W.add32 x (W.int64_to_32 n)), tt)
  add_int64 n (float64 x) = some (float64 (W.add64 x (W.int64_to_64 n)), tt)
  add_int64 n (other _) = none

  -- The type switch of Decrement.
  unfoldable pub sub_int64 : ℕ → Object W → Option (Object W × Unit {0})
  unfolding minus convert
  sub_int64 n (integer k a) = some (integer k (minus k a (convert k n)), tt)
  sub_int64 n (float32 x) = some (float32 (W.sub32 x (W.int64_to_32 n)), tt)
  sub_int64 n (float64 x) = some (float64 (W.sub64 x (W.int64_to_64 n)), tt)
  sub_int64 n (other _) = none

  -- The type switch of IncrementFloat.
  unfoldable pub add_float : W.Float64 → Object W → Option (Object W × Unit {0})
  add_float n (float32 x) = some (float32 (W.add32 x (W.narrow n)), tt)
  add_float n (float64 x) = some (float64 (W.add64 x n), tt)
  add_float n _ = none

  -- The type switch of DecrementFloat.
  unfoldable pub sub_float : W.Float64 → Object W → Option (Object W × Unit {0})
  sub_float n (float32 x) = some (float32 (W.sub32 x (W.narrow n)), tt)
  sub_float n (float64 x) = some (float64 (W.sub64 x n), tt)
  sub_float n _ = none

  unfoldable pub increment : String → ℕ → ℕ → Cache (Object W) → Update W (Unit {0})
  unfolding update add_int64
  increment k n now c = update tt (add_int64 n) k now c

  unfoldable pub increment_float : String → W.Float64 → ℕ → Cache (Object W) → Update W (Unit {0})
  unfolding update add_float
  increment_float k n now c = update tt (add_float n) k now c

  unfoldable pub decrement : String → ℕ → ℕ → Cache (Object W) → Update W (Unit {0})
  unfolding update sub_int64
  decrement k n now c = update tt (sub_int64 n) k now c

  unfoldable pub decrement_float : String → W.Float64 → ℕ → Cache (Object W) → Update W (Unit {0})
  unfolding update sub_float
  decrement_float k n now c = update tt (sub_float n) k now c

  -- `rv, ok := v.Object.(T)` and `rv + n`, with the sum as the new object and as the result.
  unfoldable pub add_kind : Kind → ℕ → Object W → Option (Object W × ℕ)
  unfolding plus Kind-discrete
  add_kind k n (integer j a) =
      ite (Kind-discrete j k) (some (integer j (plus j a n), plus j a n)) none
  add_kind k n _ = none

  -- `rv, ok := v.Object.(T)` and `rv - n`.
  unfoldable pub sub_kind : Kind → ℕ → Object W → Option (Object W × ℕ)
  unfolding minus Kind-discrete
  sub_kind k n (integer j a) =
      ite (Kind-discrete j k) (some (integer j (minus j a n), minus j a n)) none
  sub_kind k n _ = none

  unfoldable pub add_float32 : W.Float32 → Object W → Option (Object W × W.Float32)
  add_float32 n (float32 x) = some (float32 (W.add32 x n), W.add32 x n)
  add_float32 n _ = none

  unfoldable pub sub_float32 : W.Float32 → Object W → Option (Object W × W.Float32)
  sub_float32 n (float32 x) = some (float32 (W.sub32 x n), W.sub32 x n)
  sub_float32 n _ = none

  unfoldable pub add_float64 : W.Float64 → Object W → Option (Object W × W.Float64)
  add_float64 n (float64 x) = some (float64 (W.add64 x n), W.add64 x n)
  add_float64 n _ = none

  unfoldable pub sub_float64 : W.Float64 → Object W → Option (Object W × W.Float64)
  sub_float64 n (float64 x) = some (float64 (W.sub64 x n), W.sub64 x n)
  sub_float64 n _ = none
