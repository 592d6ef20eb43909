-- ===== src/MemoryCacher/Counters/Typed.antt =====
-- cache.go: the versions of Increment and Decrement for one numeric type, one for each method. `n` is
-- the bit pattern of the argument, of the method's type; the result is the new value, or 0 with an error.
use ipfs_nosql_frame.Prelude.{ℕ, String}
use ipfs_nosql_frame.MemoryCacher.Cache.{Cache}
use ipfs_nosql_frame.MemoryCacher.Counters.{
  Values, Object, Update, update, add_kind, sub_kind, add_float32, sub_float32, add_float64,
  sub_float64, int, int8, int16, int32, int64, uint, uintptr, uint8, uint16, uint32, uint64,
}

module _ {W : Values} where
  unfoldable pub increment_int : String → ℕ → ℕ → Cache (Object W) → Update W ℕ
  unfolding update add_kind
  increment_int k n now c = update 0 (add_kind int n) k now c

  unfoldable pub increment_int8 : String → ℕ → ℕ → Cache (Object W) → Update W ℕ
  unfolding update add_kind
  increment_int8 k n now c = update 0 (add_kind int8 n) k now c

  unfoldable pub increment_int16 : String → ℕ → ℕ → Cache (Object W) → Update W ℕ
  unfolding update add_kind
  increment_int16 k n now c = update 0 (add_kind int16 n) k now c

  unfoldable pub increment_int32 : String → ℕ → ℕ → Cache (Object W) → Update W ℕ
  unfolding update add_kind
  increment_int32 k n now c = update 0 (add_kind int32 n) k now c

  unfoldable pub increment_int64 : String → ℕ → ℕ → Cache (Object W) → Update W ℕ
  unfolding update add_kind
  increment_int64 k n now c = update 0 (add_kind int64 n) k now c

  unfoldable pub increment_uint : String → ℕ → ℕ → Cache (Object W) → Update W ℕ
  unfolding update add_kind
  increment_uint k n now c = update 0 (add_kind uint n) k now c

  unfoldable pub increment_uintptr : String → ℕ → ℕ → Cache (Object W) → Update W ℕ
  unfolding update add_kind
  increment_uintptr k n now c = update 0 (add_kind uintptr n) k now c

  unfoldable pub increment_uint8 : String → ℕ → ℕ → Cache (Object W) → Update W ℕ
  unfolding update add_kind
  increment_uint8 k n now c = update 0 (add_kind uint8 n) k now c

  unfoldable pub increment_uint16 : String → ℕ → ℕ → Cache (Object W) → Update W ℕ
  unfolding update add_kind
  increment_uint16 k n now c = update 0 (add_kind uint16 n) k now c

  unfoldable pub increment_uint32 : String → ℕ → ℕ → Cache (Object W) → Update W ℕ
  unfolding update add_kind
  increment_uint32 k n now c = update 0 (add_kind uint32 n) k now c

  unfoldable pub increment_uint64 : String → ℕ → ℕ → Cache (Object W) → Update W ℕ
  unfolding update add_kind
  increment_uint64 k n now c = update 0 (add_kind uint64 n) k now c

  unfoldable pub increment_float32 : String → W.Float32 → ℕ → Cache (Object W) → Update W W.Float32
  unfolding update add_float32
  increment_float32 k n now c = update W.zero32 (add_float32 n) k now c

  unfoldable pub increment_float64 : String → W.Float64 → ℕ → Cache (Object W) → Update W W.Float64
  unfolding update add_float64
  increment_float64 k n now c = update W.zero64 (add_float64 n) k now c

  unfoldable pub decrement_int : String → ℕ → ℕ → Cache (Object W) → Update W ℕ
  unfolding update sub_kind
  decrement_int k n now c = update 0 (sub_kind int n) k now c

  unfoldable pub decrement_int8 : String → ℕ → ℕ → Cache (Object W) → Update W ℕ
  unfolding update sub_kind
  decrement_int8 k n now c = update 0 (sub_kind int8 n) k now c

  unfoldable pub decrement_int16 : String → ℕ → ℕ → Cache (Object W) → Update W ℕ
  unfolding update sub_kind
  decrement_int16 k n now c = update 0 (sub_kind int16 n) k now c

  unfoldable pub decrement_int32 : String → ℕ → ℕ → Cache (Object W) → Update W ℕ
  unfolding update sub_kind
  decrement_int32 k n now c = update 0 (sub_kind int32 n) k now c

  unfoldable pub decrement_int64 : String → ℕ → ℕ → Cache (Object W) → Update W ℕ
  unfolding update sub_kind
  decrement_int64 k n now c = update 0 (sub_kind int64 n) k now c

  unfoldable pub decrement_uint : String → ℕ → ℕ → Cache (Object W) → Update W ℕ
  unfolding update sub_kind
  decrement_uint k n now c = update 0 (sub_kind uint n) k now c

  unfoldable pub decrement_uintptr : String → ℕ → ℕ → Cache (Object W) → Update W ℕ
  unfolding update sub_kind
  decrement_uintptr k n now c = update 0 (sub_kind uintptr n) k now c

  unfoldable pub decrement_uint8 : String → ℕ → ℕ → Cache (Object W) → Update W ℕ
  unfolding update sub_kind
  decrement_uint8 k n now c = update 0 (sub_kind uint8 n) k now c

  unfoldable pub decrement_uint16 : String → ℕ → ℕ → Cache (Object W) → Update W ℕ
  unfolding update sub_kind
  decrement_uint16 k n now c = update 0 (sub_kind uint16 n) k now c

  unfoldable pub decrement_uint32 : String → ℕ → ℕ → Cache (Object W) → Update W ℕ
  unfolding update sub_kind
  decrement_uint32 k n now c = update 0 (sub_kind uint32 n) k now c

  unfoldable pub decrement_uint64 : String → ℕ → ℕ → Cache (Object W) → Update W ℕ
  unfolding update sub_kind
  decrement_uint64 k n now c = update 0 (sub_kind uint64 n) k now c

  unfoldable pub decrement_float32 : String → W.Float32 → ℕ → Cache (Object W) → Update W W.Float32
  unfolding update sub_float32
  decrement_float32 k n now c = update W.zero32 (sub_float32 n) k now c

  unfoldable pub decrement_float64 : String → W.Float64 → ℕ → Cache (Object W) → Update W W.Float64
  unfolding update sub_float64
  decrement_float64 k n now c = update W.zero64 (sub_float64 n) k now c
