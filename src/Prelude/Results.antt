-- ===== src/Prelude/Results.antt =====
-- A Go result with an error: the value, or the error.
pub data Result (E A : Type 0) : Type 0 where
  ok : A → Result E A
  err : E → Result E A
