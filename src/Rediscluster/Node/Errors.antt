-- ===== src/Rediscluster/Node/Errors.antt =====
-- The errors of node.go: those of the connection below, and its own, by the place that makes them. A panic
-- is the error `index_out_of_range`.
use ipfs_nosql_frame.Prelude.{ℕ, Option, none, some, Result, ok, err}
use ipfs_nosql_frame.Credis.Source.{IoError}

pub data NodeError : Type 0 where
  io : IoError → NodeError
  line_too_short empty_len len_not_numeric empty_int empty_int_digits int_not_numeric : NodeError
  empty_line bad_bulk_end unexpected_line unknown_type no_pending node_closed stuck
        index_out_of_range ask_refused readonly_refused :
      NodeError
  dial : ℕ → NodeError

abbrev pub from_io : {A : Type 0} → Result IoError A → Result NodeError A
from_io (ok a) = ok a
from_io (err e) = err (io e)

abbrev pub from_write : Option IoError → Option NodeError
from_write none = none
from_write (some e) = some (io e)
