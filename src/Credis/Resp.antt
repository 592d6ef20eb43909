-- ===== src/Credis/Resp.antt =====
-- resp.go: a RESP value. A nil Value or Array is told from an empty one, and the type is any byte.
use ipfs_nosql_frame.Prelude.{ℕ, suc, Bool, ◌||◌, Option, none, Bytes, ◌==◌}

mutual
  -- Resp{Type, Value, Array}
  pub data Resp : Type 0 where
    make : ℕ → Option Bytes → RespArray → Resp

  pub data RespArray : Type 0 where
    null : RespArray
    items : RespList → RespArray

  pub data RespList : Type 0 where
    nil : RespList
    cons : Resp → RespList → RespList

abbrev pub type_string : ℕ
type_string = b'+'

abbrev pub type_error : ℕ
type_error = b'-'

abbrev pub type_int : ℕ
type_int = b':'

abbrev pub type_bulk_bytes : ℕ
type_bulk_bytes = b'$'

abbrev pub type_array : ℕ
type_array = b'*'

-- The case `TypeString, TypeError, TypeInt` of the type switches.
abbrev pub is_text : ℕ → Bool
is_text t = t == type_string || t == type_error || t == type_int

abbrev pub count : RespList → ℕ
count nil = 0
count (cons r l) = suc (count l)

abbrev pub resp_type : Resp → ℕ
resp_type (make t v a) = t

pub new_bulk_bytes : Option Bytes → Resp
new_bulk_bytes v = make type_bulk_bytes v null

pub new_array : RespArray → Resp
new_array a = make type_array none a
