-- ===== src/Rediscluster/Node/Command.antt =====
-- node.go: writeLen, writeString, writeBytes, writeInt64, writeFloat64 and writeCommand, and key of
-- cluster.go. The buffered writer of a connection is a Sink. An argument is tagged with its dynamic type;
-- floating point numbers and their printing are parameters.
use ipfs_nosql_frame.Prelude.{
  ℕ, zero, suc, ◌+◌, ◌/◌, ◌%◌, ℤ, Option, none, some, List, [], ◌∷◌, Bytes, length, ◌==◌,
  if◌then◌else◌,
}
use ipfs_nosql_frame.Credis.Strconv.{format_int}
use ipfs_nosql_frame.Credis.Encoder.{crlf}
use ipfs_nosql_frame.Credis.Source.{Sink}
use ipfs_nosql_frame.Rediscluster.Node.Errors.{NodeError, unknown_type, from_write}

-- interface{}, as far as the type switches of key and writeCommand look into it.
pub data Arg (Float : Type 0) : Type 0 where
  int int64 : ℤ → Arg Float
  float64 : Float → Arg Float
  string bytes : Bytes → Arg Float
  other : Arg Float

-- The digits of `n` in front of `out`. The first argument counts the cells of lenScratch that are left.
unfoldable pub len_loop : ℕ → ℕ → Bytes → Bytes
len_loop zero n out = out
len_loop (suc cells) n out =
    let digits = (b'0' + n % 10) ∷ out in
    let more = len_loop cells (n / 10) digits in if n / 10 == 0 then digits else more

-- lenScratch[i:]: 32 cells, of which the end of the line and the prefix leave 29.
unfoldable pub len_scratch : ℕ → ℕ → Bytes
unfolding len_loop
len_scratch prefix n = prefix ∷ len_loop 29 n crlf

module _ {Float : Type 0} (format_float : Float → Bytes) where
  -- key; `none` is the error.
  unfoldable pub key : Arg Float → Option Bytes
  key (int n) = some (format_int n)
  key (int64 n) = some (format_int n)
  key (float64 x) = some (format_float x)
  key (string s) = some s
  key (bytes p) = some p
  key other = none

  module _ (W : Sink) where
    unfoldable pub write_len : ℕ → ℕ → W.Writer → Option NodeError × W.Writer
    write_len prefix n w = let (e, w') = W.write (len_scratch prefix n) w in (from_write e, w')

    -- The errors of the first two writes are dropped.
    unfoldable pub write_string : Bytes → W.Writer → Option NodeError × W.Writer
    write_string s w =
        let (_, w1) = write_len b'$' (length s) w in
        let (_, w2) = W.write_string s w1 in
        let (e, w3) = W.write_string crlf w2 in (from_write e, w3)

    unfoldable pub write_bytes : Bytes → W.Writer → Option NodeError × W.Writer
    write_bytes p w =
        let (_, w1) = write_len b'$' (length p) w in
        let (_, w2) = W.write p w1 in let (e, w3) = W.write_string crlf w2 in (from_write e, w3)

    unfoldable pub write_int64 : ℤ → W.Writer → Option NodeError × W.Writer
    write_int64 n w = write_bytes (format_int n) w

    unfoldable pub write_float64 : Float → W.Writer → Option NodeError × W.Writer
    write_float64 x w = write_bytes (format_float x) w

    -- The type switch of writeCommand.
    unfoldable pub write_arg : Arg Float → W.Writer → Option NodeError × W.Writer
    write_arg (int n) w = write_int64 n w
    write_arg (int64 n) w = write_int64 n w
    write_arg (float64 x) w = write_float64 x w
    write_arg (string s) w = write_string s w
    write_arg (bytes p) w = write_bytes p w
    write_arg other w = (some unknown_type, w)

    -- The loop of writeCommand, with the error of the element before.
    unfoldable pub write_args :
        List (Arg Float) → Option NodeError → W.Writer → Option NodeError × W.Writer
    write_args [] e w = (e, w)
    write_args (a ∷ args) (some e) w = (some e, w)
    write_args (a ∷ args) none w = let (e, w1) = write_arg a w in write_args args e w1

    unfoldable pub write_command : Bytes → List (Arg Float) → W.Writer → Option NodeError × W.Writer
    write_command cmd args w =
        let (_, w1) = write_len b'*' (length args + 1) w in
        let (e, w2) = write_string cmd w1 in write_args args e w2
