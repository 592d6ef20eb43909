-- ===== src/Rediscluster/Node/Written.antt =====
-- What writeCommand writes: the command and its arguments as a request, the form that the codec of
-- utils/resparse reads.
use native.Mathlib.Nat.{pow-suc}
use ipfs_nosql_frame.Prelude.{
  ℕ, zero, suc, ◌+◌, ◌/◌, ◌%◌, ◌^◌, ◌≤◌, ◌<◌, pos, ◌≡◌, refl, inl, inr, Bool-cases, Option, none,
  some, List, [], ◌∷◌, ◌++◌, append_assoc, append-nil, arith, Bytes, length, ok, All, ltb,
}
use ipfs_nosql_frame.Credis.Strconv.{format_int, format_nat, emit, emit-append}
use ipfs_nosql_frame.Credis.Source.{Sink, Source}
use ipfs_nosql_frame.Credis.Encoder.{crlf}
use ipfs_nosql_frame.Credis.Resp.{
  RespList, make, null, nil, cons, count, items, resp_type, type_bulk_bytes,
}
use ipfs_nosql_frame.Credis.Encoding.{encoding, array_text, items_text, IsValid}
use ipfs_nosql_frame.Credis.RoundTrip.{Each}
use ipfs_nosql_frame.Credis.Requests.{request_text, decode_multi_bulk-request}
use ipfs_nosql_frame.Credis.Decoder
use ipfs_nosql_frame.Credis.Decoder.{max_bulk_bytes_len, max_array_len}
use ipfs_nosql_frame.Rediscluster.Node.Errors.{NodeError}
use ipfs_nosql_frame.Rediscluster.Node.Command
use ipfs_nosql_frame.Rediscluster.Node.Command.{Arg, len_loop, len_scratch}

len_loop-emit :
    (k f n : ℕ) (out : Bytes) → n < f → n < 10 ^ suc k → len_loop (suc k) n out ≡ emit f n out
unfolding len_loop emit
len_loop-emit k zero n out h few = absurd (omega arith)
len_loop-emit zero (suc f) n out h few = ground arith
len_loop-emit (suc k) (suc f) n out h few = elim (Bool-cases (ltb n 10)) [
  | inl one ↦ ground arith
  | inr more ↦ rw (more) (
      ground (
        arith,
        len_loop-emit k f (n / 10) ((b'0' + n % 10) ∷ out) (ground arith)
            (omega (arith, pow-suc 10 (suc k))),
      ))
]

-- A length below 2 ^ 63 fits into the cells of lenScratch, and is printed in full.
pub len_scratch-format_int :
    (prefix n : ℕ) → n < 2 ^ 63 → len_scratch prefix n ≡ prefix ∷ (format_int (pos n) ++ crlf)
unfolding len_scratch format_int format_nat
len_scratch-format_int prefix n h =
    rw (len_loop-emit 28 (suc n) n crlf (omega arith) (omega arith), emit-append (suc n) n [] crlf)
      refl

-- The bulk strings with these texts.
abbrev pub bulks : List Bytes → RespList
bulks [] = nil
bulks (t ∷ texts) = cons (make type_bulk_bytes (some t) null) (bulks texts)

pub count-bulks : (texts : List Bytes) → count (bulks texts) ≡ length texts
count-bulks [] = refl
count-bulks (t ∷ texts) = omega (arith, count-bulks texts)

abbrev pub IsShortText : Bytes → Type 0
IsShortText t = length t < 2 ^ 63

request_parts :
    (n : ℕ) (s cmd : Bytes) (texts : List Bytes)
    → n ≡ count (bulks (cmd ∷ texts))
    → (s
          ++ (b'*' ∷ (format_int (pos n) ++ crlf))
          ++ encoding (make type_bulk_bytes (some cmd) null))
        ++ items_text (bulks texts)
      ≡ s ++ request_text (bulks (cmd ∷ texts))
unfolding array_text
request_parts n s cmd texts e = rw e (simp append_assoc)

module _ {Float : Type 0} (format_float : Float → Bytes) where
  -- The arguments are of types that are supported, and these are their texts.
  abbrev pub Spells : List (Arg Float) → List Bytes → Type 0
  Spells [] [] = Unit
  Spells [] (t ∷ texts) = ⊥
  Spells (a ∷ args) [] = ⊥
  Spells (a ∷ args) (t ∷ texts) = (Command.key format_float a ≡ some t) × Spells args texts

  pub length-Spells :
      (args : List (Arg Float)) (texts : List Bytes)
      → Spells args texts
      → length args ≡ length texts
  length-Spells [] [] h = refl
  length-Spells [] (t ∷ texts) h = elim h [ ]
  length-Spells (a ∷ args) [] h = elim h [ ]
  length-Spells (a ∷ args) (t ∷ texts) (_, h) = omega (arith, length-Spells args texts h)

  module _ (W : Sink) where
    -- From a writer that has been given `s`, the method ends without error and has given it `p` more.
    abbrev Puts : (W.Writer → Option NodeError × W.Writer) → Bytes → Type 0
    Puts m p =
        (s : Bytes) (w : W.Writer)
        → W.Wrote s w
        → (w' : W.Writer) × (m w ≡ (none, w')) × W.Wrote (s ++ p) w'

    len-Puts :
        (prefix n : ℕ)
        → n < 2 ^ 63
        → Puts (Command.write_len format_float W prefix n) (prefix ∷ (format_int (pos n) ++ crlf))
    unfolding Command.write_len
    len-Puts prefix n h s w g =
        let (w1, e1, g1) = W.write_wrote (len_scratch prefix n) s w g in
        (w1, rw e1 refl, rw (← len_scratch-format_int prefix n h) g1)

    regroup :
        (s t p q : Bytes)
        → (s ++ (b'$' ∷ (p ++ crlf)) ++ t) ++ q ≡ s ++ (b'$' ∷ ((p ++ crlf) ++ (t ++ q)))
    regroup s t p q = simp append_assoc

    string-Puts :
        (t : Bytes)
        → IsShortText t
        → Puts
            (Command.write_string format_float W t)
            (encoding (make type_bulk_bytes (some t) null))
    unfolding Command.write_string encoding
    string-Puts t h s w g =
        let (w1, e1, g1) = len-Puts b'$' (length t) h s w g in
        let (w2, e2, g2) = W.write_string_wrote t _ w1 g1 in
        let (w3, e3, g3) = W.write_string_wrote crlf _ w2 g2 in
        (w3, rw (e1, e2, e3, Command.write_string) refl, rw regroup at g3)

    bytes-Puts :
        (t : Bytes)
        → IsShortText t
        → Puts
            (Command.write_bytes format_float W t)
            (encoding (make type_bulk_bytes (some t) null))
    unfolding Command.write_bytes encoding
    bytes-Puts t h s w g =
        let (w1, e1, g1) = len-Puts b'$' (length t) h s w g in
        let (w2, e2, g2) = W.write_wrote t _ w1 g1 in
        let (w3, e3, g3) = W.write_string_wrote crlf _ w2 g2 in
        (w3, rw (e1, e2, e3, Command.write_bytes) refl, rw regroup at g3)

    arg-Puts :
        (a : Arg Float) (t : Bytes)
        → Command.key format_float a ≡ some t
        → IsShortText t
        → Puts (Command.write_arg format_float W a) (encoding (make type_bulk_bytes (some t) null))
    unfolding Command.write_arg Command.write_int64 Command.write_float64 Command.key
    arg-Puts (Command.int n) t e h = let same : format_int n ≡ t = cc in rw same (bytes-Puts t h)
    arg-Puts (Command.int64 n) t e h = let same : format_int n ≡ t = cc in rw same (bytes-Puts t h)
    arg-Puts (Command.float64 x) t e h =
        let same : format_float x ≡ t = cc in rw same (bytes-Puts t h)
    arg-Puts (Command.string b) t e h = let same : b ≡ t = cc in rw same (string-Puts t h)
    arg-Puts (Command.bytes b) t e h = let same : b ≡ t = cc in rw same (bytes-Puts t h)
    arg-Puts Command.other t e h = let impossible : ⊥ = cc in elim impossible [ ]

    args-Puts :
        (args : List (Arg Float)) (texts : List Bytes)
        → Spells args texts
        → All IsShortText texts
        → Puts (Command.write_args format_float W args none) (items_text (bulks texts))
    unfolding Command.write_args items_text
    args-Puts [] [] h short s w g = (w, refl, rw append-nil g)
    args-Puts [] (t ∷ texts) h short s w g = elim h [ ]
    args-Puts (a ∷ args) [] h short s w g = elim h [ ]
    args-Puts (a ∷ args) (t ∷ texts) (e, h) (one, short) s w g =
        let (w1, e1, g1) = arg-Puts a t e one s w g in
        let (w2, e2, g2) = args-Puts args texts h short _ w1 g1 in
        (w2, rw (e1, e2, Command.write_args) refl, rw append_assoc at g2)

    -- `writeCommand` of a name and arguments of the supported types, each of which prints to less than
    -- 2 ^ 63 bytes, on a writer that has met no error, returns no error and has given the writer exactly
    -- the request with these texts behind what it had been given before.
    pub write_command-request_text :
        (cmd : Bytes) (args : List (Arg Float)) (texts : List Bytes) (s : Bytes) (w : W.Writer)
        → Spells args texts
        → All IsShortText (cmd ∷ texts)
        → suc (length args) < 2 ^ 63
        → W.Wrote s w
        → (w' : W.Writer) × (Command.write_command format_float W cmd args w ≡ (none, w'))
          × W.Wrote (s ++ request_text (bulks (cmd ∷ texts))) w'
    unfolding Command.write_command array_text
    write_command-request_text cmd args texts s w h (one, short) few g =
        let (w1, e1, g1) = len-Puts b'*' (length args + 1) (omega arith) s w g in
        let (w2, e2, g2) = string-Puts cmd one _ w1 g1 in
        let (w3, e3, g3) = args-Puts args texts h short _ w2 g2 in
        let size : length args + 1 ≡ count (bulks (cmd ∷ texts)) =
          omega (arith, length-Spells args texts h, count-bulks texts) in
        (
          w3,
          rw (e1, e2, e3, Command.write_command) refl,
          rw (request_parts (length args + 1) s cmd texts size) at g3,
        )

within_limits :
    (l : List Bytes)
    → All (λ t. length t ≤ max_bulk_bytes_len) l
    → All IsShortText l × Each (λ x. IsValid x × (resp_type x ≡ type_bulk_bytes)) (bulks l)
unfolding IsValid
within_limits [] h = (tt, tt)
within_limits (t ∷ l) (one, h) =
    let (short, valid) = within_limits l h in
    ((omega arith, short), ((inr (refl, one), refl), valid))

module _ {Float : Type 0} (format_float : Float → Bytes) (W : Sink) (S : Source)
    (room : 32 ≤ S.size) where
  -- A command of at most 1048576 parts, each of a supported type and of at most 512 MiB: `writeCommand` on
  -- a fresh writer returns no error and writes a text; a decoder of utils/resparse that has not failed,
  -- whose reader has a buffer of at least 32 bytes and holds that text and more, returns from
  -- `DecodeMultiBulk` the array of the parts as bulk strings, stays usable, and leaves the rest to be read.
  pub decode_multi_bulk-write_command :
      (cmd : Bytes) (args : List (Arg Float)) (texts : List Bytes) (rest : Bytes) (w : W.Writer)
      (f : ℕ) (d : Decoder.Decoder S)
      → Spells format_float args texts
      → All (λ t. length t ≤ max_bulk_bytes_len) (cmd ∷ texts)
      → suc (length args) ≤ max_array_len
      → W.Wrote [] w
      → d.err ≡ none
      → S.Holds (request_text (bulks (cmd ∷ texts)) ++ rest) d.br
      → (w' : W.Writer) × (d' : Decoder.Decoder S) × (Command.write_command format_float W cmd args
            w
          ≡ (none, w'))
        × W.Wrote (request_text (bulks (cmd ∷ texts))) w'
        × (Decoder.decode_multi_bulk (suc f) d ≡ (ok (items (bulks (cmd ∷ texts))), d'))
        × (d'.err ≡ none)
        × S.Holds rest d'.br
  decode_multi_bulk-write_command cmd args texts rest w f d h small few fresh fine g =
      let (short, valid) = within_limits (cmd ∷ texts) small in
      let size : count (bulks (cmd ∷ texts)) ≡ suc (length args) =
        omega (arith, length-Spells format_float args texts h, count-bulks texts) in
      let (w', e1, g1) =
        write_command-request_text format_float W cmd args texts [] w h short (omega arith) fresh in
      let (d', e2, fine', g2) =
        decode_multi_bulk-request S room f (bulks (cmd ∷ texts)) rest d
          (omega arith, omega arith, valid) fine g in
      (w', d', e1, g1, e2, fine', g2)
