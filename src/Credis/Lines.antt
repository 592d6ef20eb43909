-- ===== src/Credis/Lines.antt =====
-- The lines of the protocol: cutting off their ends, and the lengths that they carry.
use native.Mathlib.Numerals.{add-one}
use ipfs_nosql_frame.Prelude.{
  suc, ◌≤◌, ◌<◌, ◌^◌, ℤ, pos, negsuc, ◌≡◌, ◌≢◌, some, [], ◌∷◌, ◌++◌, append_assoc, arith, Bytes,
  length, length-append, All, All-append, take-append_self, get_or-append_length, get_or-append_suc,
  ok,
}
use ipfs_nosql_frame.Credis.Strconv.{
  format_int, format_nat-All, length-format_nat, IsDigit, IsInt64,
}
use ipfs_nosql_frame.Credis.Decoder
use ipfs_nosql_frame.Credis.Decoder.{Decodes, max_bulk_bytes_len, max_array_len, lf, cr, ◌>>=◌}
use ipfs_nosql_frame.Credis.Encoder.{crlf}

-- Cutting the end off a line gives the line back.
pub strip_crlf-line : (line : Bytes) → Decoder.strip_crlf (line ++ crlf) ≡ ok line
unfolding Decoder.strip_crlf
strip_crlf-line line =
    let size : length (line ++ crlf) ≡ suc (suc (length line)) =
      omega (arith, length-append {0} line crlf) in
    ground (arith, size, get_or-append_length line crlf 0, take-append_self line crlf)

pub strip_bulk-text : (b : Bytes) → Decoder.strip_bulk (length b) (b ++ crlf) ≡ ok (some b)
unfolding Decoder.strip_bulk
strip_bulk-text b =
    rw (add-one, get_or-append_length b crlf 0, get_or-append_suc b crlf 0, take-append_self b crlf)

-- The lengths that the codec prints, and -1.
abbrev pub IsShort : ℤ → Type 0
IsShort (pos n) = n < 10 ^ 9
IsShort (negsuc n) = n < 10

pub digit-ne-lf : (s : Bytes) → All IsDigit s → All (λ c. c ≢ lf) s
digit-ne-lf [] h = tt
digit-ne-lf (c ∷ s) (hc, hs) = (omega arith, digit-ne-lf s hs)

pub format_int-line :
    (z : ℤ) → IsShort z → All (λ c. c ≢ lf) (format_int z) × (length (format_int z) ≤ 9)
unfolding format_int
format_int-line (pos n) h = (digit-ne-lf _ (format_nat-All n), length-format_nat 8 n (omega arith))
format_int-line (negsuc n) h = (
  (omega arith, digit-ne-lf _ (format_nat-All (suc n))),
  omega (arith, length-format_nat 1 (suc n) (omega arith)),
)

pub IsShort-IsInt64 : (z : ℤ) → IsShort z → IsInt64 z
IsShort-IsInt64 (pos n) h = omega arith
IsShort-IsInt64 (negsuc n) h = omega arith

-- A line with its end, as the reader's laws see it: the line with the carriage return, then the feed.
pub line_assoc : (line rest : Bytes) → (line ++ crlf) ++ rest ≡ (line ++ cr ∷ []) ++ lf ∷ rest
line_assoc line rest = simp append_assoc

pub line_end : (line : Bytes) → (line ++ cr ∷ []) ++ lf ∷ [] ≡ line ++ crlf
line_end line = simp append_assoc

pub line-ne-lf : (line : Bytes) → All (λ c. c ≢ lf) line → All (λ c. c ≢ lf) (line ++ cr ∷ [])
line-ne-lf line h = All-append (λ c. c ≢ lf) line (cr ∷ []) h (omega arith)
