-- ===== src/Credis/Itoa.antt =====
-- encoder.go: itoa, which cuts the numbers from -128 to 32768 out of one printed buffer.
use ipfs_nosql_frame.Prelude.{
  ℕ, zero, suc, ◌+◌, ◌-◌, ◌<◌, ℤ, pos, negsuc, ◌≡◌, ap, ◌∙◌, inl, inr, Bool-cases, Bool, true, [],
  ◌++◌, append_assoc, append-nil, arith, Bytes, length, length-append, take, drop, take-append_self,
  drop-append_self, ltb, leb, ◌==◌, if◌then◌else◌,
}
use native.Mathlib.Numerals.{add-one}
use ipfs_nosql_frame.Credis.Strconv.{format_int}

abbrev pub max_itoa : ℕ
max_itoa = 32768

-- The number of entries: maxItoa - minItoa + 1.
abbrev pub table_size : ℕ
table_size = 32897

-- The number k + minItoa that stands in entry k.
abbrev pub entry : ℕ → ℤ
entry k = if ltb k 128 then negsuc (127 - k) else pos (k - 128)

-- The buffer after the first n rounds of init.
unfoldable pub itoa_buffer : ℕ → Bytes
itoa_buffer zero = []
itoa_buffer (suc k) = itoa_buffer k ++ format_int (entry k)

-- itoaOffset[k]: the length of the buffer before round k.
unfoldable pub itoa_offset : ℕ → ℕ
itoa_offset k = length (itoa_buffer k)

-- buffer[beg:end]
abbrev pub slice : Bytes → ℕ → ℕ → Bytes
slice b beg end = take (end - beg) (drop beg b)

-- i - minItoa, for a number i in the table
abbrev pub index : ℤ → ℕ
index (pos n) = n + 128
index (negsuc n) = 127 - n

abbrev pub in_table : ℤ → Bool
in_table (pos n) = leb n max_itoa
in_table (negsuc n) = ltb n 128

unfoldable pub itoa : ℤ → Bytes
unfolding itoa_offset
itoa i =
    let beg = itoa_offset (index i) in
    if in_table i
    then (if index i == max_itoa + 128
        then drop beg (itoa_buffer table_size)
        else slice (itoa_buffer table_size) beg (itoa_offset (index i + 1)))
    else format_int i

-- The buffer after n rounds is the buffer after k of them, entry k and more.
buffer_split :
    (k n : ℕ)
    → k < n
    → (rest : Bytes) × (itoa_buffer n ≡ itoa_buffer k ++ (format_int (entry k) ++ rest))
unfolding itoa_buffer
buffer_split k zero h = absurd (omega arith)
buffer_split k (suc n) h = elim (Bool-cases (ltb k n)) [
  | inl before ↦
      let (rest, e) = buffer_split k n (ground arith) in
      (rest ++ format_int (entry n), rw e (simp append_assoc))
  | inr last ↦ let same : n ≡ k = ground arith in ([], rw (same, append-nil))
]

slice-entry :
    (k n : ℕ)
    → k < n
    → slice (itoa_buffer n) (itoa_offset k) (itoa_offset (suc k)) ≡ format_int (entry k)
unfolding itoa_offset
slice-entry k n h =
    let (rest, e) = buffer_split k n h in
    let w : Bytes = format_int (entry k) in
    let len : length (itoa_buffer (suc k)) - length (itoa_buffer k) ≡ length w =
      unfold itoa_buffer in omega (arith, length-append {0} (itoa_buffer k) w) in
    rw (len, e, drop-append_self (itoa_buffer k) (w ++ rest)) (take-append_self w rest)

last_entry : (k n : ℕ) → n ≡ suc k → drop (itoa_offset k) (itoa_buffer n) ≡ format_int (entry k)
unfolding itoa_offset itoa_buffer
last_entry k n e = rw e (drop-append_self (itoa_buffer k) (format_int (entry k)))

entry-index : (i : ℤ) → in_table i ≡ true → entry (index i) ≡ i
entry-index (pos n) h = ground arith
entry-index (negsuc n) h = ground arith

index-lt : (i : ℤ) → in_table i ≡ true → index i < table_size
index-lt (pos n) h = ground arith
index-lt (negsuc n) h = ground arith

-- The table gives what FormatInt prints, for every integer.
pub itoa-eq-format_int : (i : ℤ) → itoa i ≡ format_int i
unfolding itoa
itoa-eq-format_int i = elim (Bool-cases (in_table i)) [
  | inr out ↦ rw (out, itoa)
  | inl inside ↦ elim (Bool-cases (index i == max_itoa + 128)) [
    | inl last ↦
        rw (inside, last)
          (last_entry (index i) table_size (ground arith) ∙ ap format_int (entry-index i inside))
    | inr before ↦
        rw (inside, before, add-one)
          (slice-entry (index i) table_size (index-lt i inside)
            ∙ ap format_int (entry-index i inside))
  ]
]
