-- ===== src/Bufio2/Split.antt =====
-- How a text that is read in parts stands against the text it is part of.
use ipfs_nosql_frame.Prelude.{
  ℕ, suc, ◌≤◌, ◌≡◌, ◌≢◌, ◌⊎◌, inl, inr, refl, none, some, [], ◌∷◌, ◌++◌, Bytes, length, take, drop,
  All, arith, ap, ◌+◌, append_assoc, length-append,
}
use ipfs_nosql_frame.Bufio2.Reader.{index_byte}

-- Two texts that are equal, cut in two: the shorter first part begins the other.
pub prefix_split :
    (p s q rest : Bytes)
    → p ++ s ≡ q ++ rest
    → length p ≤ length q
    → (t : Bytes) × (p ++ t ≡ q) × (s ≡ t ++ rest)
prefix_split [] s q rest h short = (q, refl, h)
prefix_split (a ∷ p) s [] rest h short = let absurd : ⊥ = omega arith in elim absurd [ ]
prefix_split (a ∷ p) s (b ∷ q) rest h short =
    let tails : p ++ s ≡ q ++ rest = cc in
    let heads : a ≡ b = cc in
    let (t, e1, e2) = prefix_split p s q rest tails (omega arith) in (t, cc, e2)

-- A window `w` onto a text whose first `d` stands behind `line`: either it holds the delimiter, or it is
-- a first part of the line.
pub index_split :
    (d : ℕ) (w s line rest : Bytes)
    → All (λ c. c ≢ d) line
    → w ++ s ≡ line ++ d ∷ rest
    → ((index_byte d w ≡ some (length line))
        × (take (suc (length line)) w ≡ line ++ d ∷ [])
        × (drop (suc (length line)) w ++ s ≡ rest))
      ⊎ ((t : Bytes) × (index_byte d w ≡ none) × (w ++ t ≡ line) × (s ≡ t ++ d ∷ rest))
unfolding index_byte
index_split d [] s line rest h e = inr (line, refl, refl, e)
index_split d (c ∷ w) s [] rest h e =
    let heads : c ≡ d = cc in
    let tails : w ++ s ≡ rest = cc in inl (ground arith, ap (λ x. x ∷ []) heads, tails)
index_split d (c ∷ w) s (a ∷ line) rest (ha, h) e =
    let heads : c ≡ a = cc in
    let tails : w ++ s ≡ line ++ d ∷ rest = cc in
    elim (index_split d w s line rest h tails) [
      | inl (e1, e2, e3) ↦ inl (ground (arith, e1, heads, ha), cc, e3)
      | inr (t, e1, e2, e3) ↦ inr (t, ground (arith, e1, heads, ha), cc, e3)
    ]

pub length_parts : (p t s : Bytes) → p ++ t ≡ s → length s ≡ length p + length t
length_parts p t s e = rw (← e) (length-append p t)

pub append_parts : (acc p t s : Bytes) → p ++ t ≡ s → (acc ++ p) ++ t ≡ acc ++ s
append_parts acc p t s e = rw (← e) (append_assoc acc p t)

pub append_line :
    (acc p t line : Bytes) (d : ℕ)
    → p ++ t ≡ line
    → (acc ++ p) ++ (t ++ d ∷ []) ≡ acc ++ (line ++ d ∷ [])
append_line acc p t line d e = rw (← e) (simp append_assoc)

pub append_cons :
    (u : Bytes) (d : ℕ) (rest : Bytes) → (c : ℕ) × (t : Bytes) × (u ++ d ∷ rest ≡ c ∷ t)
append_cons [] d rest = (d, rest, refl)
append_cons (c ∷ u) d rest = (c, u ++ d ∷ rest, refl)
