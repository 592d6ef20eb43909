-- ===== src/Sc/Paths.antt =====
-- traffic_out_core.go: the route and the path of a request.
use ipfs_nosql_frame.Prelude.{
  ℕ, ◌≤◌, ◌==◌, ◌≡◌, refl, ap, sym, ◌∙◌, true, List, [], ◌∷◌, ◌++◌, Bytes, length, if_cases, arith,
}
use ipfs_nosql_frame.Sc.Routing.{
  Request, split, first_part, join_parts, rest_path, route_of, path_of, tail_of,
}

split_cons : (s : Bytes) → (part : Bytes) × (parts : List Bytes) × (split s ≡ part ∷ parts)
unfolding split
split_cons [] = ([], [], refl)
split_cons (c ∷ s) =
    let (part, parts, e) = split_cons s in
    if_cases (λ l. (part : Bytes) × (parts : List Bytes) × (l ≡ part ∷ parts)) (c == b'/')
      (λ _. ([], split s, refl)) (λ _. (c ∷ part, parts, rw e refl))

byte_lem : {c : ℕ} → (c == b'/') ≡ true → b'/' ≡ c
byte_lem slash = ground arith

slashed :
    (part : Bytes) (parts : List Bytes) {c : ℕ} {s : Bytes}
    → (c == b'/') ≡ true
    → part ++ join_parts parts ≡ s
    → join_parts (part ∷ parts) ≡ c ∷ s
unfolding join_parts
slashed part parts slash whole = rw (byte_lem slash, whole) refl

parts_whole :
    (part : Bytes) (parts : List Bytes) {c : ℕ} {s : Bytes} {l : List Bytes}
    → l ≡ part ∷ parts
    → (c == b'/') ≡ true
    → first_part l ++ rest_path l ≡ s
    → join_parts l ≡ c ∷ s
unfolding join_parts
parts_whole part parts e slash whole =
    ap join_parts e
    ∙ slashed part parts slash (ap (λ l. first_part l ++ rest_path l) (sym e) ∙ whole)

split_whole : (s : Bytes) → first_part (split s) ++ rest_path (split s) ≡ s
unfolding split join_parts
split_whole [] = refl
split_whole (c ∷ s) =
    let (part, parts, e) = split_cons s in
    if_cases (λ l. first_part l ++ rest_path l ≡ c ∷ s) (c == b'/')
      (λ slash. parts_whole part parts e slash (split_whole s))
      (λ other.
        rw e (ap (λ t. c ∷ t) (ap (λ l. first_part l ++ rest_path l) (sym e) ∙ split_whole s)))

whole_uri :
    (s : Bytes)
    → 33 ≤ length s
    → (c : ℕ) × (s ≡ c ∷ first_part (split (tail_of s)) ++ rest_path (split (tail_of s)))
whole_uri [] long = absurd (omega arith)
whole_uri (c ∷ s) long = (c, ap (λ t. c ∷ t) (sym (split_whole s)))

-- The URI of a request is one byte, which is not looked at, the route and the path, which nothing is lost
-- of. (It has at least 33 bytes.)
pub route-path :
    (req : Request)
    → 33 ≤ length req.request_uri
    → (c : ℕ) × (req.request_uri ≡ c ∷ route_of req ++ path_of req)
route-path req long = whole_uri req.request_uri long
