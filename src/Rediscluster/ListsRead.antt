-- ===== src/Rediscluster/ListsRead.antt =====
-- What the conversions of lists read.
use ipfs_nosql_frame.Prelude.{
  ℕ, zero, suc, ◌*◌, ◌%◌, ◌==◌, ℤ, pos, ◌≡◌, refl, ap, ◌∙◌, ◌↔◌, Bool, true, false, Option, none,
  some, List, [], ◌∷◌, All, Bytes, length, Result, ok, arith, if◌then◌else◌, ltb,
}
use ipfs_nosql_frame.Credis.Strconv.{IsInt64, format_int, parse_int-format_int}
use ipfs_nosql_frame.Rediscluster.Replies.{
  Reply, ReplyList, ReplyError, integer, bulk, null, array, nil, cons, equal, values,
}
use ipfs_nosql_frame.Rediscluster.Lists.{
  StringMap, make, reply_count, put, entry, assign_int, assign_string, written, scan_loop, scan,
  ints, strings, pairs_loop, string_map,
}

pub equal_iff : (a b : Bytes) → (equal a b ≡ true) ↔ (a ≡ b)
unfolding equal
equal_iff [] [] = ground arith
equal_iff [] (d ∷ b) = ground arith
equal_iff (c ∷ a) [] = ground arith
equal_iff (c ∷ a) (d ∷ b) = ground (arith, equal_iff a b)

entry-put :
    (k j v : Bytes) (m : StringMap)
    → entry j (put k v m) ≡ (if equal k j then some v else entry j m)
unfolding put entry
entry-put k j v [] = refl
entry-put k j v ((a, old) ∷ m) =
    ground (arith, equal_iff a k, equal_iff k j, equal_iff a j, entry-put k j v m)

-- The reply to HGETALL: keys and values in turn, as bulk strings.
unfoldable pub pairs : StringMap → ReplyList
pairs [] = nil
pairs ((k, v) ∷ m) = cons (bulk k) (cons (bulk v) (pairs m))

-- The last value that a list of pairs has for a key, or the one given.
unfoldable pub last_value : Bytes → StringMap → Option Bytes → Option Bytes
last_value k [] found = found
last_value k ((a, v) ∷ m) found = last_value k m (if equal a k then some v else found)

reply_count-pairs : (m : StringMap) → reply_count (pairs m) ≡ length m * 2
unfolding reply_count pairs
reply_count-pairs [] = refl
reply_count-pairs (p ∷ m) = grind (arith, reply_count-pairs m)

even_lem : (n : ℕ) → (n * 2 % 2 == 0) ≡ true
even_lem n = ground arith

pairs_loop-pairs :
    {E : Type 0} (ps m : StringMap)
    → (m' : StringMap) × (pairs_loop {E = E} (pairs ps) m ≡ ok m')
      × ((k : Bytes) → entry k m' ≡ last_value k ps (entry k m))
unfolding pairs_loop pairs last_value
pairs_loop-pairs [] m = (m, refl, λ k. refl)
pairs_loop-pairs ((a, v) ∷ ps) m =
    let (m', runs, finds) = pairs_loop-pairs ps (put a v m) in
    (m', runs, λ k. finds k ∙ ap (last_value k ps) (entry-put a k v m))

-- StringMap of the array of keys and values in turn, as bulk strings, succeeds, and its map has under each
-- key the last value of the key, and nothing under another.
pub string_map-pairs :
    {E : Type 0} (ps : StringMap)
    → (m : StringMap) × (string_map {E = E} (array (pairs ps)) none ≡ ok m)
      × ((k : Bytes) → entry k m ≡ last_value k ps none)
unfolding string_map values entry
string_map-pairs {E = E} ps =
    let (m, runs, finds) = pairs_loop-pairs {E = E} ps [] in
    (m, rw (reply_count-pairs ps, even_lem (length ps)) runs, finds)

-- A number on the wire: as an integer, or as the bulk string of its digits.
abbrev pub number : Bool × ℤ → Reply
number (true, z) = integer z
number (false, z) = bulk (format_int z)

unfoldable pub numbers : List (Bool × ℤ) → ReplyList
numbers [] = nil
numbers (p ∷ ps) = cons (number p) (numbers ps)

abbrev pub seconds : List (Bool × ℤ) → List ℤ
seconds [] = []
seconds ((b, z) ∷ ps) = z ∷ seconds ps

assign_int-number :
    {E : Type 0} (b : Bool) (z old : ℤ) → IsInt64 z → assign_int {E = E} old (number (b, z)) ≡ ok z
unfolding assign_int
assign_int-number true z old h = refl
assign_int-number false z old h = rw (parse_int-format_int z h) refl

scan_step :
    {E D : Type 0} (assign : D → Reply → Result (ReplyError E) D) (d x : D) (dst : List D)
    (r : Reply) (src : ReplyList)
    → assign d r ≡ ok x
    → scan_loop assign (d ∷ dst) (cons r src) ≡ written x (scan_loop assign dst src)
unfolding scan_loop
scan_step assign d x dst r src h = rw (h, scan_loop) refl

scan_loop-numbers :
    {E : Type 0} (ps : List (Bool × ℤ))
    → All (λ p. IsInt64 p.1) ps
    → scan_loop (assign_int {E = E}) (make (pos 0) (reply_count (numbers ps))) (numbers ps)
      ≡ ok (seconds ps)
unfolding make reply_count numbers scan_loop
scan_loop-numbers [] h = refl
scan_loop-numbers ((b, z) ∷ ps) (h, hs) =
    let rest = make (pos 0) (reply_count (numbers ps)) in
    scan_step assign_int (pos 0) z rest (number (b, z)) (numbers ps)
      (assign_int-number b z (pos 0) h)
    ∙ ap (written z) (scan_loop-numbers ps hs)

length-make : {A : Type 0} (a : A) (n : ℕ) → length (make a n) ≡ n
unfolding make
length-make a zero = refl
length-make a (suc n) = ap suc (length-make a n)

ltb_irrefl : (n : ℕ) → ltb n n ≡ false
ltb_irrefl n = ground arith

-- Ints of an array of int64s, each sent as an integer or as the bulk string that FormatInt prints, returns
-- these numbers in order.
pub ints-numbers :
    {E : Type 0} (ps : List (Bool × ℤ))
    → All (λ p. IsInt64 p.1) ps
    → ints {E = E} (array (numbers ps)) none ≡ ok (seconds ps)
unfolding ints scan values
ints-numbers ps h =
    rw (length-make (pos 0) (reply_count (numbers ps)), ltb_irrefl (reply_count (numbers ps)))
      (scan_loop-numbers ps h)

-- An element that Strings takes: a bulk string or nil.
abbrev pub text : Option Bytes → Reply
text none = null
text (some b) = bulk b

unfoldable pub texts : List (Option Bytes) → ReplyList
texts [] = nil
texts (t ∷ ts) = cons (text t) (texts ts)

abbrev pub or_empty : List (Option Bytes) → List Bytes
or_empty [] = []
or_empty (none ∷ ts) = [] ∷ or_empty ts
or_empty (some b ∷ ts) = b ∷ or_empty ts

scan_loop-texts :
    {E : Type 0} (ts : List (Option Bytes))
    → scan_loop (assign_string {E = E}) (make [] (reply_count (texts ts))) (texts ts)
      ≡ ok (or_empty ts)
unfolding make reply_count texts scan_loop assign_string
scan_loop-texts [] = refl
scan_loop-texts (none ∷ ts) = ap (written []) (scan_loop-texts ts)
scan_loop-texts (some b ∷ ts) = ap (written b) (scan_loop-texts ts)

-- Strings of an array of bulk strings and nils returns the strings in order, and the empty string for nil.
pub strings-texts :
    {E : Type 0} (ts : List (Option Bytes))
    → strings {E = E} (array (texts ts)) none ≡ ok (or_empty ts)
unfolding strings scan values
strings-texts ts =
    rw (length-make {A = Bytes} [] (reply_count (texts ts)), ltb_irrefl (reply_count (texts ts)))
      (scan_loop-texts ts)
