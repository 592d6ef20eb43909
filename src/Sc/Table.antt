-- ===== src/Sc/Table.antt =====
-- A Go map whose keys are strings of bytes: an association list in the order in which a `range` visits it,
-- which Go leaves open.
use ipfs_nosql_frame.Prelude.{
  ◌≡◌, refl, true, Option, none, some, List, [], ◌∷◌, Bytes, arith, if◌then◌else◌,
}
use ipfs_nosql_frame.Rediscluster.Replies.{equal}
use ipfs_nosql_frame.Rediscluster.ListsRead.{equal_iff}

abbrev pub Table : Type 0 → Type 0
Table V = List (Bytes × V)

module _ {V : Type 0} where
  -- v, ok := m[k]
  unfoldable pub lookup : Bytes → Table V → Option V
  lookup k [] = none
  lookup k ((a, v) ∷ m) = if equal a k then some v else lookup k m

  -- m[k] = v
  unfoldable pub insert : Bytes → V → Table V → Table V
  insert k v [] = (k, v) ∷ []
  insert k v ((a, old) ∷ m) =
      let rest = (a, old) ∷ insert k v m in if equal a k then (k, v) ∷ m else rest

  -- delete(m, k)
  unfoldable pub delete : Bytes → Table V → Table V
  delete k [] = []
  delete k ((a, v) ∷ m) = let rest = delete k m in if equal a k then rest else (a, v) ∷ rest

  pub lookup-insert :
      (k j : Bytes) (v : V) (m : Table V)
      → lookup j (insert k v m) ≡ (if equal k j then some v else lookup j m)
  unfolding lookup insert
  lookup-insert k j v [] = refl
  lookup-insert k j v ((a, old) ∷ m) =
      ground (arith, equal_iff a k, equal_iff k j, equal_iff a j, lookup-insert k j v m)

  pub lookup-delete :
      (k j : Bytes) (m : Table V) → lookup j (delete k m) ≡ (if equal k j then none else lookup j m)
  unfolding lookup delete
  lookup-delete k j [] = ground arith
  lookup-delete k j ((a, v) ∷ m) =
      ground (arith, equal_iff a k, equal_iff k j, equal_iff a j, lookup-delete k j m)

pub equal_self : (k : Bytes) → equal k k ≡ true
equal_self k = (equal_iff k k).1 refl
