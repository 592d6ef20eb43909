-- ===== src/Prelude/GoMap.antt =====
-- A Go map with string keys: an association list with at most one entry for each key. The order of
-- the entries is the order in which a `range` over the map would visit them, which Go leaves open.
use Prim.Native.Nat.{suc, ◌≤◌}
use Prim.Native.String.{String}
use mathlib.Core.Path.{◌≡◌, refl}
use mathlib.Core.Option.{Option, none, some}
use mathlib.Core.List.{List, [], ◌∷◌}
use native.Mathlib.Omega.{arith}
use text.Mathlib.Text.{◌==◌}
use text.Mathlib.TextEquality.{eq_iff}
use ipfs_nosql_frame.Prelude.Tests.{if◌then◌else◌, is_some}
use ipfs_nosql_frame.Prelude.Lists.{length}

abbrev pub GoMap {ℓ} : Type ℓ → Type ℓ
GoMap V = List (String × V)

module _ {ℓ} {V : Type ℓ} where
  -- v, ok := m[k]
  unfoldable pub lookup : String → GoMap V → Option V
  lookup key [] = none
  lookup key ((slot, val) ∷ entries) = if slot == key then some val else lookup key entries

  -- m[k] = v
  unfoldable pub insert : String → V → GoMap V → GoMap V
  insert key val [] = (key, val) ∷ []
  insert key val ((slot, old) ∷ entries) =
      if slot == key then (key, val) ∷ entries else (slot, old) ∷ insert key val entries

  -- delete(m, k)
  unfoldable pub delete : String → GoMap V → GoMap V
  delete key [] = []
  delete key ((slot, val) ∷ entries) =
      let rest = delete key entries in if slot == key then rest else (slot, val) ∷ rest

  -- Every key stands once.
  abbrev pub IsDistinct : GoMap V → Type ℓ
  IsDistinct [] = Unit
  IsDistinct ((key, val) ∷ entries) = (lookup key entries ≡ none) × IsDistinct entries

  pub lookup-insert :
      (key slot : String) (val : V) (entries : GoMap V)
      → lookup slot (insert key val entries)
        ≡ (if key == slot then some val else lookup slot entries)
  unfolding lookup insert
  lookup-insert key slot val [] = refl
  lookup-insert key slot val ((k, old) ∷ entries) =
      ground
        (arith, eq_iff key slot, eq_iff k key, eq_iff k slot, lookup-insert key slot val entries)

  pub lookup-delete :
      (key slot : String) (entries : GoMap V)
      → lookup slot (delete key entries) ≡ (if key == slot then none else lookup slot entries)
  unfolding lookup delete
  lookup-delete key slot [] = ground arith
  lookup-delete key slot ((k, old) ∷ entries) =
      ground (arith, eq_iff key slot, eq_iff k key, eq_iff k slot, lookup-delete key slot entries)

  pub length-insert :
      (key : String) (val : V) (entries : GoMap V)
      → length (insert key val entries)
        ≡ (if is_some (lookup key entries) then length entries else suc (length entries))
  unfolding lookup insert
  length-insert key val [] = refl
  length-insert key val ((k, old) ∷ entries) = ground (arith, length-insert key val entries)

  pub length-delete-le :
      (key : String) (entries : GoMap V) → length (delete key entries) ≤ length entries
  unfolding delete
  length-delete-le key [] = omega arith
  length-delete-le key ((k, old) ∷ entries) = ground (arith, length-delete-le key entries)

module _ {ℓ} {V : Type ℓ} where
  pub insert-IsDistinct :
      (key : String) (val : V) (entries : GoMap V)
      → IsDistinct entries
      → IsDistinct (insert key val entries)
  unfolding insert lookup
  insert-IsDistinct key val [] h = (refl, tt)
  insert-IsDistinct key val ((k, old) ∷ entries) h = ground (
    arith,
    eq_iff k key,
    eq_iff key k,
    lookup-insert key k val entries,
    insert-IsDistinct key val entries h.1,
  )

  pub delete-IsDistinct :
      (key : String) (entries : GoMap V) → IsDistinct entries → IsDistinct (delete key entries)
  unfolding delete
  delete-IsDistinct key [] h = tt
  delete-IsDistinct key ((k, old) ∷ entries) h =
      ground (arith, eq_iff key k, lookup-delete key k entries, delete-IsDistinct key entries h.1)

module _ {ℓ} {V : Type ℓ} where
  pub insert-insert_self :
      (key : String) (val old : V) (entries : GoMap V)
      → insert key val (insert key old entries) ≡ insert key val entries
  unfolding insert
  insert-insert_self key val old [] = ground (arith, eq_iff key key)
  insert-insert_self key val old ((k, u) ∷ entries) =
      ground (arith, eq_iff key key, eq_iff k key, insert-insert_self key val old entries)

  pub insert-lookup_self :
      (key : String) (val : V) (entries : GoMap V)
      → lookup key entries ≡ some val
      → insert key val entries ≡ entries
  unfolding insert lookup
  insert-lookup_self key val [] h = cc
  insert-lookup_self key val ((k, u) ∷ entries) h =
      ground (arith, eq_iff k key, insert-lookup_self key val entries)
