-- ===== src/Prelude/Grouping.antt =====
-- Items that are spread over numbered groups, and taken from the groups in the order of the items.
use Prim.Native.Nat.{ℕ, zero, suc, ◌≤◌, ◌<◌}
use mathlib.Core.Path.{◌≡◌, refl, sym, ap, ◌∙◌}
use mathlib.Core.Option.{Option, none, some}
use mathlib.Core.List.{List, [], ◌∷◌, ◌++◌, append-nil, append_assoc}
use native.Mathlib.Omega.{arith}
use ipfs_nosql_frame.Prelude.Lists.{length}

module _ {A : Type 0} where
  -- The item at the end of the group with an index, or in a new group past the last.
  abbrev pub put_in : ℕ → A → List (List A) → List (List A)
  put_in i a [] = (a ∷ []) ∷ []
  put_in zero a (group ∷ groups) = (group ++ a ∷ []) ∷ groups
  put_in (suc i) a (group ∷ groups) = group ∷ put_in i a groups

  abbrev pub spread : List (ℕ × A) → List (List A) → List (List A)
  spread [] groups = groups
  spread ((i, a) ∷ items) groups = spread items (put_in i a groups)

  -- Each index is that of a group, or of the next new one.
  abbrev pub AreIndices : List (ℕ × A) → List (List A) → Type 0
  AreIndices [] groups = Unit
  AreIndices ((i, a) ∷ items) groups = (i ≤ length groups) × AreIndices items (put_in i a groups)

  abbrev pub indices : List (ℕ × A) → List ℕ
  indices [] = []
  indices ((i, a) ∷ items) = i ∷ indices items

  abbrev pub contents : List (ℕ × A) → List A
  contents [] = []
  contents ((i, a) ∷ items) = a ∷ contents items

  -- The first item of the group with an index, and the groups without it.
  abbrev pub take_from : ℕ → List (List A) → Option (A × List (List A))
  take_from i [] = none
  take_from zero ([] ∷ groups) = none
  take_from zero ((a ∷ group) ∷ groups) = some (a, group ∷ groups)
  take_from (suc i) (group ∷ groups) = elim (take_from i groups) [
    | none ↦ none
    | some (a, groups') ↦ some (a, group ∷ groups')
  ]

  -- The groups that were there, with what was put behind each of them, and the new ones.
  abbrev joined : List (List A) → List (List A) → List (List A)
  joined [] added = added
  joined (group ∷ groups) [] = group ∷ groups
  joined (group ∷ groups) (more ∷ added) = (group ++ more) ∷ joined groups added

  -- Taking by the indices gives the items, in their order.
  abbrev pub Yields : List (ℕ × A) → List (List A) → Type 0
  Yields [] groups = Unit
  Yields ((i, a) ∷ items) groups =
      (rest : List (List A)) × (take_from i groups ≡ some (a, rest)) × Yields items rest

  abbrev blanks : List (List A) → List (List A)
  blanks [] = []
  blanks (group ∷ groups) = [] ∷ blanks groups

  joined-blanks : (groups : List (List A)) → joined groups (blanks groups) ≡ groups
  joined-blanks [] = refl
  joined-blanks (group ∷ groups) = rw (append-nil, joined-blanks groups) refl

  length-blanks : (groups : List (List A)) → length (blanks groups) ≡ length groups
  length-blanks [] = refl
  length-blanks (group ∷ groups) = omega (arith, length-blanks groups)

  -- An item in front of what is added to a group.
  abbrev front : ℕ → A → List (List A) → List (List A)
  front i a [] = (a ∷ []) ∷ []
  front zero a (more ∷ added) = (a ∷ more) ∷ added
  front (suc i) a (more ∷ added) = more ∷ front i a added

  length-put_in :
      (i : ℕ) (a : A) (groups : List (List A))
      → i ≤ length groups
      → (length groups ≤ length (put_in i a groups)) × (i < length (put_in i a groups))
  length-put_in i a [] h = (omega arith, omega arith)
  length-put_in zero a (group ∷ groups) h = (omega arith, omega arith)
  length-put_in (suc i) a (group ∷ groups) h =
      let (grown, inside) = length-put_in i a groups (omega arith) in (omega arith, omega arith)

  length-front :
      (i : ℕ) (a : A) (added : List (List A))
      → i < length added
      → length (front i a added) ≡ length added
  length-front i a [] h = absurd (omega arith)
  length-front zero a (more ∷ added) h = refl
  length-front (suc i) a (more ∷ added) h = omega (arith, length-front i a added (omega arith))

  take_from-front :
      (i : ℕ) (a : A) (added : List (List A))
      → i < length added
      → take_from i (front i a added) ≡ some (a, added)
  take_from-front i a [] h = absurd (omega arith)
  take_from-front zero a (more ∷ added) h = refl
  take_from-front (suc i) a (more ∷ added) h = rw (take_from-front i a added (omega arith)) refl

  joined-front :
      (i : ℕ) (a : A) (groups added : List (List A))
      → i ≤ length groups
      → length (put_in i a groups) ≤ length added
      → joined groups (front i a added) ≡ joined (put_in i a groups) added
  joined-front i a [] [] h enough = absurd (omega arith)
  joined-front zero a [] (more ∷ added) h enough = refl
  joined-front (suc i) a [] (more ∷ added) h enough = absurd (omega arith)
  joined-front i a (group ∷ groups) [] h enough =
      absurd (omega (arith, length-put_in i a (group ∷ groups) h))
  joined-front zero a (group ∷ groups) (more ∷ added) h enough =
      rw (append_assoc group (a ∷ []) more) refl
  joined-front (suc i) a (group ∷ groups) (more ∷ added) h enough =
      ap (λ rest. (group ++ more) ∷ rest)
        (joined-front i a groups added (omega arith) (omega arith))

  spread_lem :
      (items : List (ℕ × A)) (groups : List (List A))
      → AreIndices items groups
      → (added : List (List A)) × (spread items groups ≡ joined groups added)
        × (length groups ≤ length added)
        × Yields items added
  spread_lem [] groups h =
      (blanks groups, sym (joined-blanks groups), omega (arith, length-blanks groups), tt)
  spread_lem ((i, a) ∷ items) groups (hi, h) =
      let (added, e, size, yields) = spread_lem items (put_in i a groups) h in
      let (grown, inside) = length-put_in i a groups hi in
      (
        front i a added,
        e ∙ sym (joined-front i a groups added hi size),
        omega (arith, length-front i a added (omega arith)),
        (added, take_from-front i a added (omega arith), yields),
      )

  -- Items that are spread over groups from none on come back in their order.
  pub spread-Yields : (items : List (ℕ × A)) → AreIndices items [] → Yields items (spread items [])
  spread-Yields items h = let (added, e, size, yields) = spread_lem items [] h in rw e yields

  -- A last item.
  pub snoc_lem :
      (items : List (ℕ × A)) (i : ℕ) (a : A) (groups : List (List A))
      → (indices (items ++ (i, a) ∷ []) ≡ indices items ++ i ∷ [])
        × (contents (items ++ (i, a) ∷ []) ≡ contents items ++ a ∷ [])
        × (spread (items ++ (i, a) ∷ []) groups ≡ put_in i a (spread items groups))
  snoc_lem [] i a groups = (refl, refl, refl)
  snoc_lem ((j, b) ∷ items) i a groups =
      let (e1, e2, e3) = snoc_lem items i a (put_in j b groups) in
      (ap (λ l. j ∷ l) e1, ap (λ l. b ∷ l) e2, e3)

  pub AreIndices-snoc :
      (items : List (ℕ × A)) (i : ℕ) (a : A) (groups : List (List A))
      → AreIndices items groups
      → i ≤ length (spread items groups)
      → AreIndices (items ++ (i, a) ∷ []) groups
  AreIndices-snoc [] i a groups h last = (last, tt)
  AreIndices-snoc ((j, b) ∷ items) i a groups (first, h) last =
      (first, AreIndices-snoc items i a (put_in j b groups) h last)

-- The items, each with its index.
abbrev pub with_indices : {A : Type 0} → List ℕ → List A → List (ℕ × A)
with_indices [] l = []
with_indices (i ∷ index) [] = []
with_indices (i ∷ index) (a ∷ l) = (i, a) ∷ with_indices index l

pub with_indices-contents :
    {A : Type 0} (items : List (ℕ × A)) → with_indices (indices items) (contents items) ≡ items
with_indices-contents [] = refl
with_indices-contents ((i, a) ∷ items) = ap (λ l. (i, a) ∷ l) (with_indices-contents items)

module _ {A B : Type 0} where
  put_in_size :
      (i : ℕ) (a : A) (b : B) (groups : List (List A)) (others : List (List B))
      → length groups ≡ length others
      → length (put_in i a groups) ≡ length (put_in i b others)
  put_in_size i a b [] [] h = refl
  put_in_size i a b [] (other ∷ others) h = absurd (omega arith)
  put_in_size i a b (group ∷ groups) [] h = absurd (omega arith)
  put_in_size zero a b (group ∷ groups) (other ∷ others) h = h
  put_in_size (suc i) a b (group ∷ groups) (other ∷ others) h =
      omega (arith, put_in_size i a b groups others (omega arith))

  -- Other items at the same indices.
  pub with_indices_lem :
      (items : List (ℕ × A)) (l : List B) (groups : List (List A)) (others : List (List B))
      → length l ≡ length (contents items)
      → length groups ≡ length others
      → AreIndices items groups
      → (indices (with_indices (indices items) l) ≡ indices items)
        × (contents (with_indices (indices items) l) ≡ l)
        × AreIndices (with_indices (indices items) l) others
  with_indices_lem [] [] groups others e h valid = (refl, refl, tt)
  with_indices_lem [] (b ∷ l) groups others e h valid = absurd (omega arith)
  with_indices_lem ((i, a) ∷ items) [] groups others e h valid = absurd (omega arith)
  with_indices_lem ((i, a) ∷ items) (b ∷ l) groups others e h (first, valid) =
      let (e1, e2, e3) =
        with_indices_lem items l (put_in i a groups) (put_in i b others) (omega arith)
          (put_in_size i a b groups others h) valid in
      (ap (λ t. i ∷ t) e1, ap (λ t. b ∷ t) e2, (omega arith, e3))
