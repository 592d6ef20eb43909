-- ===== src/MemoryCacher/Reads.antt =====
-- cache.go: what a reader of the cache sees after a write.
use ipfs_nosql_frame.Prelude.{
  ℕ, ◌+◌, ℤ, is_zero, is_positive, pos_part, leb, String, ◌≡◌, ◌↔◌, Bool, true, false, ◌&&◌, Option,
  none, some, [], ◌∷◌, inl, inr, Option-cases, arith, is_some, if◌then◌else◌,
}
use mathlib.Core.Option
use text.Mathlib.Text.{◌==◌}
use ipfs_nosql_frame.Prelude.GoMap
use ipfs_nosql_frame.MemoryCacher.Cache
use ipfs_nosql_frame.MemoryCacher.Cache.{
  Cache, Item, Reply, Outcome, done, panic, max_items_count_err, already_exists, doesnt_exist,
}

-- Whether an item stored at `now` for the duration `d` is still read at the time `later`.
abbrev pub is_alive : {A : Type 0} → Cache A → ℤ → ℕ → ℕ → Bool
is_alive c d now later =
    let d' = if is_zero d then c.default_expiration else d in
    if is_positive d' then leb later (now + pos_part d') else true

-- What Get finds after a write of `x` under `k`.
abbrev pub reads_after : {A : Type 0} → Cache A → String → A → ℤ → ℕ → String → ℕ → Option A
reads_after c k x d now j later =
    if k == j then (if is_alive c d now later then some x else none) else Cache.get j later c

module _ {A : Type 0} where
  get-set_item :
      (k j : String) (x : A) (d : ℤ) (now later : ℕ) (c : Cache A)
      → Cache.get j later (Cache.set_item k x d now c) ≡ reads_after c k x d now j later
  unfolding Cache.get Cache.set_item
  get-set_item k j x d now later c = ground (
    arith,
    GoMap.lookup-insert k j (record { object = x; expiration = Cache.deadline d now c }) c.items,
  )

  -- Below the bound `Set` succeeds, and later reads find the new value under its key until its deadline
  -- has passed, and what they found before under every other key. (A duration of 0 is the default one,
  -- and one that is not positive never ends.)
  pub get-set :
      (k : String) (x : A) (d : ℤ) (now : ℕ) (ready : Bool) (c : Cache A)
      → Cache.is_reach_max_items_count c ≡ false
      → (r : Reply A) × (Cache.set k x d now ready c ≡ done r)
        × ((j : String) (later : ℕ) → Cache.get j later r.cache ≡ reads_after c k x d now j later)
  unfolding Cache.set
  get-set k x d now ready c h = (
    record { cache = Cache.set_item k x d now c; signalled = false; error = none },
    ground arith,
    λ j later. get-set_item k j x d now later c,
  )

  -- At the bound `Set` and `Add` store nothing, not even over an existing key, if the cache has a
  -- janitor. `Set` says nothing of it, and `Add` returns the error.
  pub set_full :
      (k : String) (x : A) (d : ℤ) (now : ℕ) (ready : Bool) (c : Cache A)
      → Cache.is_reach_max_items_count c ≡ true
      → is_some c.janitor ≡ true
      → (sent : Bool) × (Cache.set k x d now ready c
          ≡ done (record { cache = c; signalled = sent; error = none }))
        × (Cache.add k x d now ready c
            ≡ done (record { cache = c; signalled = sent; error = some max_items_count_err }))
  unfolding Cache.set Cache.add
  set_full k x d now ready c full h = elim (Option-cases c.janitor) [
    | inl e ↦ absurd (ground arith)
    | inr (j, e) ↦ (j.shoud_clean && ready, ground arith, ground arith)
  ]

  -- `Set` and `Add` panic exactly when the cache is at its bound and has no janitor.
  pub set_panic_iff :
      (k : String) (x : A) (d : ℤ) (now : ℕ) (ready : Bool) (c : Cache A)
      → ((Cache.set k x d now ready c ≡ panic)
          ↔ ((Cache.is_reach_max_items_count c ≡ true) × (c.janitor ≡ none)))
        × ((Cache.add k x d now ready c ≡ panic)
            ↔ ((Cache.is_reach_max_items_count c ≡ true) × (c.janitor ≡ none)))
  unfolding Cache.set Cache.add
  set_panic_iff k x d now ready c = ground arith

  -- Below the bound `Add` stores the value if a read finds nothing under the key, and otherwise leaves
  -- the cache as it is and returns the error; `Replace` does it the other way round.
  pub add-replace :
      (k : String) (x : A) (d : ℤ) (now : ℕ) (ready : Bool) (c : Cache A)
      → Cache.is_reach_max_items_count c ≡ false
      → (Cache.add k x d now ready c
          ≡ done (
              if is_some (Cache.get k now c)
              then record { cache = c; signalled = false; error = some (already_exists k) }
              else record { cache = Cache.set_item k x d now c; signalled = false; error = none }))
        × (Cache.replace k x d now c ≡ (
            if is_some (Cache.get k now c)
            then record { cache = Cache.set_item k x d now c; signalled = false; error = none }
            else record { cache = c; signalled = false; error = some (doesnt_exist k) }))
  unfolding Cache.add Cache.replace Cache.get
  add-replace k x d now ready c h = ground arith

  -- `GetWithExpiration` finds the value that `Get` finds, with the deadline if there is one.
  pub get_with_expiration_lem :
      (k : String) (now : ℕ) (c : Cache A)
      → Option.map (λ p. p.0) (Cache.get_with_expiration k now c) ≡ Cache.get k now c
  unfolding Cache.get_with_expiration Cache.get
  get_with_expiration_lem k now c = ground arith

  -- After `Delete` a read finds nothing under the key and the same as before under the others, and
  -- `onEvicted` is called once, with the stored value, if it is set and the key was there.
  pub get-delete :
      (k : String) (c : Cache A)
      → ((j : String) (now : ℕ)
          → Cache.get j now (Cache.delete k c).0 ≡ (if k == j then none else Cache.get j now c))
        × ((Cache.delete k c).1 ≡ (
            if c.on_evicted
            then (elim (GoMap.lookup k c.items) [ none ↦ [] | some v ↦ (k, v.object) ∷ [] ])
            else []))
  unfolding Cache.get Cache.delete
  get-delete k c = (λ j now. ground (arith, GoMap.lookup-delete k j c.items), ground arith)
