-- ===== src/MemoryCacher/Sweep.antt =====
-- cache.go: DeleteExpired, Items and the janitor against what a reader sees.
use ipfs_nosql_frame.Prelude.{
  ℕ, ◌≤◌, String, ◌≡◌, refl, Bool, true, false, ◌&&◌, Option, none, some, List, [], ◌∷◌, ◌++◌,
  append_assoc, append-nil, arith, if◌then◌else◌,
}
use mathlib.Core.Option
use text.Mathlib.Text.{◌==◌}
use text.Mathlib.TextEquality.{eq_iff}
use ipfs_nosql_frame.Prelude.GoMap
use ipfs_nosql_frame.Prelude.GoMap.{GoMap}
use ipfs_nosql_frame.MemoryCacher.Cache
use ipfs_nosql_frame.MemoryCacher.Cache.{Cache, Item, JanitorEvent, stop}

module _ {A : Type 0} where
  -- An entry as it stands at `now`: one that has expired counts as absent.
  abbrev pub live : ℕ → Option (Item A) → Option (Item A)
  live now none = none
  live now (some v) = if Cache.lapsed v now then none else some v

  abbrev is_hit : ℕ → Option (Item A) → Bool
  is_hit now none = false
  is_hit now (some v) = Cache.lapsed v now

  -- What the callback is to be told when all lapsed entries of `m` are deleted.
  abbrev pub lapsed_entries : ℕ → GoMap (Item A) → List (String × A)
  lapsed_entries now [] = []
  lapsed_entries now ((k, v) ∷ m) =
      let rest = lapsed_entries now m in if Cache.lapsed v now then (k, v.object) ∷ rest else rest

  lookup-visit :
      (now : ℕ) (k j : String) (v : Item A) (s : Cache A × List (String × A))
      → GoMap.lookup j (Cache.visit now k v s).0.items
        ≡ (if k == j && Cache.lapsed v now then none else GoMap.lookup j s.0.items)
  unfolding Cache.visit
  lookup-visit now k j v (c, e) = ground (arith, GoMap.lookup-delete k j c.items)

  lookup-sweep :
      (now : ℕ) (j : String) (m : GoMap (Item A)) (s : Cache A × List (String × A))
      → GoMap.IsDistinct m
      → GoMap.lookup j (Cache.sweep now m s).0.items
        ≡ (if is_hit now (GoMap.lookup j m) then none else GoMap.lookup j s.0.items)
  unfolding Cache.sweep GoMap.lookup
  lookup-sweep now j [] s h = refl
  lookup-sweep now j ((k, v) ∷ m) s h = ground (
    arith,
    lookup-sweep now j m (Cache.visit now k v s) h.1,
    lookup-visit now k j v s,
    eq_iff k j,
  )

  -- On a cache whose keys are distinct, `DeleteExpired` leaves under every key what stands there and has
  -- not expired.
  pub lookup-delete_expired :
      (now : ℕ) (j : String) (c : Cache A)
      → GoMap.IsDistinct c.items
      → GoMap.lookup j (Cache.delete_expired now c).0.items ≡ live now (GoMap.lookup j c.items)
  unfolding Cache.delete_expired
  lookup-delete_expired now j c h = ground (arith, lookup-sweep now j c.items (c, []) h)

  lapsed_mono :
      (v : Item A) (now later : ℕ)
      → now ≤ later
      → Cache.lapsed v now ≡ true
      → Cache.lapsed v later ≡ true
  unfolding Cache.lapsed
  lapsed_mono v now later le h = ground arith

  get-live :
      (j : String) (later : ℕ) (c : Cache A)
      → Cache.get j later c ≡ Option.map (λ v. v.object) (live later (GoMap.lookup j c.items))
  unfolding Cache.get
  get-live j later c = ground arith

  live-live :
      (now later : ℕ) (o : Option (Item A)) → now ≤ later → live later (live now o) ≡ live later o
  live-live now later none h = refl
  live-live now later (some v) h = ground (arith, lapsed_mono v now later h)

  -- On a cache whose keys are distinct, no read after `DeleteExpired`, at the same time or later, tells
  -- that it has run.
  pub get-delete_expired :
      (now later : ℕ) (j : String) (c : Cache A)
      → GoMap.IsDistinct c.items
      → now ≤ later
      → Cache.get j later (Cache.delete_expired now c).0 ≡ Cache.get j later c
  get-delete_expired now later j c d h =
      rw (get-live, get-live, lookup-delete_expired now j c d, live-live now later _ h)

  lookup-unexpired :
      (now : ℕ) (j : String) (m : GoMap (Item A))
      → GoMap.IsDistinct m
      → GoMap.lookup j (Cache.unexpired now m) ≡ live now (GoMap.lookup j m)
  unfolding Cache.unexpired GoMap.lookup
  lookup-unexpired now j [] h = refl
  lookup-unexpired now j ((k, v) ∷ m) h = ground (arith, lookup-unexpired now j m h.1, eq_iff k j)

  -- On a cache whose keys are distinct, `Items` holds an entry exactly where `Get` finds a value, and with
  -- that value.
  pub get-items_at :
      (now : ℕ) (j : String) (c : Cache A)
      → GoMap.IsDistinct c.items
      → Option.map (λ v. v.object) (GoMap.lookup j (Cache.items_at now c)) ≡ Cache.get j now c
  unfolding Cache.items_at
  get-items_at now j c h = rw (lookup-unexpired now j c.items h, get-live)

  -- Every entry of `m` still stands in the cache.
  abbrev Agrees : GoMap (Item A) → Cache A → Type 0
  Agrees [] c = Unit
  Agrees ((k, v) ∷ m) c = (GoMap.lookup k c.items ≡ some v) × Agrees m c

  visit-Agrees :
      (now : ℕ) (k : String) (v : Item A) (m : GoMap (Item A)) (s : Cache A × List (String × A))
      → GoMap.lookup k m ≡ none
      → Agrees m s.0
      → Agrees m (Cache.visit now k v s).0
  unfolding GoMap.lookup
  visit-Agrees now k v [] s h a = tt
  visit-Agrees now k v ((i, w) ∷ m) s h a =
      unfold GoMap.lookup in
      (
        ground (arith, lookup-visit now k i v s, eq_iff k i, eq_iff i k),
        visit-Agrees now k v m s (ground (arith)) a.1,
      )

  visit_calls :
      (now : ℕ) (k : String) (v : Item A) (s : Cache A × List (String × A))
      → GoMap.lookup k s.0.items ≡ some v
      → ((Cache.visit now k v s).1
          ≡ s.1 ++ (if s.0.on_evicted && Cache.lapsed v now then (k, v.object) ∷ [] else []))
        × ((Cache.visit now k v s).0.on_evicted ≡ s.0.on_evicted)
  unfolding Cache.visit
  visit_calls now k v (c, e) h = ground (arith, append-nil e)

  sweep_calls :
      (now : ℕ) (m : GoMap (Item A)) (s : Cache A × List (String × A))
      → GoMap.IsDistinct m
      → Agrees m s.0
      → (Cache.sweep now m s).1 ≡ s.1 ++ (if s.0.on_evicted then lapsed_entries now m else [])
  unfolding Cache.sweep
  sweep_calls now [] s d a = ground (arith, append-nil s.1)
  sweep_calls now ((k, v) ∷ m) s d a = ground (
    arith,
    sweep_calls now m (Cache.visit now k v s) d.1 (visit-Agrees now k v m s d.0 a.1),
    visit_calls now k v s a.0,
    append_assoc s.1 ((k, v.object) ∷ []) (lapsed_entries now m),
    append-nil s.1,
  )

  Agrees-cons :
      (k : String) (v : Item A) (m n : GoMap (Item A)) (c : Cache A)
      → GoMap.lookup k m ≡ none
      → Agrees m (record c { items = n })
      → Agrees m (record c { items = (k, v) ∷ n })
  unfolding GoMap.lookup
  Agrees-cons k v [] n c h a = tt
  Agrees-cons k v ((i, w) ∷ m) n c h a =
      unfold GoMap.lookup in
      (ground (arith, eq_iff k i, eq_iff i k), Agrees-cons k v m n c (ground arith) a.1)

  Agrees-self :
      (m : GoMap (Item A)) (c : Cache A) → GoMap.IsDistinct m → Agrees m (record c { items = m })
  unfolding GoMap.lookup
  Agrees-self [] c d = tt
  Agrees-self ((k, v) ∷ m) c d =
      unfold GoMap.lookup in
      (ground (arith, eq_iff k k), Agrees-cons k v m m c d.0 (Agrees-self m c d.1))

  -- On a cache whose keys are distinct, `DeleteExpired` calls `onEvicted`, if it is set, once for each
  -- entry that has expired, with the key and the value that stood there, and for no other.
  pub delete_expired_calls :
      (now : ℕ) (c : Cache A)
      → GoMap.IsDistinct c.items
      → (Cache.delete_expired now c).1 ≡ (if c.on_evicted then lapsed_entries now c.items else [])
  unfolding Cache.delete_expired
  delete_expired_calls now c d = sweep_calls now c.items (c, []) d (Agrees-self c.items c d)
