-- ===== src/MemoryCacher/Counting.antt =====
-- cache.go: what Increment, Decrement and their typed versions compute.
use ipfs_nosql_frame.Prelude.{
  ℕ, ◌+◌, ◌-◌, ◌%◌, ◌<◌, String, ◌≡◌, ap, ◌∙◌, negsuc, [], ◌∷◌, false, Option, none, some, arith,
  inl, inr, ◌⊎◌, Bool-cases, Option-cases, if◌then◌else◌,
}
use text.Mathlib.TextPositions.{eq_refl}
use ipfs_nosql_frame.Prelude.GoMap
use ipfs_nosql_frame.MemoryCacher.Cache
use ipfs_nosql_frame.MemoryCacher.Cache.{Cache, Item, CacheError, not_found, wrong_type}
use ipfs_nosql_frame.MemoryCacher.Counters
use ipfs_nosql_frame.MemoryCacher.Counters.{
  Values, Object, Update, Kind, integer, modulus, plus, minus,
}

-- The sum that wraps around is undone by the difference, in every integer type.
minus-plus : (k : Kind) (a n : ℕ) → a < modulus k → n < modulus k → minus k (plus k a n) n ≡ a
unfolding minus plus
minus-plus Kind.int a n p q = omega arith
minus-plus _ a n p q = omega arith

plus-minus : (k : Kind) (a n : ℕ) → a < modulus k → n < modulus k → plus k (minus k a n) n ≡ a
unfolding minus plus
plus-minus Kind.int a n p q = omega arith
plus-minus _ a n p q = omega arith

convert-lt : (k : Kind) (n : ℕ) → Counters.convert k n < modulus k
unfolding Counters.convert
convert-lt Kind.int n = omega arith
convert-lt _ n = omega arith

module _ {W : Values} where
  -- An update of a live item of a fitting type stores the new object with the old deadline.
  update_live :
      {R : Type 0} (e : R) (f : Object W → Option (Object W × R)) (k : String) (now : ℕ)
      (c : Cache (Object W)) {v : Item (Object W)} {o : Object W} {r : R}
      → GoMap.lookup k c.items ≡ some v
      → Cache.expired v now ≡ false
      → f v.object ≡ some (o, r)
      → Counters.update e f k now c ≡ record {
        cache = record c { items = GoMap.insert k (record v { object = o }) c.items };
        value = r;
        error = none;
      }
  unfolding Counters.update
  update_live e f k now c found live good = rw (found, Counters.update, live, good)

  lookup_stored :
      (k : String) (w : Item (Object W)) (c : Cache (Object W))
      → GoMap.lookup k (GoMap.insert k w c.items) ≡ some w
  lookup_stored k w c = simp (GoMap.lookup-insert, eq_refl)

  -- A second update that undoes what the first has done to the object gives the cache back.
  update_back :
      {R S : Type 0} (e : R) (f : Object W → Option (Object W × R)) (d : S)
      (g : Object W → Option (Object W × S)) (k : String) (now : ℕ) (c : Cache (Object W))
      {v : Item (Object W)} (o : Object W) {r : R} {s : S}
      → GoMap.lookup k c.items ≡ some v
      → Cache.expired v now ≡ false
      → f v.object ≡ some (o, r)
      → g o ≡ some (v.object, s)
      → Counters.update d g k now (Counters.update e f k now c).cache
        ≡ record { cache = c; value = s; error = none }
  update_back e f d g k now c {v} o {r} {s} found live there back =
      rw (update_live e f k now c found live there) (
        rw
          (update_live d g k now
            (record c { items = GoMap.insert k (record v { object = o }) c.items })
            (lookup_stored k (record v { object = o }) c) (unfold Cache.expired in live) back)
          (rw (
            GoMap.insert-insert_self k v (record v { object = o }) c.items,
            GoMap.insert-lookup_self k v c.items found,
          )))

  -- On a cache where an integer of any type stands under the key and has not expired, `Decrement` by
  -- `n` after `Increment` by `n`, and the other way round, gives the cache back, whatever wraps around.
  pub decrement-increment :
      (k : String) (n now : ℕ) (c : Cache (Object W)) {t : Kind} {a : ℕ} {v : Item (Object W)}
      → GoMap.lookup k c.items ≡ some v
      → Cache.expired v now ≡ false
      → v.object ≡ integer t a
      → a < modulus t
      → (Counters.decrement k n now (Counters.increment k n now c).cache
          ≡ record { cache = c; value = tt; error = none })
        × (Counters.increment k n now (Counters.decrement k n now c).cache
            ≡ record { cache = c; value = tt; error = none })
  unfolding Counters.decrement Counters.increment
  decrement-increment k n now c {t} {a} {v} found live is_int small = (
    update_back tt (Counters.add_int64 n) tt (Counters.sub_int64 n) k now c
        (integer t (plus t a (Counters.convert t n))) found live (rw is_int)
        (rw (is_int, minus-plus t a (Counters.convert t n) small (convert-lt t n))),
    update_back tt (Counters.sub_int64 n) tt (Counters.add_int64 n) k now c
        (integer t (minus t a (Counters.convert t n))) found live (rw is_int)
        (rw (is_int, plus-minus t a (Counters.convert t n) small (convert-lt t n))),
  )

  expired-lapsed :
      (v : Item (Object W)) (now : ℕ) → Cache.expired v now ≡ false → Cache.lapsed v now ≡ false
  unfolding Cache.expired Cache.lapsed
  expired-lapsed v now h = ground arith

  get_stored :
      (k : String) (v : Item (Object W)) (o : Object W) (now : ℕ) (c : Cache (Object W))
      → Cache.expired v now ≡ false
      → Cache.get k now (record c { items = GoMap.insert k (record v { object = o }) c.items })
        ≡ some o
  unfolding Cache.get
  get_stored k v o now c live =
      ground (arith, lookup_stored k (record v { object = o }) c, expired-lapsed v now live)

  get_live :
      (k : String) (now : ℕ) (c : Cache (Object W)) {v : Item (Object W)}
      → GoMap.lookup k c.items ≡ some v
      → Cache.expired v now ≡ false
      → Cache.get k now c ≡ some v.object
  unfolding Cache.get
  get_live k now c {v} found live = ground (arith, expired-lapsed v now live)

  -- What an update does on each branch: it fails and changes nothing, or what it computed is read.
  update_cases :
      {R : Type 0} (e : R) (f : Object W → Option (Object W × R)) (k : String) (now : ℕ)
      (c : Cache (Object W))
      → ((er : CacheError) × (Counters.update e f k now c
            ≡ record { cache = c; value = e; error = some er }))
        ⊎ ((v : Item (Object W)) × (o : Object W) × (r : R) × (GoMap.lookup k c.items ≡ some v)
            × (Cache.get k now c ≡ some v.object)
            × (f v.object ≡ some (o, r))
            × (Counters.update e f k now c ≡ record {
              cache = record c { items = GoMap.insert k (record v { object = o }) c.items };
              value = r;
              error = none;
            })
            × (Cache.get k now
                  (record c { items = GoMap.insert k (record v { object = o }) c.items })
                ≡ some o))
  unfolding Counters.update
  update_cases e f k now c = elim (Option-cases (GoMap.lookup k c.items)) [
    | inl absent ↦ inl (not_found k, rw (absent, Counters.update))
    | inr (v, found) ↦ elim (Bool-cases (Cache.expired v now)) [
      | inl gone ↦ inl (not_found k, rw (found, Counters.update, gone))
      | inr live ↦ elim (Option-cases (f v.object)) [
        | inl bad ↦ inl (wrong_type k, rw (found, Counters.update, live, bad))
        | inr ((o, r), good) ↦ inr (
          v,
          o,
          r,
          found,
          get_live k now c found live,
          good,
          update_live e f k now c found live good,
          get_stored k v o now c live,
        )
      ]
    ]
  ]

  add_kind-eq :
      (t : Kind) (n : ℕ) (x : Object W) {o : Object W} {r : ℕ}
      → Counters.add_kind t n x ≡ some (o, r)
      → (a : ℕ) × (x ≡ integer t a) × (o ≡ integer t r) × (r ≡ plus t a n)
  unfolding Counters.add_kind
  add_kind-eq t n (integer j a) e = elim (Counters.Kind-discrete j t) [
    | yes same ↦ (a, ap (λ q. integer q a) same, ground (arith, same), ground (arith, same))
    | no other ↦ absurd (ground arith)
  ]
  add_kind-eq t n _ e = cc

  sub_kind-eq :
      (t : Kind) (n : ℕ) (x : Object W) {o : Object W} {r : ℕ}
      → Counters.sub_kind t n x ≡ some (o, r)
      → (a : ℕ) × (x ≡ integer t a) × (o ≡ integer t r) × (r ≡ minus t a n)
  unfolding Counters.sub_kind
  sub_kind-eq t n (integer j a) e = elim (Counters.Kind-discrete j t) [
    | yes same ↦ (a, ap (λ q. integer q a) same, ground (arith, same), ground (arith, same))
    | no other ↦ absurd (ground arith)
  ]
  sub_kind-eq t n _ e = cc

  -- An operation on the integers of type `t` either returns 0 with an error and leaves the cache as it
  -- is, or the key held a number `a` of that type, and `g a` is returned with no error and then read.
  abbrev pub Counts : Kind → (ℕ → ℕ) → String → ℕ → Cache (Object W) → Update W ℕ → Type 0
  Counts t g k now c u =
      ((er : CacheError) × (u ≡ record { cache = c; value = 0; error = some er }))
      ⊎ ((a : ℕ) × (Cache.get k now c ≡ some (integer t a))
          × (u.value ≡ g a)
          × (u.error ≡ none)
          × (Cache.get k now u.cache ≡ some (integer t (g a))))

  kind-Counts :
      (f : Object W → Option (Object W × ℕ)) (g : ℕ → ℕ) (t : Kind) (k : String) (now : ℕ)
      (c : Cache (Object W))
      → ((x : Object W) (o : Object W) (r : ℕ)
          → f x ≡ some (o, r)
          → (a : ℕ) × (x ≡ integer t a) × (o ≡ integer t r) × (r ≡ g a))
      → Counts t g k now c (Counters.update 0 f k now c)
  kind-Counts f g t k now c typed = elim (update_cases 0 f k now c) [
    | inl failed ↦ inl failed
    | inr (v, o, r, found, before, good, u, reads) ↦
        let (a, was, is_int, sum) = typed v.object o r good in
        inr (
          a,
          before ∙ ap some was,
          ap (λ w. w.value) u ∙ sum,
          ap (λ w. w.error) u,
          rw u (reads ∙ ap some (is_int ∙ ap (integer t) sum)),
        )
  ]

  pub add_kind-Counts :
      (t : Kind) (n : ℕ) (k : String) (now : ℕ) (c : Cache (Object W))
      → Counts t
          (λ a. (a + n) % modulus t)
          k
          now
          c
          (Counters.update 0 (Counters.add_kind t n) k now c)
  unfolding plus
  add_kind-Counts t n k now c =
      kind-Counts (Counters.add_kind t n) (λ a. plus t a n) t k now c
        (λ x o r e. add_kind-eq t n x e)

  pub sub_kind-Counts :
      (t : Kind) (n : ℕ) (k : String) (now : ℕ) (c : Cache (Object W))
      → Counts t
          (λ a. (a + modulus t - n) % modulus t)
          k
          now
          c
          (Counters.update 0 (Counters.sub_kind t n) k now c)
  unfolding minus
  sub_kind-Counts t n k now c =
      kind-Counts (Counters.sub_kind t n) (λ a. minus t a n) t k now c
        (λ x o r e. sub_kind-eq t n x e)

  -- An item with a negative deadline, which `NewFrom` and `Load` can bring in, is read by `Get` at any
  -- time, while `Increment` says that the key is not found, and `Load` takes its place for free.
  pub negative_deadline :
      (k : String) (n now m : ℕ) (w : Item (Object W)) (c : Cache (Object W)) {v : Item (Object W)}
      → GoMap.lookup k c.items ≡ some v
      → v.expiration ≡ negsuc m
      → (Cache.get k now c ≡ some v.object)
        × (Counters.increment k n now c
            ≡ record { cache = c; value = tt; error = some (not_found k) })
        × (Cache.get k now (Cache.load (some ((k, w) ∷ [])) now c).0
            ≡ (if Cache.lapsed w now then none else some w.object))
  unfolding Cache.get Counters.increment Cache.load
  negative_deadline k n now m w c found neg =
      (ground arith, ground arith, ground (arith, lookup_stored k w c))
