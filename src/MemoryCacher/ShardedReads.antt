-- ===== src/MemoryCacher/ShardedReads.antt =====
-- sharded.go: what a reader sees after Set, and when Set panics.
use ipfs_nosql_frame.Prelude.{
  ℕ, zero, suc, ◌≡◌, ◌≢◌, ◌⊎◌, inl, inr, refl, ap, sym, ◌∙◌, ℤ, String, Bool, false, Option, none,
  some, List, [], ◌∷◌, Bytes, arith, if◌then◌else◌, Bool-cases,
}
use text.Mathlib.Text.{◌==◌}
use text.Mathlib.TextEquality.{eq_iff}
use ipfs_nosql_frame.MemoryCacher.Cache
use ipfs_nosql_frame.MemoryCacher.Cache.{Cache, Reply, Outcome, done, panic}
use ipfs_nosql_frame.MemoryCacher.Reads.{reads_after, is_alive, get-set}
use ipfs_nosql_frame.MemoryCacher.Sharded
use ipfs_nosql_frame.MemoryCacher.Sharded.{
  ShardedCache, ShardedReply, shard_at, put_at, shard_of, index_of,
}

index_cases : (i j : ℕ) → (i ≡ j) ⊎ (i ≢ j)
index_cases i j = ground arith

module _ {A : Type 0} where
  shard_at-put_at :
      (i : ℕ) (c old : Cache A) (cs : List (Cache A))
      → shard_at i cs ≡ some old
      → shard_at i (put_at i c cs) ≡ some c
  unfolding shard_at put_at
  shard_at-put_at i c old [] h = cc
  shard_at-put_at zero c old (c0 ∷ cs) h = refl
  shard_at-put_at (suc i) c old (c0 ∷ cs) h = shard_at-put_at i c old cs h

  shard_at-put_at_other :
      (i j : ℕ) (c : Cache A) (cs : List (Cache A))
      → i ≢ j
      → shard_at j (put_at i c cs) ≡ shard_at j cs
  unfolding shard_at put_at
  shard_at-put_at_other i j c [] h = refl
  shard_at-put_at_other zero zero c (c0 ∷ cs) h = ground arith
  shard_at-put_at_other zero (suc j) c (c0 ∷ cs) h = refl
  shard_at-put_at_other (suc i) zero c (c0 ∷ cs) h = refl
  shard_at-put_at_other (suc i) (suc j) c (c0 ∷ cs) h =
      shard_at-put_at_other i j c cs (λ e. h (ap suc e))

  move_done :
      (b : Bool) (a a' : Option A) → done (if b then a else a') ≡ (if b then done a else done a')
  move_done b a a' = ground arith

  module _ (bytes : String → Bytes) where
    get_here :
        (j : String) (now : ℕ) (s : ShardedCache A) (c : Cache A)
        → shard_of bytes j s ≡ some c
        → Sharded.get bytes j now s ≡ done (Cache.get j now c)
    unfolding Sharded.get Cache.get
    get_here j now s c h = rw (h, Sharded.get) refl

    get_there :
        (j : String) (now : ℕ) (s s' : ShardedCache A)
        → shard_of bytes j s' ≡ shard_of bytes j s
        → Sharded.get bytes j now s' ≡ Sharded.get bytes j now s
    unfolding Sharded.get
    get_there j now s s' h = rw (h, Sharded.get) refl

    abbrev after_write : String → ShardedCache A → Cache A → ShardedCache A
    after_write k s c = record s { cs = put_at (index_of bytes k s) c s.cs }

    shard_of-after_write :
        (k j : String) (s : ShardedCache A) (old c : Cache A)
        → shard_of bytes k s ≡ some old
        → index_of bytes k s ≡ index_of bytes j s
        → (shard_of bytes j (after_write k s c) ≡ some c) × (shard_of bytes j s ≡ some old)
    unfolding shard_of
    shard_of-after_write k j s old c found same = (
      ap (λ i. shard_at i (put_at (index_of bytes k s) c s.cs)) (sym same)
          ∙ shard_at-put_at (index_of bytes k s) c old s.cs found,
      ap (λ i. shard_at i s.cs) (sym same) ∙ found,
    )

    -- What a read of the whole cache finds after the write.
    abbrev found_after :
        String → A → ℤ → ℕ → ShardedCache A → Cache A → String → ℕ → Outcome (Option A)
    found_after k x d now s c j later =
        if k == j
        then done (if is_alive c d now later then some x else none)
        else Sharded.get bytes j later s

    reads_same :
        (k : String) (x : A) (d : ℤ) (now : ℕ) (s : ShardedCache A) (c c' : Cache A)
        → shard_of bytes k s ≡ some c
        → (j : String) (later : ℕ) → index_of bytes k s ≡ index_of bytes j s
        → Cache.get j later c' ≡ reads_after c k x d now j later
        → Sharded.get bytes j later (after_write k s c') ≡ found_after k x d now s c j later
    reads_same k x d now s c c' found j later same reads =
        let (new, old) = shard_of-after_write k j s c c' found same in
        get_here j later (after_write k s c') c' new
        ∙ ap done reads
        ∙ move_done (k == j) (if is_alive c d now later then some x else none) (Cache.get j later c)
        ∙ ap (λ o. if k == j then done (if is_alive c d now later then some x else none) else o)
            (sym (get_here j later s c old))

    other_key :
        (k j : String) (s : ShardedCache A)
        → index_of bytes k s ≢ index_of bytes j s
        → (k == j) ≡ false
    other_key k j s apart = elim (Bool-cases (k == j)) [
      | inl same ↦ elim (apart (ap (λ i. index_of bytes i s) ((eq_iff k j).0 same))) [ ]
      | inr other ↦ other
    ]

    reads_apart :
        (k : String) (x : A) (d : ℤ) (now : ℕ) (s : ShardedCache A) (c c' : Cache A) (j : String)
        (later : ℕ)
        → index_of bytes k s ≢ index_of bytes j s
        → Sharded.get bytes j later (after_write k s c') ≡ found_after k x d now s c j later
    unfolding shard_of
    reads_apart k x d now s c c' j later apart = rw (other_key k j s apart) (
        get_there j later s (after_write k s c')
          (shard_at-put_at_other (index_of bytes k s) (index_of bytes j s) c' s.cs apart))

    set_settles :
        (k : String) (x : A) (d : ℤ) (now : ℕ) (ready : Bool) (s : ShardedCache A) (c : Cache A)
        (r : Reply A)
        → shard_of bytes k s ≡ some c
        → Cache.set k x d now ready c ≡ done r
        → Sharded.set bytes k x d now ready s
          ≡ done (record {
            sharded = after_write k s r.cache;
            signalled = r.signalled;
            error = r.error;
          })
    unfolding Sharded.set
    set_settles k x d now ready s c r found runs = rw (found, Sharded.set, runs) refl

    -- Set on a cache whose shard for the key is below its bound succeeds, and later reads find the new
    -- value under its key until its deadline has passed, and what they found before under every other
    -- key, in the same shard or in another.
    pub sharded_reads :
        (k : String) (x : A) (d : ℤ) (now : ℕ) (ready : Bool) (s : ShardedCache A) (c : Cache A)
        → shard_of bytes k s ≡ some c
        → Cache.is_reach_max_items_count c ≡ false
        → (r : ShardedReply A) × (Sharded.set bytes k x d now ready s ≡ done r)
          × ((j : String) (later : ℕ)
              → Sharded.get bytes j later r.sharded ≡ (
                  if k == j
                  then done (if is_alive c d now later then some x else none)
                  else Sharded.get bytes j later s))
    sharded_reads k x d now ready s c found room =
        let (r0, runs, reads) = get-set k x d now ready c room in
        (
          record { sharded = after_write k s r0.cache; signalled = r0.signalled; error = r0.error },
          set_settles k x d now ready s c r0 found runs,
          λ j later. elim (index_cases (index_of bytes k s) (index_of bytes j s)) [
            | inl same ↦ reads_same k x d now s c r0.cache found j later same (reads j later)
            | inr apart ↦ reads_apart k x d now s c r0.cache j later apart
          ],
        )
