-- ===== src/MemoryCacher/Sharded.antt =====
-- sharded.go: a cache of many shards, each a cache of cache.go. The pointers in `cs` are distinct, so that a
-- call on one shard changes that one only. `bytes` gives the bytes of a key, and `now` is the clock, read
-- once for all shards.
use ipfs_nosql_frame.Prelude.{
  ℕ, zero, suc, ◌%◌, ◌^◌, ℤ, negsuc, is_zero, is_positive, String, Bool, false, Option, none, some,
  List, [], ◌∷◌, ◌++◌, Bytes, if◌then◌else◌,
}
use ipfs_nosql_frame.Prelude.GoMap.{GoMap}
use ipfs_nosql_frame.MemoryCacher.Cache
use ipfs_nosql_frame.MemoryCacher.Cache.{
  Cache, Item, Reply, Outcome, done, panic, CacheError, JanitorEvent, tick, shoud_clean_signal,
  stop,
}
use ipfs_nosql_frame.MemoryCacher.Counters
use ipfs_nosql_frame.MemoryCacher.Counters.{Values, Object, Update}
use ipfs_nosql_frame.MemoryCacher.Sharding.{bucket}

-- shardedCache, without its lastCleanTime, which nothing reads. The janitor is its interval.
pub record ShardedCache (A : Type 0) : Type 0 where
  pub seed : ℕ
  pub m : ℕ
  pub cs : List (Cache A)
  pub interval : Option ℤ

-- What a call leaves behind.
pub record ShardedReply (A : Type 0) : Type 0 where
  pub sharded : ShardedCache A
  pub signalled : Bool
  pub error : Option CacheError

module _ {A : Type 0} where
  unfoldable pub shard_at : ℕ → List (Cache A) → Option (Cache A)
  shard_at i [] = none
  shard_at zero (c ∷ cs) = some c
  shard_at (suc i) (c ∷ cs) = shard_at i cs

  unfoldable pub put_at : ℕ → Cache A → List (Cache A) → List (Cache A)
  put_at i c [] = []
  put_at zero c (old ∷ cs) = c ∷ cs
  put_at (suc i) c (old ∷ cs) = old ∷ put_at i c cs

  unfoldable pub delete_all : ℕ → List (Cache A) → List (Cache A) × List (String × A)
  delete_all now [] = ([], [])
  delete_all now (c ∷ cs) =
      let (c', calls) = Cache.delete_expired now c in
      let (cs', more) = delete_all now cs in (c' ∷ cs', calls ++ more)

  unfoldable pub delete_expired : ℕ → ShardedCache A → ShardedCache A × List (String × A)
  delete_expired now s = let (cs', calls) = delete_all now s.cs in (record s { cs = cs' }, calls)

  abbrev all_items : ℕ → List (Cache A) → List (GoMap (Item A))
  all_items now [] = []
  all_items now (c ∷ cs) = Cache.items_at now c ∷ all_items now cs

  unfoldable pub items_at : ℕ → ShardedCache A → List (GoMap (Item A))
  items_at now s = all_items now s.cs

  abbrev flush_all : List (Cache A) → List (Cache A)
  flush_all [] = []
  flush_all (c ∷ cs) = Cache.flush c ∷ flush_all cs

  unfoldable pub flush : ShardedCache A → ShardedCache A
  flush s = record s { cs = flush_all s.cs }

  -- The loop of newShardedCache.
  unfoldable pub empty_shards : ℕ → ℤ → ℤ → ℕ → List (Cache A)
  empty_shards zero de max_items now = []
  empty_shards (suc n) de max_items now =
      record {
        default_expiration = de;
        max_items_count = max_items;
        items = [];
        on_evicted = false;
        last_clean_time = now;
        janitor = none;
      }
      ∷ empty_shards n de max_items now

  -- newShardedCache of a number of shards that is not negative, with the random seed.
  unfoldable pub new_sharded_cache : ℕ → ℕ → ℤ → ℤ → ℕ → ShardedCache A
  new_sharded_cache seed n de max_items now = record {
    seed = seed % 2 ^ 32;
    m = n % 2 ^ 32;
    cs = empty_shards n de max_items now;
    interval = none;
  }

  unfoldable pub unexported_new_sharded : ℕ → ℤ → ℤ → ℕ → ℤ → ℕ → ShardedCache A
  unexported_new_sharded seed de ci shards max_items now =
      let s = new_sharded_cache seed shards (if is_zero de then negsuc 0 else de) max_items now in
      if is_positive ci then record s { interval = some ci } else s

  -- One round of the `select` of shardedJanitor.Run; `none` means that the loop has returned.
  unfoldable pub janitor_round :
      JanitorEvent → ℕ → ShardedCache A → Option (ShardedCache A × List (String × A))
  unfolding delete_expired
  janitor_round tick now s = some (delete_expired now s)
  janitor_round shoud_clean_signal now s = some (delete_expired now s)
  janitor_round stop now s = none

  module _ (bytes : String → Bytes) where
    abbrev pub index_of : String → ShardedCache A → ℕ
    index_of k s = bucket s.seed s.m (bytes k)

    -- bucket; `none` is the panic of a cache without shards
    unfoldable pub shard_of : String → ShardedCache A → Option (Cache A)
    shard_of k s = shard_at (index_of k s) s.cs

    abbrev pub with_shard : String → Cache A → ShardedCache A → ShardedCache A
    with_shard k c s = record s { cs = put_at (index_of k s) c s.cs }

    abbrev settle : String → ShardedCache A → Outcome (Reply A) → Outcome (ShardedReply A)
    settle k s panic = panic
    settle k s (done r) =
        done (record { sharded = with_shard k r.cache s; signalled = r.signalled; error = r.error })

    unfoldable pub set : String → A → ℤ → ℕ → Bool → ShardedCache A → Outcome (ShardedReply A)
    set k x d now ready s = elim (shard_of k s) [
      | none ↦ panic
      | some c ↦ settle k s (Cache.set k x d now ready c)
    ]

    unfoldable pub add : String → A → ℤ → ℕ → Bool → ShardedCache A → Outcome (ShardedReply A)
    add k x d now ready s = elim (shard_of k s) [
      | none ↦ panic
      | some c ↦ settle k s (Cache.add k x d now ready c)
    ]

    unfoldable pub replace : String → A → ℤ → ℕ → ShardedCache A → Outcome (ShardedReply A)
    replace k x d now s = elim (shard_of k s) [
      | none ↦ panic
      | some c ↦ settle k s (done (Cache.replace k x d now c))
    ]

    unfoldable pub get : String → ℕ → ShardedCache A → Outcome (Option A)
    get k now s = elim (shard_of k s) [ none ↦ panic | some c ↦ done (Cache.get k now c) ]

    unfoldable pub delete : String → ShardedCache A → Outcome (ShardedCache A × List (String × A))
    delete k s = elim (shard_of k s) [
      | none ↦ panic
      | some c ↦ (let (c', calls) = Cache.delete k c in done (with_shard k c' s, calls))
    ]

-- The methods that forward to a numeric method of the shard of the key.
module _ {W : Values} (bytes : String → Bytes) where
  -- The error is none or that of the shard.
  abbrev on_shard :
      (Cache (Object W) → Update W (Unit {0}))
      → String
      → ShardedCache (Object W)
      → Outcome (ShardedReply (Object W))
  on_shard f k s = elim (shard_of bytes k s) [
    | none ↦ panic
    | some c ↦
        let u = f c in
        done (record { sharded = with_shard bytes k u.cache s; signalled = false; error = u.error })
  ]

  unfoldable pub increment :
      String → ℕ → ℕ → ShardedCache (Object W) → Outcome (ShardedReply (Object W))
  increment k n now s = on_shard (Counters.increment k n now) k s

  unfoldable pub increment_float :
      String → W.Float64 → ℕ → ShardedCache (Object W) → Outcome (ShardedReply (Object W))
  increment_float k n now s = on_shard (Counters.increment_float k n now) k s

  unfoldable pub decrement :
      String → ℕ → ℕ → ShardedCache (Object W) → Outcome (ShardedReply (Object W))
  decrement k n now s = on_shard (Counters.decrement k n now) k s
