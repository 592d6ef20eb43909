-- ===== src/Examples/CacheExamples.antt =====
-- A cache of at most two items with a janitor, and one without.
use ipfs_nosql_frame.Prelude.{
  ℕ, ◌+◌, ◌-◌, codes, ◌≤◌, ℤ, pos, negsuc, String, ◌≡◌, ◌↔◌, refl, arith, Bool, true, false, none,
  some, [], ◌∷◌, if◌then◌else◌, pos_part, is_positive,
}
use text.Mathlib.Text.{◌==◌}
use ipfs_nosql_frame.Prelude.GoMap
use ipfs_nosql_frame.MemoryCacher.Cache
use ipfs_nosql_frame.MemoryCacher.Cache.{Cache, Item, Reply, Outcome, done, panic}
use ipfs_nosql_frame.MemoryCacher.Counters
use ipfs_nosql_frame.MemoryCacher.Counters.{Values, Object, Kind, integer}
use ipfs_nosql_frame.MemoryCacher.Reads
use ipfs_nosql_frame.MemoryCacher.Sharding.{bucket}
use ipfs_nosql_frame.MemoryCacher.Sharded
use ipfs_nosql_frame.MemoryCacher.Sharded.{ShardedCache, ShardedReply}
use ipfs_nosql_frame.MemoryCacher.ShardedReads
use ipfs_nosql_frame.MemoryCacher.Sweep
use ipfs_nosql_frame.MemoryCacher.Capacity
use ipfs_nosql_frame.MemoryCacher.Counting

abbrev values : Values
values = record {
  Float32 = ℕ;
  Float64 = ℕ;
  Other = Bool;
  add32 = λ a b. a;
  sub32 = λ a b. a;
  add64 = λ a b. a;
  sub64 = λ a b. a;
  int64_to_32 = λ a. a;
  int64_to_64 = λ a. a;
  narrow = λ a. a;
  zero32 = 0;
  zero64 = 0;
}

abbrev item_of : ℕ → ℤ → Item (Object values)
item_of n e = record { object = integer Kind.int8 n; expiration = e }

-- "a" never expires and "b" does at 50.
abbrev two_items : Cache (Object values)
two_items = record {
  default_expiration = negsuc 0;
  max_items_count = pos 2;
  items = ("a", item_of 127 (pos 0)) ∷ ("b", item_of 3 (pos 50)) ∷ [];
  on_evicted = true;
  last_clean_time = 0;
  janitor = some (record { interval = pos 10; shoud_clean = true });
}

abbrev one_free : Cache (Object values)
one_free = record two_items { max_items_count = pos 3 }

abbrev no_janitor : Cache (Object values)
no_janitor = record two_items { janitor = none }

two_items_full : Cache.is_reach_max_items_count two_items ≡ true
unfolding Cache.is_reach_max_items_count Cache.item_count
two_items_full = refl

one_free_room : Cache.is_reach_max_items_count one_free ≡ false
unfolding Cache.is_reach_max_items_count Cache.item_count
one_free_room = refl

two_items-IsDistinct : GoMap.IsDistinct two_items.items
unfolding GoMap.lookup
two_items-IsDistinct = (refl, (refl, tt))

-- `Set` of a third value under a new key, and reads before and after its deadline.
get-set_example :
    (r : Reply (Object values)) × (Cache.set "c" (integer Kind.int8 9) (pos 5) 20 true one_free
      ≡ done r)
    × ((j : String) (later : ℕ)
        → Cache.get j later r.cache
          ≡ Reads.reads_after one_free "c" (integer Kind.int8 9) (pos 5) 20 j later)
get-set_example = Reads.get-set "c" (integer Kind.int8 9) (pos 5) 20 true one_free one_free_room

get-delete_expired_example :
    Cache.get "b" 70 (Cache.delete_expired 60 two_items).0 ≡ Cache.get "b" 70 two_items
get-delete_expired_example =
    Sweep.get-delete_expired 60 70 "b" two_items two_items-IsDistinct (omega arith)

abbrev two_shards : ShardedCache (Object values)
two_shards = record { seed = 7; m = 2; cs = one_free ∷ one_free ∷ []; interval = none }

c_in_shard : Sharded.shard_of codes "c" two_shards ≡ some one_free
unfolding Sharded.shard_of Sharded.shard_at bucket
c_in_shard = refl

sharded_reads_example :
    (r : ShardedReply (Object values)) × (Sharded.set codes "c"
        (integer Kind.int8 9)
        (pos 5)
        20
        true
        two_shards
      ≡ done r)
    × ((j : String) (later : ℕ)
        → Sharded.get codes j later r.sharded ≡ (
            if "c" == j
            then done (
                if Reads.is_alive one_free (pos 5) 20 later
                then some (integer Kind.int8 9)
                else none)
            else Sharded.get codes j later two_shards))
sharded_reads_example =
    ShardedReads.sharded_reads codes "c" (integer Kind.int8 9) (pos 5) 20 true two_shards one_free
      c_in_shard one_free_room

b_found : GoMap.lookup "b" two_items.items ≡ some (item_of 3 (pos 50))
unfolding GoMap.lookup
b_found = refl

b_live : Cache.expired (item_of 3 (pos 50)) 20 ≡ false
unfolding Cache.expired
b_live = refl

decrement-increment_example :
    (Counters.decrement "b" 200 20 (Counters.increment "b" 200 20 two_items).cache
      ≡ record { cache = two_items; value = tt; error = none })
    × (Counters.increment "b" 200 20 (Counters.decrement "b" 200 20 two_items).cache
        ≡ record { cache = two_items; value = tt; error = none })
decrement-increment_example =
    Counting.decrement-increment "b" 200 20 two_items b_found b_live refl (omega arith)

-- An item that was handed to NewFrom with a negative deadline.
abbrev negative_item : Item (Object values)
negative_item = item_of 5 (negsuc 6)

abbrev negative : Cache (Object values)
negative = record one_free { items = ("n", negative_item) ∷ [] }

negative_found : GoMap.lookup "n" negative.items ≡ some negative_item
unfolding GoMap.lookup
negative_found = refl

-- A cache of one item without a janitor, on which one `Set` has been made.
abbrev fresh : Cache (Object values)
fresh = Cache.new (pos 0) (pos 0) (pos 1) 100

abbrev one_set : Cache (Object values)
one_set = Cache.set_item "a" (integer Kind.int8 9) (pos 5) 101 fresh

set_once :
    Cache.set "a" (integer Kind.int8 9) (pos 5) 101 true fresh
    ≡ done (record { cache = one_set; signalled = false; error = none })
unfolding Cache.set Cache.is_reach_max_items_count Cache.item_count Cache.new
    Cache.new_cache_with_janitor Cache.new_cache
set_once = refl

fresh_room : Cache.is_reach_max_items_count fresh ≡ false
unfolding Cache.is_reach_max_items_count Cache.item_count Cache.new Cache.new_cache_with_janitor
    Cache.new_cache
fresh_room = refl

-- Two calls of Set whose tests come before both writes.
abbrev set_of : String → Capacity.Waiting (Object values)
set_of k = record { is_add = false; key = k; object = integer Kind.int8 9; duration = pos 5 }

abbrev raced : Capacity.St values
raced = record {
  cache = Capacity.write (set_of "b") 102 (Capacity.write (set_of "a") 101 fresh);
  waiting = [];
  loaded = 0;
}

raced-Reach : Capacity.Reach 2 (Capacity.begin fresh) raced
raced-Reach =
    Capacity.next
      (Capacity.next
        (Capacity.next
          (Capacity.next Capacity.here (Capacity.test (set_of "a") fresh_room (omega arith)))
          (Capacity.test (set_of "b") fresh_room (omega arith)))
        (Capacity.write_one [] (set_of "b" ∷ []) (set_of "a") 101 refl))
      (Capacity.write_one [] [] (set_of "b") 102 refl)

Reach-bounded_example :
    GoMap.IsDistinct raced.cache.items
    × (Cache.item_count raced.cache ≤ pos_part (pos 1) + (2 - 1) + 0)
Reach-bounded_example = Capacity.Reach-bounded (pos 0) (pos 0) (pos 1) 100 2 raced-Reach

one_set-Reach :
    Capacity.Reach 1 (Capacity.begin fresh) (record { cache = one_set; waiting = []; loaded = 0 })
one_set-Reach = Capacity.next Capacity.here (
    Capacity.set "a" (integer Kind.int8 9) (pos 5) 101 true
      {r = record { cache = one_set; signalled = false; error = none }} set_once (omega arith))

Reach-panic_iff_example :
    ((Cache.set "b" (integer Kind.int8 9) (pos 5) 102 true one_set ≡ panic)
      ↔ ((is_positive (pos 0) ≡ false) × (Cache.is_reach_max_items_count one_set ≡ true)))
    × ((Cache.add "b" (integer Kind.int8 9) (pos 5) 102 true one_set ≡ panic)
        ↔ ((is_positive (pos 0) ≡ false) × (Cache.is_reach_max_items_count one_set ≡ true)))
Reach-panic_iff_example =
    Capacity.Reach-panic_iff (pos 0) (pos 0) (pos 1) 100 1 "b" (integer Kind.int8 9) (pos 5) 102
      true one_set-Reach
