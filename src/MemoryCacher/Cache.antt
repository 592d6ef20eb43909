-- ===== src/MemoryCacher/Cache.antt =====
-- cache.go without the numeric operations, which are in Counters.
--
-- The clock (`time.Now().UnixNano()`) is an argument `now` of each operation that reads it; an
-- operation that reads it twice under one lock is given one instant. A deadline is the exact sum
-- `now + d`: dates past the year 2262 are left out. A `nil` janitor is `none`, and dereferencing it
-- is the outcome `panic`. The argument `ready` says whether the janitor goroutine is at its `select`,
-- so that the non-blocking send of `ShoudClean` is taken. `onEvicted` is told as present or absent,
-- and its calls are returned in order.
use ipfs_nosql_frame.Prelude.{
  ℕ, ◌+◌, ℤ, pos, negsuc, is_zero, is_positive, ltb_ℤ, leb_ℤ, pos_part, ltb, String, Bool, true,
  false, not, ◌&&◌, Option, none, some, List, [], ◌∷◌, ◌++◌, length, is_some, if◌then◌else◌,
}
use ipfs_nosql_frame.Prelude.GoMap
use ipfs_nosql_frame.Prelude.GoMap.{GoMap}

pub record Item (A : Type 0) : Type 0 where
  pub object : A
  pub expiration : ℤ

-- `shoud_clean` says that the channel is not nil.
pub record Janitor : Type 0 where
  pub interval : ℤ
  pub shoud_clean : Bool

pub record Cache (A : Type 0) : Type 0 where
  pub default_expiration : ℤ
  pub max_items_count : ℤ
  pub items : GoMap (Item A)
  pub on_evicted : Bool
  pub last_clean_time : ℕ
  pub janitor : Option Janitor

pub data Outcome (A : Type 0) : Type 0 where
  done : A → Outcome A
  panic : Outcome A

infixl 5 ◌>>=◌
abbrev pub ◌>>=◌ : {A B : Type 0} → Outcome A → (A → Outcome B) → Outcome B
done a >>= f = f a
panic >>= f = panic

pub data CacheError : Type 0 where
  max_items_count_err : CacheError
  already_exists doesnt_exist not_found wrong_type : String → CacheError

-- What a mutating call leaves behind: `signalled` says that a clean signal was taken.
pub record Reply (A : Type 0) : Type 0 where
  pub cache : Cache A
  pub signalled : Bool
  pub error : Option CacheError

abbrev pub no_expiration : ℤ
no_expiration = negsuc 0

-- DefaultExpiration
abbrev pub use_default_expiration : ℤ
use_default_expiration = pos 0

module _ {A : Type 0} where
  -- Item.Expired
  unfoldable pub expired : Item A → ℕ → Bool
  expired item now = if is_zero item.expiration then false else ltb_ℤ item.expiration now

  -- The test that Get, get, DeleteExpired and Items have inlined.
  unfoldable pub lapsed : Item A → ℕ → Bool
  lapsed item now = is_positive item.expiration && ltb_ℤ item.expiration now

  unfoldable pub item_count : Cache A → ℕ
  item_count c = length c.items

  unfoldable pub is_reach_max_items_count : Cache A → Bool
  unfolding item_count
  is_reach_max_items_count c = leb_ℤ c.max_items_count (item_count c)

  unfoldable pub shoud_clean : Bool → Cache A → Outcome Bool
  shoud_clean ready c = elim c.janitor [ none ↦ panic | some j ↦ done (j.shoud_clean && ready) ]

  -- The deadline that Set and set compute from a duration.
  unfoldable pub deadline : ℤ → ℕ → Cache A → ℤ
  deadline d now c =
      let d' = if is_zero d then c.default_expiration else d in
      if is_positive d' then pos (now + pos_part d') else pos 0

  -- cache.set
  unfoldable pub set_item : String → A → ℤ → ℕ → Cache A → Cache A
  unfolding deadline
  set_item k x d now c = record c {
    items = GoMap.insert k (record { object = x; expiration = deadline d now c }) c.items;
  }

  -- cache.Set, which has cache.set inlined
  unfoldable pub set : String → A → ℤ → ℕ → Bool → Cache A → Outcome (Reply A)
  unfolding is_reach_max_items_count shoud_clean set_item
  set k x d now ready c =
      if is_reach_max_items_count c
      then (do
        sent ← shoud_clean ready c
        done (record { cache = c; signalled = sent; error = none }))
      else done (record { cache = set_item k x d now c; signalled = false; error = none })

  unfoldable pub set_default : String → A → ℕ → Bool → Cache A → Outcome (Reply A)
  unfolding set
  set_default k x now ready c = set k x use_default_expiration now ready c

  -- cache.get: `none` is `nil, false`
  unfoldable pub get_item : String → ℕ → Cache A → Option A
  unfolding lapsed
  get_item k now c = elim (GoMap.lookup k c.items) [
    | none ↦ none
    | some item ↦ if lapsed item now then none else some item.object
  ]

  -- cache.Get, which has cache.get inlined
  unfoldable pub get : String → ℕ → Cache A → Option A
  unfolding get_item
  get k now c = get_item k now c

  -- The time is `none` for the zero time.Time.
  unfoldable pub get_with_expiration : String → ℕ → Cache A → Option (A × Option ℤ)
  get_with_expiration k now c = elim (GoMap.lookup k c.items) [
    | none ↦ none
    | some item ↦
        if is_positive item.expiration
        then (if ltb_ℤ item.expiration now then none else some (item.object, some item.expiration))
        else some (item.object, none)
  ]

  unfoldable pub add : String → A → ℤ → ℕ → Bool → Cache A → Outcome (Reply A)
  unfolding is_reach_max_items_count shoud_clean set_item get_item
  add k x d now ready c =
      if is_reach_max_items_count c
      then (do
        sent ← shoud_clean ready c
        done (record { cache = c; signalled = sent; error = some max_items_count_err }))
      else if is_some (get_item k now c)
      then done (record { cache = c; signalled = false; error = some (already_exists k) })
      else done (record { cache = set_item k x d now c; signalled = false; error = none })

  unfoldable pub replace : String → A → ℤ → ℕ → Cache A → Reply A
  unfolding set_item get_item
  replace k x d now c =
      if not (is_some (get_item k now c))
      then record { cache = c; signalled = false; error = some (doesnt_exist k) }
      else record { cache = set_item k x d now c; signalled = false; error = none }

  -- cache.delete: the value comes back if `onEvicted` must be told of it
  unfoldable pub delete_item : String → Cache A → Cache A × Option A
  delete_item k c =
      let c' = record c { items = GoMap.delete k c.items } in
      if c.on_evicted
      then elim (GoMap.lookup k c.items) [ none ↦ (c', none) | some v ↦ (c', some v.object) ]
      else (c', none)

  -- cache.Delete, with the calls of `onEvicted`
  unfoldable pub delete : String → Cache A → Cache A × List (String × A)
  unfolding delete_item
  delete k c =
      let (c', evicted) = delete_item k c in (c', elim evicted [ none ↦ [] | some v ↦ (k, v) ∷ [] ])

  -- One round of the loop of DeleteExpired.
  unfoldable pub visit :
      ℕ → String → Item A → Cache A × List (String × A) → Cache A × List (String × A)
  unfolding delete lapsed
  visit now k v (c, evicted) =
      if lapsed v now
      then (let (c', calls) = delete k c in (c', evicted ++ calls))
      else (c, evicted)

  unfoldable pub sweep :
      ℕ → GoMap (Item A) → Cache A × List (String × A) → Cache A × List (String × A)
  unfolding visit
  sweep now [] s = s
  sweep now ((k, v) ∷ rest) s = sweep now rest (visit now k v s)

  -- The range is over the items as they stand at the start, and the body deletes only the visited key.
  unfoldable pub delete_expired : ℕ → Cache A → Cache A × List (String × A)
  unfolding sweep
  delete_expired now c =
      let (c', evicted) = sweep now c.items (c, []) in
      (record c' { last_clean_time = now }, evicted)

  unfoldable pub set_on_evicted : Bool → Cache A → Cache A
  set_on_evicted f c = record c { on_evicted = f }

  -- `!found || ov.Expired()`
  unfoldable pub is_vacant : String → ℕ → Cache A → Bool
  unfolding expired
  is_vacant k now c = elim (GoMap.lookup k c.items) [ none ↦ true | some ov ↦ expired ov now ]

  -- The loop of Load over the decoded items.
  unfoldable pub load_items : ℕ → GoMap (Item A) → Cache A → Cache A
  unfolding is_vacant
  load_items now [] c = c
  load_items now ((k, v) ∷ rest) c =
      load_items now rest
        (if is_vacant k now c then record c { items = GoMap.insert k v c.items } else c)

  -- The Gob decoder is not modelled: `decoded` is what it returned, `none` for an error.
  unfoldable pub load : Option (GoMap (Item A)) → ℕ → Cache A → Cache A × Bool
  unfolding load_items
  load none now c = (c, false)
  load (some decoded) now c = (load_items now decoded c, true)

  unfoldable pub unexpired : ℕ → GoMap (Item A) → GoMap (Item A)
  unfolding lapsed
  unexpired now [] = []
  unexpired now ((k, v) ∷ rest) =
      let m = unexpired now rest in if lapsed v now then m else (k, v) ∷ m

  -- cache.Items: a copy of the entries that have not expired
  unfoldable pub items_at : ℕ → Cache A → GoMap (Item A)
  unfolding unexpired
  items_at now c = unexpired now c.items

  unfoldable pub flush : Cache A → Cache A
  flush c = record c { items = [] }

  unfoldable pub new_cache : ℤ → ℤ → GoMap (Item A) → ℕ → Cache A
  new_cache de max_items m now = record {
    default_expiration = if is_zero de then no_expiration else de;
    max_items_count = max_items;
    items = m;
    on_evicted = false;
    last_clean_time = now;
    janitor = none;
  }

  unfoldable pub run_janitor : ℤ → Cache A → Cache A
  run_janitor ci c = record c { janitor = some (record { interval = ci; shoud_clean = true }) }

  unfoldable pub new_cache_with_janitor : ℤ → ℤ → ℤ → GoMap (Item A) → ℕ → Cache A
  unfolding new_cache run_janitor
  new_cache_with_janitor de ci max_items m now =
      let c = new_cache de max_items m now in if is_positive ci then run_janitor ci c else c

  unfoldable pub new : ℤ → ℤ → ℤ → ℕ → Cache A
  unfolding new_cache_with_janitor
  new de ci max_items now = new_cache_with_janitor de ci max_items [] now

  unfoldable pub new_from : ℤ → ℤ → ℤ → GoMap (Item A) → ℕ → Cache A
  unfolding new_cache_with_janitor
  new_from de ci max_items m now = new_cache_with_janitor de ci max_items m now

-- What the janitor goroutine receives.
pub data JanitorEvent : Type 0 where
  tick shoud_clean_signal stop : JanitorEvent

abbrev pub second : ℕ
second = 1000000000

-- One round of the `select` of janitor.Run; `none` means that the loop has returned.
unfoldable pub janitor_round :
    {A : Type 0} → JanitorEvent → ℕ → Cache A → Option (Cache A × List (String × A))
unfolding delete_expired
janitor_round tick now c = some (delete_expired now c)
janitor_round shoud_clean_signal now c =
    if ltb (c.last_clean_time + second) now then some (delete_expired now c) else some (c, [])
janitor_round stop now c = none
