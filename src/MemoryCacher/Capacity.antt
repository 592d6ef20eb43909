-- ===== src/MemoryCacher/Capacity.antt =====
-- cache.go: the bound on the number of items, over all sequences of calls on one cache.
use ipfs_nosql_frame.Prelude.{
  ℕ, suc, if◌then◌else◌, if_cases, ◌+◌, ◌-◌, ◌≤◌, ◌<◌, ◌&&◌, ◌++◌, length-append, ℤ, is_positive,
  pos_part, String, ◌≡◌, ap, subst, ◌∙◌, ◌⊎◌, ◌↔◌, inl, inr, Bool, true, false, Option, none, some,
  List, [], ◌∷◌, arith, length, is_some, Bool-cases, Option-cases,
}
use ipfs_nosql_frame.Prelude.GoMap
use ipfs_nosql_frame.Prelude.GoMap.{GoMap}
use ipfs_nosql_frame.MemoryCacher.Cache
use ipfs_nosql_frame.MemoryCacher.Cache.{
  Cache, Item, Reply, Outcome, done, panic, Janitor, JanitorEvent, tick, shoud_clean_signal, stop,
}
use ipfs_nosql_frame.MemoryCacher.Reads.{set_panic_iff}
use ipfs_nosql_frame.MemoryCacher.Counters
use ipfs_nosql_frame.MemoryCacher.Counters.{Values, Object, Update}

-- A call of Set or of Add that has found room and has still to take the lock for its write.
pub record Waiting (A : Type 0) : Type 0 where
  pub is_add : Bool
  pub key : String
  pub object : A
  pub duration : ℤ

-- What such a call does under the lock: Add looks for the key first.
abbrev pub write : {A : Type 0} → Waiting A → ℕ → Cache A → Cache A
write call now c =
    if call.is_add && is_some (Cache.get_item call.key now c)
    then c
    else Cache.set_item call.key call.object call.duration now c

-- A cache, the calls that wait for its lock after their test of the bound, and the number of items that
-- Load has been given.
pub record St (W : Values) : Type 0 where
  pub cache : Cache (Object W)
  pub waiting : List (Waiting (Object W))
  pub loaded : ℕ

-- The steps of calls of which at most `n` write at a time. Set and Add test the bound in one section under
-- the lock and write in another, so that other steps may come between; `set` and `add` are calls between
-- whose sections nothing comes. The other calls are made under the lock. The numeric ones are all instances
-- of `update`.
pub data Step {W : Values} (n : ℕ) (s : St W) : St W → Type 1 where
  test :
      (call : Waiting (Object W))
      → Cache.is_reach_max_items_count s.cache ≡ false
      → length s.waiting < n
      → Step n s (record s { waiting = s.waiting ++ call ∷ [] })
  write_one :
      (before after : List (Waiting (Object W))) (call : Waiting (Object W)) (now : ℕ)
      → s.waiting ≡ before ++ call ∷ after
      → Step n s (record s { cache = write call now s.cache; waiting = before ++ after })
  set :
      (k : String) (x : Object W) (d : ℤ) (now : ℕ) (ready : Bool) {r : Reply (Object W)}
      → Cache.set k x d now ready s.cache ≡ done r
      → length s.waiting < n
      → Step n s (record s { cache = r.cache })
  add :
      (k : String) (x : Object W) (d : ℤ) (now : ℕ) (ready : Bool) {r : Reply (Object W)}
      → Cache.add k x d now ready s.cache ≡ done r
      → length s.waiting < n
      → Step n s (record s { cache = r.cache })
  replace :
      (k : String) (x : Object W) (d : ℤ) (now : ℕ)
      → Step n s (record s { cache = (Cache.replace k x d now s.cache).cache })
  update :
      {R : Type 0} (e : R) (f : Object W → Option (Object W × R)) (k : String) (now : ℕ)
      → Step n s (record s { cache = (Counters.update e f k now s.cache).cache })
  delete : (k : String) → Step n s (record s { cache = (Cache.delete k s.cache).0 })
  delete_expired : (now : ℕ) → Step n s (record s { cache = (Cache.delete_expired now s.cache).0 })
  set_on_evicted : (f : Bool) → Step n s (record s { cache = Cache.set_on_evicted f s.cache })
  flush : Step n s (record s { cache = Cache.flush s.cache })
  load :
      (decoded : GoMap (Item (Object W))) (now : ℕ)
      → Step n s (record s {
        cache = (Cache.load (some decoded) now s.cache).0;
        loaded = s.loaded + length decoded;
      })
  round :
      (ev : JanitorEvent) (now : ℕ) {x : Cache (Object W) × List (String × Object W)}
      → Cache.janitor_round ev now s.cache ≡ some x
      → Step n s (record s { cache = x.0 })

pub data Reach {W : Values} (n : ℕ) (s : St W) : St W → Type 1 where
  here : Reach n s s
  next : {b e : St W} → Reach n s b → Step n b e → Reach n s e

abbrev pub begin : {W : Values} → Cache (Object W) → St W
begin c = record { cache = c; waiting = []; loaded = 0 }

-- A cache with the bound `m` and the janitor `j`, whose keys are distinct, and which has at most `t` items
-- together with `x` more.
pub record Fits {A : Type 0} (m : ℤ) (j : Option Janitor) (x t : ℕ) (c : Cache A) : Type 0 where
  pub distinct : GoMap.IsDistinct c.items
  pub bounded : length c.items + x ≤ t
  pub same_bound : c.max_items_count ≡ m
  pub same_janitor : c.janitor ≡ j

-- A key that is read is there.
get_item_found :
    {A : Type 0} (k : String) (now : ℕ) (c : Cache A)
    → is_some (Cache.get_item k now c) ≡ true
    → (v : Item A) × (GoMap.lookup k c.items ≡ some v)
unfolding Cache.get_item
get_item_found k now c h = elim (Option-cases (GoMap.lookup k c.items)) [
  | inl absent ↦ absurd (ground arith)
  | inr found ↦ found
]

-- A cache below its bound has room for one more.
room_lem :
    {A : Type 0} (m : ℤ) (c : Cache A)
    → c.max_items_count ≡ m
    → Cache.is_reach_max_items_count c ≡ false
    → suc (length c.items) ≤ pos_part m
unfolding Cache.is_reach_max_items_count
room_lem m c bound room = ground (arith, bound, room)

module _ {A : Type 0} {m : ℤ} {j : Option Janitor} {x : ℕ} where
  insert-Fits :
      (k : String) (v : Item A) {c : Cache A} {l : ℕ}
      → Fits m j x l c
      → Fits m j x (suc l) (record c { items = GoMap.insert k v c.items })
  insert-Fits k v {c} f = record {
    distinct = GoMap.insert-IsDistinct k v c.items f.distinct;
    bounded = ground (arith, GoMap.length-insert k v c.items, f.bounded);
    same_bound = f.same_bound;
    same_janitor = f.same_janitor;
  }

  more-Fits : {c : Cache A} {l : ℕ} → Fits m j x l c → Fits m j x (suc l) c
  more-Fits f = record {
    distinct = f.distinct;
    bounded = let b = f.bounded in omega arith;
    same_bound = f.same_bound;
    same_janitor = f.same_janitor;
  }

module _ {A : Type 0} {m : ℤ} {j : Option Janitor} {x t : ℕ} where
  set_item-Fits :
      (k : String) (o : A) (d : ℤ) (now : ℕ) {c : Cache A}
      → (suc (length c.items) + x ≤ t) ⊎ ((v : Item A) × (GoMap.lookup k c.items ≡ some v))
      → Fits m j x t c
      → Fits m j x t (Cache.set_item k o d now c)
  unfolding Cache.set_item
  set_item-Fits k o d now {c} room f =
      let item : Item A = record { object = o; expiration = Cache.deadline d now c } in
      record {
        distinct = GoMap.insert-IsDistinct k item c.items f.distinct;
        bounded = ground (arith, GoMap.length-insert k item c.items, f.bounded, room);
        same_bound = f.same_bound;
        same_janitor = f.same_janitor;
      }

  overwrite-Fits :
      (k : String) (v w : Item A) {c : Cache A}
      → GoMap.lookup k c.items ≡ some v
      → Fits m j x t c
      → Fits m j x t (record c { items = GoMap.insert k w c.items })
  overwrite-Fits k v w {c} old f = record {
    distinct = GoMap.insert-IsDistinct k w c.items f.distinct;
    bounded = ground (arith, GoMap.length-insert k w c.items, f.bounded);
    same_bound = f.same_bound;
    same_janitor = f.same_janitor;
  }

  delete-Fits : (k : String) {c : Cache A} → Fits m j x t c → Fits m j x t (Cache.delete k c).0
  unfolding Cache.delete
  delete-Fits k {c} f =
      ground (arith, GoMap.delete-IsDistinct k c.items f.distinct, GoMap.length-delete-le k c.items)

  visit-Fits :
      (now : ℕ) (k : String) (v : Item A) (s : Cache A × List (String × A))
      → Fits m j x t s.0
      → Fits m j x t (Cache.visit now k v s).0
  unfolding Cache.visit Cache.delete
  visit-Fits now k v (c, e) f =
      ground (arith, GoMap.delete-IsDistinct k c.items f.distinct, GoMap.length-delete-le k c.items)

  sweep-Fits :
      (now : ℕ) (n : GoMap (Item A)) (s : Cache A × List (String × A))
      → Fits m j x t s.0
      → Fits m j x t (Cache.sweep now n s).0
  unfolding Cache.sweep
  sweep-Fits now [] s f = f
  sweep-Fits now ((k, v) ∷ n) s f =
      sweep-Fits now n (Cache.visit now k v s) (visit-Fits now k v s f)

  delete_expired-Fits :
      (now : ℕ) {c : Cache A} → Fits m j x t c → Fits m j x t (Cache.delete_expired now c).0
  unfolding Cache.delete_expired
  delete_expired-Fits now {c} f = ground (arith, sweep-Fits now c.items (c, []) f)

  load_items-Fits :
      (now : ℕ) (decoded : GoMap (Item A)) {c : Cache A} (l : ℕ)
      → Fits m j x l c
      → l + length decoded ≤ t
      → Fits m j x t (Cache.load_items now decoded c)
  unfolding Cache.load_items
  load_items-Fits now [] {c} l f left = record {
    distinct = f.distinct;
    bounded = let b = f.bounded in omega arith;
    same_bound = f.same_bound;
    same_janitor = f.same_janitor;
  }
  load_items-Fits now ((k, v) ∷ decoded) {c} l f left =
      load_items-Fits now decoded (suc l)
        (if_cases (Fits m j x (suc l)) (Cache.is_vacant k now c) (λ _. insert-Fits k v f)
          (λ _. more-Fits f))
        (omega arith)

  set-Fits :
      (k : String) (o : A) (d : ℤ) (now : ℕ) (ready : Bool) {c : Cache A} {r : Reply A}
      → Cache.set k o d now ready c ≡ done r
      → pos_part m + x ≤ t
      → Fits m j x t c
      → Fits m j x t r.cache
  unfolding Cache.set
  set-Fits k o d now ready {c} {r} e left f = elim (Bool-cases (Cache.is_reach_max_items_count c)) [
    | inl full ↦ ground (arith, f)
    | inr room ↦
        ground
          (arith, set_item-Fits k o d now (inl (omega (arith, room_lem m c f.same_bound room))) f)
  ]

  add-Fits :
      (k : String) (o : A) (d : ℤ) (now : ℕ) (ready : Bool) {c : Cache A} {r : Reply A}
      → Cache.add k o d now ready c ≡ done r
      → pos_part m + x ≤ t
      → Fits m j x t c
      → Fits m j x t r.cache
  unfolding Cache.add
  add-Fits k o d now ready {c} {r} e left f = elim (Bool-cases (Cache.is_reach_max_items_count c)) [
    | inl full ↦ ground (arith, f)
    | inr room ↦
        ground
          (arith, set_item-Fits k o d now (inl (omega (arith, room_lem m c f.same_bound room))) f)
  ]

  replace-Fits :
      (k : String) (o : A) (d : ℤ) (now : ℕ) {c : Cache A}
      → Fits m j x t c
      → Fits m j x t (Cache.replace k o d now c).cache
  unfolding Cache.replace
  replace-Fits k o d now {c} f = elim (Bool-cases (is_some (Cache.get_item k now c))) [
    | inl old ↦ rw old (set_item-Fits k o d now (inr (get_item_found k now c old)) f)
    | inr new ↦ rw new f
  ]

  round-Fits :
      (ev : JanitorEvent) (now : ℕ) {c : Cache A} {s : Cache A × List (String × A)}
      → Cache.janitor_round ev now c ≡ some s
      → Fits m j x t c
      → Fits m j x t s.0
  unfolding Cache.janitor_round
  round-Fits tick now {c} e f = ground (arith, delete_expired-Fits now f)
  round-Fits shoud_clean_signal now {c} e f = ground (arith, delete_expired-Fits now f)
  round-Fits stop now e f = cc

module _ {W : Values} {m : ℤ} {j : Option Janitor} {x t : ℕ} where
  update-Fits :
      {R : Type 0} (e : R) (g : Object W → Option (Object W × R)) (k : String) (now : ℕ)
      {c : Cache (Object W)}
      → Fits m j x t c
      → Fits m j x t (Counters.update e g k now c).cache
  unfolding Counters.update
  update-Fits e g k now {c} f = elim (Option-cases (GoMap.lookup k c.items)) [
    | inl absent ↦ rw (absent, Counters.update) f
    | inr (v, found) ↦ elim (Bool-cases (Cache.expired v now)) [
      | inl gone ↦ rw (found, Counters.update, gone) f
      | inr live ↦ elim (Option-cases (g v.object)) [
        | inl bad ↦ rw (found, Counters.update, live, bad) f
        | inr ((o, r), good) ↦
            rw (found, Counters.update, live, good)
              (overwrite-Fits k v (record v { object = o }) found f)
      ]
    ]
  ]

module _ {W : Values} (m : ℤ) (j : Option Janitor) where
  write-Fits :
      (call : Waiting (Object W)) (now : ℕ) {x t : ℕ} {c : Cache (Object W)}
      → Fits m j (suc x) t c
      → Fits m j x t (write call now c)
  write-Fits call now {x} {t} {c} f =
      let g : Fits m j x t c = record {
        distinct = f.distinct;
        bounded = let b = f.bounded in omega arith;
        same_bound = f.same_bound;
        same_janitor = f.same_janitor;
      } in
      let b = f.bounded in
      if_cases (Fits m j x t) (call.is_add && is_some (Cache.get_item call.key now c)) (λ _. g)
        (λ _. set_item-Fits call.key call.object call.duration now (inl (omega arith)) g)

  -- The invariant of the steps of at most `n` writers.
  abbrev Inv : ℕ → St W → Type 0
  Inv n s = Fits m j (length s.waiting) (pos_part m + (n - 1) + s.loaded) s.cache

  Step-Inv : (n : ℕ) {s b : St W} → Step n s b → Inv n s → Inv n b
  unfolding Cache.flush Cache.set_on_evicted Cache.load
  Step-Inv n {s} (test call room free) f = record {
    distinct = f.distinct;
    bounded =
        omega (arith, length-append s.waiting (call ∷ []), room_lem m s.cache f.same_bound room);
    same_bound = f.same_bound;
    same_janitor = f.same_janitor;
  }
  Step-Inv n {s} (write_one before after call now e) f =
      let size : length s.waiting ≡ suc (length (before ++ after)) =
        ap length e
        ∙ omega (arith, length-append before (call ∷ after), length-append before after) in
      write-Fits call now (subst (λ x. Fits m j x (pos_part m + (n - 1) + s.loaded) s.cache) size f)
  Step-Inv n (set k o d now ready e free) f = set-Fits k o d now ready e (omega arith) f
  Step-Inv n (add k o d now ready e free) f = add-Fits k o d now ready e (omega arith) f
  Step-Inv n (replace k o d now) f = replace-Fits k o d now f
  Step-Inv n (update e g k now) f = update-Fits e g k now f
  Step-Inv n (delete k) f = delete-Fits k f
  Step-Inv n (delete_expired now) f = delete_expired-Fits now f
  Step-Inv n (set_on_evicted g) f = ground (arith, f)
  Step-Inv n flush f = ground (arith, f)
  Step-Inv n {s} (load decoded now) f =
      load_items-Fits now decoded (pos_part m + (n - 1) + s.loaded) f (omega arith)
  Step-Inv n (round ev now e) f = round-Fits ev now e f

  Reach-Inv : (n : ℕ) {s b : St W} → Reach n s b → Inv n s → Inv n b
  Reach-Inv n here f = f
  Reach-Inv n (next r st) f = Step-Inv n st (Reach-Inv n r f)

new-Fits :
    {A : Type 0} (de ci m : ℤ) (now t : ℕ)
    → (i : Option Janitor) × Fits m i 0 t (Cache.new {A = A} de ci m now)
      × (is_some i ≡ is_positive ci)
unfolding Cache.new
new-Fits de ci m now t = elim (Bool-cases (is_positive ci)) [
  | inl on ↦ (some (record { interval = ci; shoud_clean = true }), ground arith, ground arith)
  | inr off ↦ (none, ground arith, ground arith)
]

-- On a cache that was created with a bound, with at most `n` calls of Set or Add writing at a time and
-- whatever comes between their test of the bound and their write, however its janitor runs and whatever
-- other calls are made, every key stands once, and the number of items passes the bound (0, if the bound is
-- negative) by at most n - 1 and by the number of items that Load has been given. With one writer and no
-- Load it never passes it.
pub Reach-bounded :
    {W : Values} (de ci m : ℤ) (now n : ℕ) {s : St W}
    → Reach n (begin (Cache.new de ci m now)) s
    → GoMap.IsDistinct s.cache.items × (Cache.item_count s.cache ≤ pos_part m + (n - 1) + s.loaded)
unfolding Cache.item_count
Reach-bounded de ci m now n r =
    let (i, fits, _) = new-Fits de ci m now (pos_part m + (n - 1) + 0) in
    let f = Reach-Inv m i n r fits in let b = f.bounded in (f.distinct, omega arith)

-- On a cache that was created with a positive cleanup interval `Set` and `Add` never panic, whatever calls
-- have been made on it, Load included, and whatever came between the two sections of a Set or an Add; on one
-- that was created without they panic exactly when it has reached its bound.
pub Reach-panic_iff :
    {W : Values} (de ci m : ℤ) (start n : ℕ) {s : St W} (k : String) (x : Object W) (d : ℤ)
    (now : ℕ) (ready : Bool)
    → Reach n (begin (Cache.new de ci m start)) s
    → ((Cache.set k x d now ready s.cache ≡ panic)
        ↔ ((is_positive ci ≡ false) × (Cache.is_reach_max_items_count s.cache ≡ true)))
      × ((Cache.add k x d now ready s.cache ≡ panic)
          ↔ ((is_positive ci ≡ false) × (Cache.is_reach_max_items_count s.cache ≡ true)))
Reach-panic_iff de ci m start n {s} k x d now ready r =
    let (i, fits, made) = new-Fits de ci m start (pos_part m + (n - 1) + 0) in
    let f = Reach-Inv m i n r fits in
    ground (arith, set_panic_iff k x d now ready s.cache, made, f.same_janitor)
