-- ===== src/Sc/Counts.antt =====
-- metrics.go: what the counters hold after any sequence of commands, and what ClearKey leaves.
use ipfs_nosql_frame.Prelude.{
  ℕ, suc, ◌+◌, ◌%◌, ◌^◌, ◌<◌, ◌≡◌, refl, ap, inl, inr, ◌∙◌, Bool, true, false, not, ◌&&◌, ◌||◌,
  none, List, [], ◌∷◌, Bytes, Bool-cases, arith, is_some, if◌then◌else◌,
}
use ipfs_nosql_frame.Rediscluster.Replies.{equal}
use ipfs_nosql_frame.Rediscluster.ListsRead.{equal_iff}
use ipfs_nosql_frame.Sc.Table.{Table, lookup, insert, delete, lookup-insert, lookup-delete}
use ipfs_nosql_frame.Sc.Filter.{Rule}
use ipfs_nosql_frame.Sc.Reporter
use ipfs_nosql_frame.Sc.Reporter.{
  Reporter, ReporterUnit, unit_at, lpop_key, count_rpush, count_lpop,
}
use ipfs_nosql_frame.Sc.Reports

-- A command that the handler counts, with its time and its key.
pub data Counted : Type 0 where
  rpush lpop : ℕ → Bytes → Counted

abbrev pub run : List Counted → Reporter → Reporter
run [] report = report
run (rpush now key ∷ commands) report = run commands (Reporter.add_rpush_command now key report)
run (lpop now key ∷ commands) report = run commands (Reporter.add_lpop_command now key report)

-- How many of the commands are an RPUSH to the key.
abbrev pub rpushes : Bytes → List Counted → ℕ
rpushes j [] = 0
rpushes j (rpush now key ∷ commands) =
    if equal key j then suc (rpushes j commands) else rpushes j commands
rpushes j (lpop now key ∷ commands) = rpushes j commands

-- How many are an LPOP from the key, where all keys that contain sc_log are one.
abbrev pub lpops : Bytes → List Counted → ℕ
lpops j [] = 0
lpops j (rpush now key ∷ commands) = lpops j commands
lpops j (lpop now key ∷ commands) =
    if equal (lpop_key key) j then suc (lpops j commands) else lpops j commands

unit_at-insert :
    (k j : Bytes) (unit : ReporterUnit) (report : Reporter)
    → unit_at j (insert k unit report) ≡ (if equal k j then unit else unit_at j report)
unfolding unit_at
unit_at-insert k j unit report = elim (Bool-cases (equal k j)) [
  | inl here ↦ rw (unit_at, lookup-insert k j unit report, here) refl
  | inr apart ↦ rw (unit_at, lookup-insert k j unit report, apart) refl
]

-- The counter of a key after a write of what `f` makes of the counter of `k`.
counted :
    (f : ReporterUnit → ReporterUnit) (k j : Bytes) (report : Reporter)
    → unit_at j (insert k (f (unit_at k report)) report)
      ≡ (if equal k j then f (unit_at j report) else unit_at j report)
counted f k j report = elim (Bool-cases (equal k j)) [
  | inl here ↦
      rw (unit_at-insert k j (f (unit_at k report)) report, here)
        (ap (λ x. f (unit_at x report)) ((equal_iff k j).0 here))
  | inr apart ↦ rw (unit_at-insert k j (f (unit_at k report)) report, apart) refl
]

push_step :
    (now : ℕ) (k j : Bytes) (report : Reporter)
    → ((unit_at j (Reporter.add_rpush_command now k report)).rpush_count ≡ (
        if equal k j
        then ((unit_at j report).rpush_count + 1) % 2 ^ 64
        else (unit_at j report).rpush_count))
      × ((unit_at j (Reporter.add_rpush_command now k report)).lpop_count
          ≡ (unit_at j report).lpop_count)
unfolding Reporter.add_rpush_command
push_step now k j report =
    let e = counted (count_rpush now) k j report in
    elim (Bool-cases (equal k j)) [
      | inl here ↦ rw (e, here) (refl, refl)
      | inr apart ↦ rw (e, apart) (refl, refl)
    ]

pop_step :
    (now : ℕ) (k j : Bytes) (report : Reporter)
    → ((unit_at j (Reporter.add_lpop_command now k report)).lpop_count ≡ (
        if equal (lpop_key k) j
        then ((unit_at j report).lpop_count + 1) % 2 ^ 64
        else (unit_at j report).lpop_count))
      × ((unit_at j (Reporter.add_lpop_command now k report)).rpush_count
          ≡ (unit_at j report).rpush_count)
unfolding Reporter.add_lpop_command
pop_step now k j report =
    let e = counted (count_lpop now) (lpop_key k) j report in
    elim (Bool-cases (equal (lpop_key k) j)) [
      | inl here ↦ rw (e, here) (refl, refl)
      | inr apart ↦ rw (e, apart) (refl, refl)
    ]

-- A counter that is bumped or left alone, and one that is left alone.
total_step :
    (b : Bool) (c c' n u u' m after after' : ℕ)
    → c' ≡ (if b then (c + 1) % 2 ^ 64 else c)
    → u' ≡ u
    → after % 2 ^ 64 ≡ (c' + n) % 2 ^ 64
    → after' % 2 ^ 64 ≡ (u' + m) % 2 ^ 64
    → (after % 2 ^ 64 ≡ (c + (if b then suc n else n)) % 2 ^ 64)
      × (after' % 2 ^ 64 ≡ (u + m) % 2 ^ 64)
total_step true c c' n u u' m after after' h g a b = omega arith
total_step false c c' n u u' m after after' h g a b = omega arith

run_from :
    (commands : List Counted) (report : Reporter) (j : Bytes)
    → ((unit_at j (run commands report)).rpush_count % 2 ^ 64
        ≡ ((unit_at j report).rpush_count + rpushes j commands) % 2 ^ 64)
      × ((unit_at j (run commands report)).lpop_count % 2 ^ 64
          ≡ ((unit_at j report).lpop_count + lpops j commands) % 2 ^ 64)
run_from [] report j = omega arith
run_from (rpush now key ∷ commands) report j =
    let report' = Reporter.add_rpush_command now key report in
    let (pushed, kept) = push_step now key j report in
    let (a, b) = run_from commands report' j in
    total_step (equal key j) _ _ (rpushes j commands) _ _ (lpops j commands) _ _ pushed kept a b
run_from (lpop now key ∷ commands) report j =
    let report' = Reporter.add_lpop_command now key report in
    let (popped, kept) = pop_step now key j report in
    let (a, b) = run_from commands report' j in
    let (b', a') =
      total_step (equal (lpop_key key) j) _ _ (lpops j commands) _ _ (rpushes j commands) _ _ popped
        kept b a in
    (a', b')

-- The counters are numbers of 64 bits.
run_small :
    (commands : List Counted) (report : Reporter) (j : Bytes)
    → ((unit_at j report).rpush_count < 2 ^ 64) × ((unit_at j report).lpop_count < 2 ^ 64)
    → ((unit_at j (run commands report)).rpush_count < 2 ^ 64)
      × ((unit_at j (run commands report)).lpop_count < 2 ^ 64)
run_small [] report j h = h
run_small (rpush now key ∷ commands) report j h =
    run_small commands (Reporter.add_rpush_command now key report) j
      (ground (arith, push_step now key j report))
run_small (lpop now key ∷ commands) report j h =
    run_small commands (Reporter.add_lpop_command now key report) j
      (ground (arith, pop_step now key j report))

-- On a new reporter, after any sequence of counted commands, the counters of a key are the numbers of its
-- RPUSH and of its LPOP commands, modulo 2 ^ 64. An LPOP from a key that contains sc_log is one from sc_log.
pub run-counts :
    (commands : List Counted) (j : Bytes)
    → ((unit_at j (run commands Reporter.new_reporter)).rpush_count ≡ rpushes j commands % 2 ^ 64)
      × ((unit_at j (run commands Reporter.new_reporter)).lpop_count ≡ lpops j commands % 2 ^ 64)
unfolding unit_at lookup
run-counts commands j =
    let (a, b) = run_from commands [] j in
    let (x, y) = run_small commands [] j (omega arith) in (omega arith, omega arith)

abbrev mem : Bytes → List Bytes → Bool
mem j [] = false
mem j (key ∷ keys) = equal key j || mem j keys

lookup-delete_keys :
    (keys : List Bytes) (report : Reporter) (j : Bytes)
    → lookup j (Reports.delete_keys keys report) ≡ (if mem j keys then none else lookup j report)
unfolding Reports.delete_keys
lookup-delete_keys [] report j = refl
lookup-delete_keys (key ∷ keys) report j =
    ground (arith, lookup-delete_keys keys (delete key report) j, lookup-delete key j report)

module _ {L : Type 0} where
  mem-missing_keys :
      (rules : Table (Rule L)) (seen : Reporter) (j : Bytes)
      → mem j (Reports.missing_keys rules seen)
        ≡ (is_some (lookup j seen) && not (is_some (lookup j rules)))
  unfolding Reports.missing_keys lookup
  mem-missing_keys rules [] j = refl
  mem-missing_keys rules ((key, unit) ∷ seen) j =
      ground (arith, equal_iff key j, mem-missing_keys rules seen j)

  -- ClearKey removes the counters of exactly those keys that it saw and that have no rule.
  pub lookup-clear_key :
      (rules : Table (Rule L)) (seen report : Reporter) (j : Bytes)
      → lookup j (Reports.clear_key rules seen report) ≡ (
          if is_some (lookup j seen) && not (is_some (lookup j rules))
          then none
          else lookup j report)
  unfolding Reports.clear_key
  lookup-clear_key rules seen report j =
      lookup-delete_keys (Reports.missing_keys rules seen) report j
      ∙ ap (λ b. if b then none else lookup j report) (mem-missing_keys rules seen j)
