-- ===== src/Sc/Reporter.antt =====
-- metrics.go: the counters of the commands on each log key, what ReportData collects from them, and
-- ClearKey. A uint64 is a number below 2 ^ 64, and a nil *time.Time is `none`.
use ipfs_nosql_frame.Prelude.{
  ℕ, ◌+◌, ◌%◌, ◌^◌, Bool, true, false, ◌&&◌, ◌||◌, Option, none, some, [], ◌∷◌, Bytes, codes, ◌==◌,
  if◌then◌else◌,
}
use ipfs_nosql_frame.Sc.Table.{Table, lookup, insert}

-- ReporterUnit, without its LogKey, which only ReportData sets.
pub record ReporterUnit : Type 0 where
  pub rpush_count : ℕ
  pub rpush_last_time : Option ℕ
  pub lpop_count : ℕ
  pub lpop_last_time : Option ℕ

-- Reporter.ReporterUnit
abbrev pub Reporter : Type 0
Reporter = Table ReporterUnit

abbrev pub new_reporter : Reporter
new_reporter = []

abbrev pub zero_unit : ReporterUnit
zero_unit = record {
  rpush_count = 0;
  rpush_last_time = none;
  lpop_count = 0;
  lpop_last_time = none;
}

-- report.ReporterUnit[key], the zero value for a missing key
unfoldable pub unit_at : Bytes → Reporter → ReporterUnit
unit_at key report = elim (lookup key report) [ none ↦ zero_unit | some unit ↦ unit ]

abbrev pub count_rpush : ℕ → ReporterUnit → ReporterUnit
count_rpush now unit = record unit {
  rpush_count = (unit.rpush_count + 1) % 2 ^ 64;
  rpush_last_time = some now;
}

abbrev pub count_lpop : ℕ → ReporterUnit → ReporterUnit
count_lpop now unit = record unit {
  lpop_count = (unit.lpop_count + 1) % 2 ^ 64;
  lpop_last_time = some now;
}

unfoldable pub add_rpush_command : ℕ → Bytes → Reporter → Reporter
add_rpush_command now key report = insert key (count_rpush now (unit_at key report)) report

unfoldable pub is_prefix : Bytes → Bytes → Bool
is_prefix [] s = true
is_prefix (c ∷ p) [] = false
is_prefix (c ∷ p) (d ∷ s) = c == d && is_prefix p s

-- strings.Contains
unfoldable pub contains : Bytes → Bytes → Bool
unfolding is_prefix
contains [] p = is_prefix p []
contains (c ∷ s) p = is_prefix p (c ∷ s) || contains s p

abbrev pub sc_log : Bytes
sc_log = codes "sc_log"

abbrev pub lpop_key : Bytes → Bytes
lpop_key key = if contains key sc_log then sc_log else key

unfoldable pub add_lpop_command : ℕ → Bytes → Reporter → Reporter
add_lpop_command now key report =
    insert (lpop_key key) (count_lpop now (unit_at (lpop_key key) report)) report
