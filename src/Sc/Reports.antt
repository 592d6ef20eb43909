-- ===== src/Sc/Reports.antt =====
-- metrics.go: a round of ReportData and a round of ClearKey. Each reads the counters and the rules once. The
-- reports go to the cluster of the logs, which is another one than that of the alerts.
use ipfs_nosql_frame.Prelude.{
  ℕ, ◌/◌, ℤ, pos, Option, none, some, List, [], ◌∷◌, Bytes, codes, is_some, is_zero, if◌then◌else◌,
}
use ipfs_nosql_frame.Rediscluster.Node.Command.{string, bytes}
use ipfs_nosql_frame.Sc.Table.{Table, lookup, delete}
use ipfs_nosql_frame.Sc.Backend.{Backend}
use ipfs_nosql_frame.Sc.Filter.{Rule, le_ℤ}
use ipfs_nosql_frame.Sc.Alerts.{Alert, MspEvent, log_alert, log_key_length_warning}
use ipfs_nosql_frame.Sc.Reporter.{ReporterUnit, Reporter}

-- ReporterUnit, with the fields that only a report has.
pub record Report : Type 0 where
  pub log_key : Bytes
  pub unit : ReporterUnit
  pub length : ℤ

abbrev pub warning_or_default : ℤ → ℤ
warning_or_default n = if is_zero n then pos 1000 else n

unfoldable pub delete_keys : List Bytes → Reporter → Reporter
delete_keys [] report = report
delete_keys (key ∷ keys) report = delete_keys keys (delete key report)

module _ {L : Type 0} where
  unfoldable pub missing_keys : Table (Rule L) → Reporter → List Bytes
  missing_keys rules [] = []
  missing_keys rules ((key, unit) ∷ report) =
      let rest = missing_keys rules report in
      if is_some (lookup key rules) then rest else key ∷ rest

  -- A round of ClearKey: the keys are gathered from `seen`, and deleted from what the counters are then.
  unfoldable pub clear_key : Table (Rule L) → Reporter → Reporter → Reporter
  unfolding missing_keys delete_keys
  clear_key rules seen report = delete_keys (missing_keys rules seen) report

abbrev length_alert : ℕ → Bytes → ℤ → ℤ → Alert
length_alert now key warning n = record {
  event_type = log_key_length_warning;
  event_time = now / 1000000;
  log_key = key;
  rate_threshold = pos 0;
  warning_length = warning;
  current_length = n;
}

module _ {Float L : Type 0} (B : Backend Float) (marshal_event : MspEvent → Option Bytes)
    (now : ℕ) where
  -- The length of a key in its report, and the alert on it.
  unfoldable pub measure : Bytes → Option (Rule L) → B.World → ℤ × B.World
  measure key none w = (pos 0, w)
  measure key (some rule) w =
      let warning = warning_or_default rule.warning_length in
      (
        rule.length,
        if le_ℤ warning rule.length
            then log_alert B marshal_event now (length_alert now key warning rule.length) w
            else w,
      )

  unfoldable pub report_units : Table (Rule L) → Reporter → B.World → List Report × B.World
  unfolding measure
  report_units rules [] w = ([], w)
  report_units rules ((key, unit) ∷ report) w =
      let (n, w') = measure key (lookup key rules) w in
      let (reports, w'') = report_units rules report w' in
      (record { log_key = key; unit = unit; length = n } ∷ reports, w'')

module _ {Float : Type 0} (B A : Backend Float) (marshal_reports : List Report → Bytes) where
  abbrev pub send_reports : List Report × B.World → A.World → B.World × A.World
  send_reports (reports, w) a = (
    w,
    (A.do_command (codes "LPUSH")
        (string (codes "msp:log_metrics") ∷ bytes (marshal_reports reports) ∷ []) a).1,
  )

module _ {Float L : Type 0} (B A : Backend Float) (marshal_event : MspEvent → Option Bytes)
    (marshal_reports : List Report → Bytes) (now : ℕ) where
  -- A round of ReportData, which does nothing while there are no counters.
  unfoldable pub report_data : Table (Rule L) → Reporter → B.World → A.World → B.World × A.World
  unfolding report_units
  report_data rules [] w a = (w, a)
  report_data rules (unit ∷ units) w a =
      send_reports B A marshal_reports (report_units B marshal_event now rules (unit ∷ units) w) a
