-- ===== src/Sc/Alerts.antt =====
-- alert.go and report.go: an alert goes to the event list of the Redis cluster. The JSON of an event is a
-- parameter, `none` for an error of Marshal; logging is left out. A time is in nanoseconds.
use ipfs_nosql_frame.Prelude.{ℕ, ◌/◌, ℤ, Option, none, some, [], ◌∷◌, Bytes, codes}
use ipfs_nosql_frame.Rediscluster.Node.Command.{string, bytes}
use ipfs_nosql_frame.Sc.Backend.{Backend}

-- LogAlertMsg
pub record Alert : Type 0 where
  pub event_type : ℕ
  pub event_time : ℕ
  pub log_key : Bytes
  pub rate_threshold : ℤ
  pub warning_length : ℤ
  pub current_length : ℤ

-- MSPEvent, with an alert for its body.
pub record MspEvent : Type 0 where
  pub event_type : Bytes
  pub event_time : ℕ
  pub event_body : Alert

abbrev pub log_rate_limit : ℕ
log_rate_limit = 1

abbrev pub log_key_notin_white_list : ℕ
log_key_notin_white_list = 2

abbrev pub log_key_length_warning : ℕ
log_key_length_warning = 3

abbrev pub event_type_log : Bytes
event_type_log = codes "log"

abbrev pub msp_event : Bytes
msp_event = codes "msp:event_msg"

module _ {Float : Type 0} (B : Backend Float) (marshal_event : MspEvent → Option Bytes) where
  abbrev push_event : Option Bytes → B.World → B.World
  push_event none w = w
  push_event (some b) w = (B.do_command (codes "LPUSH") (string msp_event ∷ bytes b ∷ []) w).1

  unfoldable pub report : ℕ → Bytes → Alert → B.World → B.World
  report now event_type alert = push_event (
      marshal_event
        (record { event_type = event_type; event_time = now / 1000000; event_body = alert }))

  unfoldable pub log_alert : ℕ → Alert → B.World → B.World
  unfolding report
  log_alert now alert = report now event_type_log alert
