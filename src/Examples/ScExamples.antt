-- ===== src/Examples/ScExamples.antt =====
-- The proxy before a cluster that answers every command with the number 1 and counts them, with one node,
-- a:1, for every key. The rules, the marshallers and the limiter are as small as they can be.
use ipfs_nosql_frame.Prelude.{
  ℕ, suc, ◌%◌, ◌^◌, ◌≡◌, ◌⊎◌, refl, arith, ℤ, pos, negsuc, true, false, Option, none, some, List,
  [], ◌∷◌, ◌++◌, Bytes, codes, ok, length,
}
use mathlib.Core.Option
use ipfs_nosql_frame.Credis.Decoder.{Decoder}
use ipfs_nosql_frame.Credis.Resp.{
  Resp, RespList, make, null, items, nil, cons, type_array, type_bulk_bytes,
}
use ipfs_nosql_frame.Credis.Encoding.{encoding, IsValid, nodes}
use ipfs_nosql_frame.Credis.Strconv.{format_int, format_nat}
use ipfs_nosql_frame.Rediscluster.Replies.{integer, equal}
use ipfs_nosql_frame.Rediscluster.Lists.{StringMap}
use ipfs_nosql_frame.Rediscluster.Cluster.Batches.{to_upper}
use ipfs_nosql_frame.RespEcho.Writer
use ipfs_nosql_frame.RespEcho.Written
use ipfs_nosql_frame.Sc.Table.{lookup, insert}
use ipfs_nosql_frame.Sc.Backend.{Backend}
use ipfs_nosql_frame.Sc.Reporter.{unit_at, new_reporter, sc_log}
use ipfs_nosql_frame.Sc.Filter
use ipfs_nosql_frame.Sc.Filter.{Rule, Filter, empty_rule, get_filter_rule, get_data, shard_key}
use ipfs_nosql_frame.Sc.Monitor.{gather, monitor_round}
use ipfs_nosql_frame.Sc.Monitored
use ipfs_nosql_frame.Sc.Alerts.{MspEvent}
use ipfs_nosql_frame.Sc.Reports.{measure}
use ipfs_nosql_frame.Sc.Counts
use ipfs_nosql_frame.Sc.Counts.{Counted, rpush, lpop, run, rpushes, lpops}
use ipfs_nosql_frame.Sc.Session.{Session, Moment, refuse}
use ipfs_nosql_frame.Sc.Rpush
use ipfs_nosql_frame.Sc.Rpush.{handle_rpush}
use ipfs_nosql_frame.Sc.Handler.{handle, serve}
use ipfs_nosql_frame.Sc.Served
use ipfs_nosql_frame.Sc.Served.{requests_text, moments_of, handle_all}
use ipfs_nosql_frame.Sc.Pushes
use ipfs_nosql_frame.Sc.Pushes.{Refused, Pushed, IsAdmitted, passes}
use ipfs_nosql_frame.Sc.Limits
use ipfs_nosql_frame.Sc.Splitting
use ipfs_nosql_frame.Sc.Splitting.{ping_request, two_lines, two_replies}
use ipfs_nosql_frame.Examples.Wires.{bytes_source, outbound}

abbrev one_node : Backend ℕ
one_node = record {
  World = ℕ;
  do_command = λ cmd args w. ((integer (pos 1), none), suc w);
  get_node_addr_by_key = λ key w. ok (codes "a:1");
}

-- A limiter that always refuses.
abbrev refuse_all : ℕ → Bytes → ℕ → (ℤ × ℤ) × ℕ
refuse_all l key w = ((negsuc 0, pos 1), suc w)

abbrev no_event : MspEvent → Option Bytes
no_event e = none

abbrev no_map : StringMap → Option Bytes
no_map m = none

abbrev off : Filter ℕ ℕ
off = record { enable = false; rules = []; data_hash = 0 }

abbrev at_five : Moment ℕ ℕ
at_five = record {
  now = 5;
  listed = off;
  ruled = off;
  limited = off;
  pinged = off;
  sample = 0;
  shard = 2;
  alert = 0;
}

abbrev fresh : Session outbound one_node
fresh = record { out = []; closed = false; reporter = []; world = 0 }

abbrev bulk_of : Bytes → Resp
bulk_of s = make type_bulk_bytes (some s) null

abbrev ping : Resp
ping = make type_array none (items (cons (bulk_of (codes "PING")) nil))

abbrev push_a : RespList
push_a =
    cons (bulk_of (codes "RPUSH")) (cons (bulk_of (codes "a")) (cons (bulk_of (codes "v")) nil))

abbrev requests : List (Moment ℕ ℕ × Resp)
requests = (at_five, make type_array none (items push_a)) ∷ (at_five, ping) ∷ []

abbrev decoder : Bytes → Decoder bytes_source
decoder s = record { br = record { err = none; window = []; rd = s }; err = none }

abbrev handler : Moment ℕ ℕ → Resp → Session outbound one_node → Session outbound one_node
handler = handle outbound one_node refuse_all no_event no_map 3

requests_valid : Served.AreServed 9 requests
unfolding IsValid nodes
requests_valid = ground arith

requests-text :
    requests_text requests ++ []
    ≡ codes "*3\r\n$5\r\nRPUSH\r\n$1\r\na\r\n$1\r\nv\r\n*1\r\n$4\r\nPING\r\n"
unfolding encoding format_int format_nat
requests-text = refl

requests_held :
    bytes_source.Holds (requests_text requests ++ []) (decoder (requests_text requests ++ [])).br
requests_held =
    (requests_text requests ++ [], refl, omega arith, refl, refl, rw requests-text (omega arith))

serve-handle_all_example :
    (serve outbound one_node refuse_all no_event no_map 3 9
      (moments_of requests)
      (decoder (requests_text requests ++ []))
      fresh).1
    ≡ handle_all outbound one_node refuse_all no_event no_map 3 requests fresh
serve-handle_all_example =
    Served.serve-handle_all outbound one_node refuse_all no_event no_map 3 9 requests []
      (decoder (requests_text requests ++ [])) fresh (omega arith) requests_valid refl requests_held

handle_rpush_cases_example :
    let s' = handle_rpush outbound one_node refuse_all no_event 3 at_five push_a fresh in
    ((passes outbound one_node refuse_all no_event 3 at_five (codes "a") push_a 0 ≡ true)
      × Pushed outbound one_node refuse_all no_event 3 at_five (codes "a") push_a fresh s')
    ⊎ ((passes outbound one_node refuse_all no_event 3 at_five (codes "a") push_a 0 ≡ false)
        × Refused outbound one_node refuse_all no_event 3 at_five (codes "a") push_a fresh s')
unfolding equal
handle_rpush_cases_example =
    Pushes.handle_rpush_cases outbound one_node refuse_all no_event 3 at_five push_a fresh

-- A rule for a that allows one push, without a warning length, and one for sc_log.
abbrev rule_a : Rule ℕ
rule_a = record (empty_rule (codes "a")) {
  rate_limit = pos 1;
  length = pos 7;
  rate_limiter = some 0;
}

abbrev rule_log : Rule ℕ
rule_log = record (empty_rule sc_log) {
  rate_limit = pos 1;
  length = pos 7;
  warning_length = pos 1000;
  rate_limiter = some 0;
}

abbrev ruled : Filter ℕ ℕ
ruled = record {
  enable = true;
  rules = (codes "a", rule_a) ∷ (sc_log, rule_log) ∷ [];
  data_hash = 0;
}

abbrev limited_moment : Moment ℕ ℕ
limited_moment = record at_five { listed = ruled; ruled = ruled; limited = ruled; pinged = ruled }

abbrev push_log : RespList
push_log = cons (bulk_of (codes "RPUSH")) (cons (bulk_of sc_log) (cons (bulk_of (codes "v")) nil))

no_shard_rule : lookup (shard_key sc_log 2) (get_data ruled) ≡ none
unfolding lookup insert get_data format_nat equal
no_shard_rule = refl

push_log-IsAdmitted : IsAdmitted outbound one_node refuse_all no_event 3 limited_moment push_log
unfolding Filter.is_exist_in_filter_list get_filter_rule lookup Filter.le_ℤ equal
push_log-IsAdmitted = (refl, refl, refl, refl)

handle_rpush_unlimited_example :
    let terms = get_filter_rule sc_log ruled in
    handle_rpush outbound one_node refuse_all no_event 3 limited_moment push_log fresh
    ≡ Rpush.push outbound one_node refuse_all no_event 3 limited_moment sc_log
        (shard_key sc_log 2)
        (codes "v")
        (Rpush.expire_or_default terms.expire)
        (record fresh {
          world =
              Pushes.after_limiter outbound one_node refuse_all no_event 3 limited_moment
                terms.limiter
                (shard_key sc_log 2)
                0;
        })
handle_rpush_unlimited_example =
    Limits.handle_rpush_unlimited outbound one_node refuse_all no_event 3 limited_moment push_log
      fresh refl refl refl no_shard_rule push_log-IsAdmitted

found_a : lookup (codes "a") ruled.rules ≡ some rule_a
unfolding lookup equal
found_a = refl

a_listed : Filter.is_exist_in_filter_list (codes "a") ruled ≡ true
unfolding Filter.is_exist_in_filter_list lookup equal
a_listed = refl

handle_rpush_unset_example :
    let s' = handle_rpush outbound one_node refuse_all no_event 3 limited_moment push_a fresh in
    (measure one_node no_event 5 (codes "a") (lookup (codes "a") ruled.rules) 0 ≡ (pos 7, 0))
    × (s' ≡ refuse (codes "this log has been discarded because of too long length") fresh)
    × (s'.closed ≡ true)
    × (s'.reporter ≡ fresh.reporter)
    × (s'.world ≡ fresh.world)
handle_rpush_unset_example =
    Limits.handle_rpush_unset outbound one_node refuse_all no_event 3 limited_moment push_a 7 rule_a
      fresh refl a_listed refl found_a refl refl refl (omega arith)

not_keys : equal (to_upper (two_lines (codes "ok") b'-' (codes "no"))) (codes "KEYSDATA") ≡ false
unfolding equal
not_keys = refl

handle-two_replies_example :
    (handle outbound one_node refuse_all no_event no_map 3 at_five
      (ping_request (two_lines (codes "ok") b'-' (codes "no")))
      fresh).out
    ≡ [] ++ two_replies (codes "ok") b'-' (codes "no")
handle-two_replies_example =
    Splitting.handle-two_replies outbound one_node refuse_all no_event no_map 3 at_five (codes "ok")
      (codes "no") [] b'-' fresh refl not_keys refl

abbrev commands : List Counted
commands = rpush 1 (codes "a") ∷ lpop 2 (codes "a") ∷ rpush 3 (codes "a") ∷ []

run-counts_example :
    ((unit_at (codes "a") (run commands new_reporter)).rpush_count
      ≡ rpushes (codes "a") commands % 2 ^ 64)
    × ((unit_at (codes "a") (run commands new_reporter)).lpop_count
        ≡ lpops (codes "a") commands % 2 ^ 64)
run-counts_example = Counts.run-counts commands (codes "a")

abbrev unmarshal : Bytes → Option (List (Rule ℕ))
unmarshal body = some (rule_a ∷ [])

abbrev new_limiter : ℤ → ℕ → Option ℕ × ℕ
new_limiter limit w = (some 0, suc w)

monitor_round_whole_example :
    let f' =
      (monitor_round one_node unmarshal length new_limiter
        (codes "own")
        3
        (some [])
        []
        ruled
        0).1 in
    (f' ≡ ruled)
    ⊎ ((rules : List (Rule ℕ)) × (gather unmarshal (codes "own") (some []) [] ≡ some rules)
        × ((k : Bytes)
            → Option.map Monitored.said (lookup k f'.rules) ≡ Monitored.last_said k rules none))
monitor_round_whole_example =
    Monitored.monitor_round_whole one_node unmarshal length new_limiter (codes "own") 3 (some []) []
      ruled 0

abbrev objects : Option (List Writer.Obj)
objects = some (Writer.string (codes "a") ∷ Writer.int64 (pos 5) ∷ Writer.nothing ∷ [])

write_objects-encoding_example :
    (c : Bytes) × (Writer.write_objects outbound objects (codes "+") ≡ (none, c))
    × (c ≡ codes "+" ++ encoding (Written.objects_resp outbound objects))
write_objects-encoding_example =
    Written.write_objects-encoding outbound objects (tt, (tt, (tt, tt))) (codes "+") (codes "+")
      refl
