-- ===== src/Examples/CredisExamples.antt =====
-- A reply with a status, a bulk string that holds a line end, a null and an empty array, on a buffered
-- reader and a buffered writer.
use ipfs_nosql_frame.Prelude.{
  negsuc, length, ◌<◌, ◌≡◌, ◌⊎◌, refl, arith, true, none, some, [], ◌++◌, ok, err, codes, Bytes,
}
use ipfs_nosql_frame.Credis.Resp.{
  Resp, RespArray, RespList, make, null, items, nil, cons, type_string, type_bulk_bytes, type_array,
}
use ipfs_nosql_frame.Credis.Number
use ipfs_nosql_frame.Credis.Strconv.{parse_int, format_int, format_nat}
use ipfs_nosql_frame.Credis.Itoa
use ipfs_nosql_frame.Credis.Decoder
use ipfs_nosql_frame.Credis.Encoder
use ipfs_nosql_frame.Credis.Encoding
use ipfs_nosql_frame.Credis.Encoding.{encoding, IsValid, nodes}
use ipfs_nosql_frame.Credis.RoundTrip
use ipfs_nosql_frame.Credis.Requests
use ipfs_nosql_frame.Credis.Failures
use ipfs_nosql_frame.Examples.Wires.{bytes_source, bytes_sink}

abbrev bulk_a : Resp
bulk_a = make type_bulk_bytes (some (codes "a\r\n")) null

abbrev reply : Resp
reply = make type_array none (
    items (
      cons (make type_string (some (codes "OK")) null) (
        cons bulk_a
          (cons (make type_bulk_bytes none null) (cons (make type_array none (items nil)) nil)))))

reply-IsValid : IsValid reply
unfolding IsValid
reply-IsValid = ground arith

reply-nodes : nodes reply ≡ 5
unfolding nodes
reply-nodes = refl

abbrev encoder : Encoder.Encoder bytes_sink
encoder = record { bw = record { err = none; buf = []; wr = [] }; err = none }

abbrev decoder : Bytes → Decoder.Decoder bytes_source
decoder s = record { br = record { err = none; window = []; rd = s }; err = none }

encode-encoding_example :
    (e' : Encoder.Encoder bytes_sink) × (Encoder.encode reply true encoder ≡ (none, e'))
    × (e'.err ≡ none)
    × bytes_sink.Wrote ([] ++ encoding reply) e'.bw
encode-encoding_example =
    Encoding.encode-encoding bytes_sink reply true [] encoder reply-IsValid refl
      ([], refl, omega arith, refl, refl)

reply_text : encoding reply ≡ codes "*4\r\n+OK\r\n$3\r\na\r\n\r\n$-1\r\n*0\r\n"
unfolding encoding format_int format_nat
reply_text = refl

reply_held :
    bytes_source.Holds (encoding reply ++ codes "+") (decoder (encoding reply ++ codes "+")).br
reply_held =
    (encoding reply ++ codes "+", refl, omega arith, refl, refl, rw reply_text (omega arith))

decode-encoding_example :
    (d' : Decoder.Decoder bytes_source) × (Decoder.decode 5 (decoder (encoding reply ++ codes "+"))
      ≡ (ok reply, d'))
    × (d'.err ≡ none)
    × bytes_source.Holds (codes "+") d'.br
decode-encoding_example =
    RoundTrip.decode-encoding bytes_source (omega arith) 5 reply (codes "+")
      (decoder (encoding reply ++ codes "+")) (omega (arith, reply-nodes)) reply-IsValid refl
      reply_held

abbrev get_a : RespList
get_a = cons (make type_bulk_bytes (some (codes "GET")) null) (cons bulk_a nil)

get_a-IsRequest : Requests.IsRequest get_a
unfolding IsValid
get_a-IsRequest = ground arith

encode_multi_bulk-request_example :
    (e' : Encoder.Encoder bytes_sink) × (Encoder.encode_multi_bulk (items get_a) true encoder
      ≡ (none, e'))
    × (e'.err ≡ none)
    × bytes_sink.Wrote ([] ++ Requests.request_text get_a) e'.bw
encode_multi_bulk-request_example =
    Requests.encode_multi_bulk-request bytes_sink get_a true [] encoder get_a-IsRequest refl
      ([], refl, omega arith, refl, refl)

get_a_size : length (Requests.request_text get_a ++ codes "*") < 1000
unfolding encoding format_int format_nat
get_a_size = omega arith

get_a_held :
    bytes_source.Holds
      (Requests.request_text get_a ++ codes "*")
      (decoder (Requests.request_text get_a ++ codes "*")).br
get_a_held = (Requests.request_text get_a ++ codes "*", refl, omega arith, refl, refl, get_a_size)

decode_multi_bulk-request_example :
    (d' : Decoder.Decoder bytes_source) × (Decoder.decode_multi_bulk 1
        (decoder (Requests.request_text get_a ++ codes "*"))
      ≡ (ok (items get_a), d'))
    × (d'.err ≡ none)
    × bytes_source.Holds (codes "*") d'.br
decode_multi_bulk-request_example =
    Requests.decode_multi_bulk-request bytes_source (omega arith) 0 get_a (codes "*")
      (decoder (Requests.request_text get_a ++ codes "*")) get_a-IsRequest refl get_a_held

abbrev bad : Decoder.Decoder bytes_source
bad = decoder (codes "?")

decode-Refuses_example :
    (((a : Resp) × ((Decoder.decode 3 bad).0 ≡ ok a) × ((Decoder.decode 3 bad).1.err ≡ none))
      ⊎ ((e : Decoder.DecodeError) × ((Decoder.decode 3 bad).0 ≡ err e)
          × Failures.Refuses (Decoder.decode 3 bad).1))
    × (((a : RespArray) × ((Decoder.decode_multi_bulk 3 bad).0 ≡ ok a)
          × ((Decoder.decode_multi_bulk 3 bad).1.err ≡ none))
        ⊎ ((e : Decoder.DecodeError) × ((Decoder.decode_multi_bulk 3 bad).0 ≡ err e)
            × Failures.Refuses (Decoder.decode_multi_bulk 3 bad).1))
decode-Refuses_example = Failures.decode-Refuses 3 bad

abbrev untyped : Resp
untyped = make 63 none null

btoi64-eq-parse_int_example :
    Number.btoi64 (codes "-9223372036854775808") ≡ parse_int (codes "-9223372036854775808")
btoi64-eq-parse_int_example = Number.btoi64-eq-parse_int (codes "-9223372036854775808")

itoa-eq-format_int_example : Itoa.itoa (negsuc 76) ≡ format_int (negsuc 76)
itoa-eq-format_int_example = Itoa.itoa-eq-format_int (negsuc 76)
