-- ===== src/Packet/Tests.antt =====
-- Runs of the framing on concrete buffers, and the theorems at concrete inputs.
use py_sqlbridge.Prelude.{
  ◌+◌, ◌≤◌, ◌≡◌, ◌≢◌, refl, arith, some, none, List, [], ◌∷◌, ◌++◌, All, length, concat, take,
}
use py_sqlbridge.Py.Result.{ok, err, protocol_error}
use py_sqlbridge.Py.Bytes.{Bytes, pack_be, unpack_be}
use py_sqlbridge.Packet.{
  Message, sql_batch, prelogin, parse_header, next_session_id, pack_header, build_packet,
  build_message, reassemble,
}
use py_sqlbridge.Packet.Session.{next_session_id_distinct}
use py_sqlbridge.Packet.RoundTrip.{opening_status, reassemble-build_message}
use py_sqlbridge.Packet.Prefix.{reassemble_needs_all}
use py_sqlbridge.Packet.Progress.{reassemble_errors, reassemble_bounds}

-- Three bytes in packets of ten: two and one.
abbrev three : Bytes
three = 1 ∷ 2 ∷ 3 ∷ []

abbrev two_packets : List Bytes
two_packets =
    (0x01 ∷ 0x00 ∷ 0 ∷ 10 ∷ 0 ∷ 51 ∷ 1 ∷ 0 ∷ 1 ∷ 2 ∷ [])
    ∷ (0x01 ∷ 0x01 ∷ 0 ∷ 9 ∷ 0 ∷ 51 ∷ 2 ∷ 0 ∷ 3 ∷ [])
    ∷ []

build_three : build_message sql_batch three 10 51 1 ≡ ok two_packets
unfolding build_message build_packet pack_header pack_be
build_three = refl

-- An empty payload still takes a packet.
build_empty : build_message prelogin [] 4096 0 1 ≡ ok ((0x12 ∷ 1 ∷ 0 ∷ 8 ∷ 0 ∷ 0 ∷ 1 ∷ 0 ∷ []) ∷ [])
unfolding build_message build_packet pack_header pack_be
build_empty = refl

abbrev unknown_type : Bytes
unknown_type = 0x02 ∷ 0x01 ∷ 0 ∷ 8 ∷ 0 ∷ 0 ∷ 1 ∷ 0 ∷ []

refuse_unknown : reassemble unknown_type ≡ err protocol_error
unfolding reassemble parse_header unpack_be
refuse_unknown = refl

abbrev three_message : Message
three_message = record { type = sql_batch; payload = three; consumed = 19; status = 0 }

join_three : reassemble (concat two_packets ++ (7 ∷ [])) ≡ ok (some three_message)
unfolding reassemble parse_header unpack_be
join_three = refl

wrapped_session : (next_session_id 65536).0 ≡ 51
unfolding next_session_id
wrapped_session = refl

reassemble-build_message_example :
    (packets : List Bytes) × (build_message sql_batch three 10 51 1 ≡ ok packets)
    × All (λ p. length p ≤ 10) packets
    × (reassemble (concat packets ++ (7 ∷ []))
        ≡ ok (
            some (record {
              type = sql_batch;
              payload = three;
              consumed = length (concat packets);
              status = opening_status 10 three;
            })))
reassemble-build_message_example =
    reassemble-build_message sql_batch three 10 51 1 (7 ∷ []) (omega arith) (omega arith)
      (omega arith)

reassemble_needs_all_example : reassemble (take 18 (concat two_packets)) ≡ ok none
reassemble_needs_all_example =
    reassemble_needs_all sql_batch three 10 51 1 18 two_packets (omega arith) (omega arith)
      (omega arith) build_three (omega arith)

reassemble_errors_example : protocol_error ≡ protocol_error
reassemble_errors_example = reassemble_errors unknown_type protocol_error refuse_unknown

reassemble_bounds_example : (8 ≤ 19) × (19 ≤ 20) × (3 + 8 ≤ 19)
reassemble_bounds_example =
    reassemble_bounds (concat two_packets ++ (7 ∷ [])) three_message join_three

next_session_id_distinct_example :
    (51 ≤ (next_session_id (51 + 0)).0)
    × ((next_session_id (51 + 0)).0 ≤ 65535)
    × ((next_session_id (51 + 0)).1 ≡ 51 + 0 + 1)
    × ((next_session_id (51 + 0)).0 ≢ (next_session_id (51 + 65484)).0)
next_session_id_distinct_example =
    next_session_id_distinct 51 0 65484 (omega arith) (omega arith) (omega arith)
