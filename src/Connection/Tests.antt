-- ===== src/Connection/Tests.antt =====
-- A login through a TLS engine that passes bytes on, and a security package that accepts a token.
use py_sqlbridge.Connection.Handshake.{step_prelogin, step_handshake, step_login}
use py_sqlbridge.Transaction.{TransactionRequest, begin_xact, commit_xact}
use py_sqlbridge.Connection.Query.{
  step_query, new_descriptor, transaction_envchange, reset_the_session,
}
use py_sqlbridge.Connection.Transactions.{
  Ledger, serve, keeping, Served, transaction_envchange_refines,
}
use py_sqlbridge.Connection.Transactions.Fresh.{
  Keeps, begun_by, Run, stop, reset, requested, Ascending, transaction_descriptors_ascend,
}
use py_sqlbridge.Connection.Transport.{take_message, take_clear, take_plain, through, decrypt, send}
use py_sqlbridge.Login.{read_string, read_pair, read_password, slice_of}
use py_sqlbridge.Versions.{negotiate}
use py_sqlbridge.Token.{
  login_response, env_change, encode_env, frame_token, info, message_body, login_ack, done,
  b_varchar, us_varchar,
}
use py_sqlbridge.Py.Decimal.{decimal}
use py_sqlbridge.Login
use py_sqlbridge.Prelogin
use py_sqlbridge.Auth
use py_sqlbridge.Prelude.{
  ℕ, zero, suc, ◌≡◌, refl, Bool, true, false, Option, some, none, List, [], ◌∷◌, ◌++◌, arith,
}
use py_sqlbridge.Py.Result.{Result, err, protocol_error, ok}
use py_sqlbridge.Py.Bytes.{Bytes, unpack_be, unpack_le, index, pack_be, pack_le, byte}
use py_sqlbridge.Py.Utf16.{Str, encode_utf16, decode_utf16}
use py_sqlbridge.Py.Text.{text}
use py_sqlbridge.Packet.{
  build_packet, reassemble, parse_header, pack_header, build_message, next_session_id,
}
use py_sqlbridge.Prelogin.{
  sql_server_2025, off, parse_from, encryption_of, get, server_response, pack_version, build,
  build_from, pack_entry,
}
use py_sqlbridge.Tls.{Engine, established, advance_handshake, unwrap, wrap, wrap_handshake}
use py_sqlbridge.Auth.{Provider, sec_e_ok}
use py_sqlbridge.Connection.State.{World, Connection, ready, answered, new_connection}
use py_sqlbridge.Connection.Receive.{receive, step}
use py_sqlbridge.Connection.Receive.Admission.{IsAdmitted}
use py_sqlbridge.Connection.Receive.Failure.{receive_fails_for_good}
use py_sqlbridge.Connection.Receive.Reached.{IsReached, made, received, ready-IsAdmitted}

abbrev plain_engine : Engine
plain_engine = record {
  State = Bytes;
  fresh = [];
  write_incoming = λ waiting arrived. waiting ++ arrived;
  do_handshake = λ waiting. (established, []);
  read_all = λ waiting. (ok waiting, []);
  write = λ waiting out. (true, waiting ++ out);
  read_outgoing = λ waiting. (waiting, []);
}

abbrev open_provider : Provider
open_provider = record {
  Context = Unit {0};
  fresh = ok tt;
  authorize = λ context token. (sec_e_ok [], tt);
  names = λ context. some (text "user");
}

abbrev world : World
world = record {
  engine = plain_engine;
  provider = open_provider;
  Object = Option Str;
  of_text = λ o. o;
  is_none = λ o. elim o [ none ↦ true | some _ ↦ false ];
  Column = Unit {0};
  QueryResult = Unit {0};
  query_handler = λ query session. (answered tt, session);
  encode = λ result tds_version server. answered [];
  col_metadata = λ columns tds_version. ok [];
  logins = none;
  version = sql_server_2025;
  encryption = off;
  server_name = text "host";
  database = text "master";
  reached_at = none;
}

-- PRELOGIN without options, one handshake message, and LOGIN7 with the token 7.
abbrev zeros : ℕ → Bytes
zeros zero = []
zeros (suc n) = 0 ∷ zeros n

abbrev login_message : Bytes
login_message =
    0x10
    ∷ 1
    ∷ 0
    ∷ 103
    ∷ 0
    ∷ 0
    ∷ 1
    ∷ 0
    ∷ 95
    ∷ 0
    ∷ 0
    ∷ 0
    ∷ 4
    ∷ 0
    ∷ 0
    ∷ 0x74
    ∷ (zeros 70 ++ (94 ∷ 0 ∷ 1 ∷ 0 ∷ (zeros 12 ++ 7 ∷ [])))

abbrev hello : Bytes
hello =
    0x12 ∷ 1 ∷ 0 ∷ 9 ∷ 0 ∷ 0 ∷ 1 ∷ 0 ∷ 255 ∷ 0x12 ∷ 1 ∷ 0 ∷ 9 ∷ 0 ∷ 0 ∷ 1 ∷ 0 ∷ 1 ∷ login_message

abbrev connection_of : Option (Result (List Bytes) × Connection world) → Connection world
connection_of none = new_connection world 51
connection_of (some (r, c)) = c

abbrev answers_of : Option (Result (List Bytes) × Connection world) → Result (List Bytes)
answers_of none = ok []
answers_of (some (r, c)) = r

abbrev is_there : Option (Result (List Bytes) × Connection world) → Bool
is_there none = false
is_there (some x) = true

found :
    (o : Option (Result (List Bytes) × Connection world))
    → is_there o ≡ true
    → o ≡ some (answers_of o, connection_of o)
found none e = cc
found (some (r, c)) e = refl

abbrev after_hello : Option (Result (List Bytes) × Connection world)
after_hello = receive world 5 (new_connection world 51) hello

hello_runs : (is_there after_hello ≡ true) × ((connection_of after_hello).state ≡ ready)
unfolding receive step new_connection step_prelogin step_handshake step_login take_clear take_plain
    through decrypt send reassemble parse_header build_packet pack_header build_message
    next_session_id unpack_be unpack_le index pack_be pack_le byte Prelogin.parse parse_from
    encryption_of get server_response pack_version build build_from pack_entry advance_handshake
    unwrap wrap wrap_handshake read_string read_pair read_password slice_of negotiate login_response
    env_change encode_env frame_token info message_body login_ack done b_varchar us_varchar
    encode_utf16 decode_utf16 decimal Login.parse Auth.step step_query take_message
hello_runs = (refl, refl)

hello_arrives : IsReached world (connection_of after_hello)
hello_arrives =
    received 5 (new_connection world 51) hello (answers_of after_hello) (connection_of after_hello)
      (made 51) (found after_hello hello_runs.0)

ready-IsAdmitted_example : IsAdmitted world (connection_of after_hello)
ready-IsAdmitted_example = ready-IsAdmitted (connection_of after_hello) hello_arrives hello_runs.1

-- A packet of a type that there is not.
abbrev garbage : Bytes
garbage = 0x02 ∷ 1 ∷ 0 ∷ 8 ∷ 0 ∷ 0 ∷ 1 ∷ 0 ∷ []

abbrev after_garbage : Option (Result (List Bytes) × Connection world)
after_garbage = receive world 5 (new_connection world 51) garbage

garbage_fails : after_garbage ≡ some (err protocol_error, connection_of after_garbage)
unfolding receive step new_connection step_prelogin take_clear reassemble parse_header unpack_be
garbage_fails = refl

receive_fails_for_good_example :
    receive world 5 (connection_of after_garbage) hello
    ≡ some (err protocol_error, connection_of after_garbage)
receive_fails_for_good_example =
    receive_fails_for_good 5 (new_connection world 51) garbage (connection_of after_garbage)
      protocol_error garbage_fails 5 hello

-- A transaction is begun and committed, and another is begun behind a reset.
abbrev begin_request : TransactionRequest
begin_request = record { kind = begin_xact; name = none }

abbrev commit_request : TransactionRequest
commit_request = record { kind = commit_xact; name = none }

abbrev token_of : Result Bytes → Bytes
token_of (ok token) = token
token_of (err e) = []

abbrev served : TransactionRequest → Connection world → Result Bytes × Connection world
served request c = transaction_envchange world request c

abbrev fresh : Connection world
fresh = new_connection world 51

abbrev one_begun : Connection world
one_begun = (served begin_request fresh).1

abbrev one_ended : Connection world
one_ended = (served commit_request one_begun).1

abbrev reset_one : Connection world
reset_one = reset_the_session world false one_ended

abbrev two_begun : Connection world
two_begun = (served begin_request reset_one).1

abbrev Serves : TransactionRequest → Connection world → Type 0
Serves request c = served request c ≡ (ok (token_of (served request c).0), (served request c).1)

all_served :
    Serves begin_request fresh × Serves commit_request one_begun × Serves begin_request reset_one
unfolding transaction_envchange new_descriptor new_connection env_change encode_env frame_token
    pack_le byte reset_the_session
all_served = (refl, refl, refl)

abbrev descriptors : List Bytes
descriptors =
    begun_by begin_xact one_begun.xact_descriptor
    ++ (begun_by commit_xact one_ended.xact_descriptor
        ++ (begun_by begin_xact two_begun.xact_descriptor ++ []))

three_requests : Run world fresh descriptors two_begun
three_requests = requested fresh one_begun two_begun begin_request _ _ (all_served.0) (
    requested one_begun one_ended two_begun commit_request _ _ (all_served.1) (
      reset one_ended two_begun false _ (
        requested reset_one two_begun two_begun begin_request _ _ (all_served.2) (stop two_begun))))

abbrev nothing_begun : Ledger
nothing_begun = record { count = 0; open_ = none }

fresh-Keeps : Keeps fresh nothing_begun
unfolding new_connection
fresh-Keeps = record { counted = refl; held = refl; begun = tt }

transaction_descriptors_ascend_example :
    Ascending 0 descriptors two_begun.descriptor_counter × ((m : Ledger) × Keeps two_begun m)
transaction_descriptors_ascend_example =
    transaction_descriptors_ascend fresh two_begun descriptors nothing_begun fresh-Keeps
      three_requests

transaction_envchange_refines_example :
    Served begin_request (keeping fresh nothing_begun) (serve begin_xact none nothing_begun)
transaction_envchange_refines_example =
    transaction_envchange_refines fresh nothing_begun begin_request (λ e. omega arith)
