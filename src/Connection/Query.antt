-- ===== src/Connection/Query.antt =====
-- A logged-in connection: batches, remote calls, transaction requests and cancellations.
use py_sqlbridge.Prelude.{
  ℕ, ◌+◌, ◌/◌, ◌%◌, ◌==◌, ◌||◌, Bool, true, false, Option, none, some, List, [], ◌∷◌, ◌++◌, length,
  ltb, if◌then◌else◌, ◌^◌,
}
use py_sqlbridge.Py.Result.{Result, ok, err, protocol_error, overflow_error, handler_error}
use py_sqlbridge.Auth
use py_sqlbridge.Py.Bytes.{Bytes, le_bytes}
use py_sqlbridge.Py.Utf16.{Str}
use py_sqlbridge.Py.Text.{text}
use py_sqlbridge.Py.Effect.{Effect, ◌>>=◌, ◌>>◌, return, raise, lift, modify, read}
use py_sqlbridge.Packet.{Message, PacketType, sql_batch, rpc, attention, transaction_manager, sspi}
use py_sqlbridge.Batch.{parse_sql_batch}
use py_sqlbridge.Rpc.{parse_rpc}
use py_sqlbridge.Transaction.{
  TransactionRequestType, begin_xact, commit_xact, rollback_xact, TransactionRequest,
  parse_transaction_request, transaction_statement,
}
use py_sqlbridge.Token.{
  Notice, EnvChangeType, begin_tran, commit_tran, rollback_tran, raw, env_change, error,
  error_response, done, done_final, done_error, done_attention,
}
use py_sqlbridge.ResultSet.Answer.{QueryFailure}
use py_sqlbridge.Connection.State.{
  World, Connection, Query, Answer, answered, query_error, crashed, Dict, dict_get, dict_set,
}
use py_sqlbridge.Connection.Call.{query_of_call, query_of_batch}
use py_sqlbridge.Connection.Transport.{given, take_message, send}

-- `UNSUPPORTED_PROCEDURE`, `DISTRIBUTED_TRANSACTION_UNSUPPORTED` and the number of a bug's answer.
abbrev own_error : ℕ
own_error = 50000

abbrev pub transaction_key : Str
transaction_key = text "@@__transaction"

-- The tests of `message.status` for the two reset bits.
abbrev pub keeps_transaction : ℕ → Bool
keeps_transaction status = status / 16 % 2 == 1

abbrev pub asks_reset : ℕ → Bool
asks_reset status = status / 8 % 2 == 1 || keeps_transaction status

abbrev append_results : Result Bytes → Result Bytes → Result Bytes
append_results (ok a) (ok b) = ok (a ++ b)
append_results (ok a) (err e) = err e
append_results (err e) _ = err e

-- The second is computed first.
abbrev prepend : Result Bytes → Result Bytes → Result Bytes
prepend _ (err e) = err e
prepend (ok a) (ok b) = ok (a ++ b)
prepend (err e) (ok b) = err e

abbrev pub notice : Str → ℕ → Str → ℕ → ℕ → Notice
notice server number message severity state = record {
  number = number;
  message = message;
  state = state;
  severity = severity;
  server = server;
  procedure = [];
  line = 1;
}

-- `ends_transaction` of `_transaction_envchange`.
abbrev pub ends_transaction : TransactionRequestType → Option Str → Bool
ends_transaction commit_xact name = true
ends_transaction rollback_xact none = true
ends_transaction _ name = false

abbrev pub ending_change : TransactionRequestType → EnvChangeType
ending_change commit_xact = commit_tran
ending_change _ = rollback_tran

abbrev pub is_begin : TransactionRequestType → Bool
is_begin begin_xact = true
is_begin _ = false

module _ (w : World) where
  abbrev pub keep_held : Option w.Object → Connection w → Connection w
  keep_held none c = record c { session = []; xact_descriptor = none }
  keep_held (some o) c =
      if w.is_none o
      then record c { session = []; xact_descriptor = none }
      else record c { session = (transaction_key, o) ∷ [] }

  -- `_reset_the_session`
  unfoldable pub reset_the_session : Bool → Connection w → Connection w
  reset_the_session keep_transaction c =
      keep_held (if keep_transaction then dict_get transaction_key c.session else none) c

  abbrev pub username : Connection w → Option Str
  username c = elim c.acceptor [ none ↦ none | some a ↦ Auth.username w.provider a ]

  -- `_about`
  pub about : Connection w → Dict w.Object
  about c = dict_set (text "server") (w.of_text w.reached_at) (
      dict_set (text "host") (w.of_text (elim c.login [ none ↦ none | some l ↦ some l.host_name ]))
        (dict_set (text "app") (w.of_text (elim c.login [ none ↦ none | some l ↦ some l.app_name ]))
          (dict_set (text "login") (w.of_text (username c)) c.session)))

  -- The handler is called with the connection's session, which it may change.
  unfoldable pub ask : Query → Effect (Connection w) (Answer w.Column w.QueryResult)
  unfolding about
  ask query c =
      let (answer, session) = w.query_handler query (about c) in
      (ok answer, record c { session = session })

  -- `_new_descriptor`
  unfoldable pub new_descriptor : Effect (Connection w) Bytes
  new_descriptor = do
    modify (λ c. record c { descriptor_counter = c.descriptor_counter + 1 })
    c ← read
    if ltb c.descriptor_counter (256 ^ 8)
        then return (le_bytes 8 c.descriptor_counter)
        else raise overflow_error

  abbrev pub end_transaction : TransactionRequestType → Option Bytes → Effect (Connection w) Bytes
  end_transaction kind none = return []
  end_transaction kind (some descriptor) = do
    token ← lift (env_change (ending_change kind) (raw []) (raw descriptor))
    modify (λ c. record c { xact_descriptor = none })
    return token

  -- `_transaction_envchange`
  unfoldable pub transaction_envchange : TransactionRequest → Effect (Connection w) Bytes
  unfolding new_descriptor
  transaction_envchange request =
      if is_begin request.kind
      then (do
        descriptor ← new_descriptor
        modify (λ c. record c { xact_descriptor = some descriptor })
        lift (env_change begin_tran (raw descriptor) (raw [])))
      else if ends_transaction request.kind request.name
      then (do c ← read; end_transaction request.kind c.xact_descriptor)
      else return []

  abbrev pub send_error : Notice → Effect (Connection w) (Unit {0})
  send_error failure = do
    c ← read
    payload ← lift (error_response failure c.tds_version)
    send w payload 1

  -- The end of `_answer_transaction`, by how the handler ended.
  unfoldable pub close_request :
      TransactionRequest → Answer w.Column w.QueryResult → Effect (Connection w) (Unit {0})
  unfolding transaction_envchange
  close_request request (answered _) = do
    change ← transaction_envchange request
    c ← read
    closing ← lift (done done_final 0 0 c.tds_version)
    send w (change ++ closing) 1
  close_request request (query_error e _ _) =
      send_error (notice w.server_name e.number e.message e.severity 1)
  close_request request (crashed _ _) = raise handler_error

  unfoldable pub run_statement : TransactionRequest → Option Str → Effect (Connection w) (Unit {0})
  unfolding ask close_request
  run_statement request none = send_error (
      notice w.server_name own_error (text "pysqlbridge does not support distributed transactions")
        16 1)
  run_statement request (some statement) = do
    modify (λ c. record c { last_query = some statement })
    answer ← ask (query_of_batch statement)
    close_request request answer

  -- `_answer_transaction`
  unfoldable pub answer_transaction : Bytes → Effect (Connection w) (Unit {0})
  unfolding run_statement
  answer_transaction payload = do
    c ← read
    request ← lift (parse_transaction_request payload c.tds_version)
    run_statement request (transaction_statement request)

  abbrev errors_of : QueryFailure → ℕ → Result Bytes
  errors_of e tds_version =
      error (notice w.server_name e.number e.message e.severity e.state) tds_version

  error_tokens : List QueryFailure → ℕ → Result Bytes
  error_tokens [] tds_version = ok []
  error_tokens (e ∷ es) tds_version =
      append_results (errors_of e tds_version) (error_tokens es tds_version)

  -- The payload that an answer is sent as.
  pub payload_of : Answer w.Column Bytes → ℕ → Result Bytes
  unfolding error_tokens
  payload_of (answered payload) tds_version = ok payload
  payload_of (query_error e following columns) tds_version =
      prepend (if length columns == 0 then ok [] else w.col_metadata columns tds_version) (
        append_results (error_tokens (e ∷ following) tds_version) (done done_error 0 0 tds_version))
  payload_of (crashed name message) tds_version =
      error_response
        (notice w.server_name own_error
          (text "pysqlbridge could not answer that: " ++ (name ++ (text ": " ++ message))) 16 1)
        tds_version

  abbrev pub encoded : Answer w.Column w.QueryResult → ℕ → Answer w.Column Bytes
  encoded (answered r) tds_version = w.encode r tds_version w.server_name
  encoded (query_error e following columns) tds_version = query_error e following columns
  encoded (crashed name message) tds_version = crashed name message

  -- A query is asked of the handler, and its answer sent.
  unfoldable pub answer_query : Query → Effect (Connection w) (Unit {0})
  unfolding ask payload_of
  answer_query query = do
    modify (λ c. record c { last_query = some query.sql })
    answer ← ask query
    c ← read
    payload ← lift (payload_of (encoded answer c.tds_version) c.tds_version)
    send w payload 1

  abbrev pub count_request : Effect (Connection w) (Unit {0})
  count_request = modify (λ c. record c { asked = c.asked + 1 })

  -- A message's own part of `_step_query`, by its type.
  unfoldable pub answer_message : PacketType → Bytes → Effect (Connection w) (Unit {0})
  unfolding answer_transaction answer_query
  answer_message sspi payload = return tt
  answer_message transaction_manager payload = do count_request; answer_transaction payload
  answer_message sql_batch payload = do
    count_request
    c ← read
    sql ← lift (parse_sql_batch payload c.tds_version)
    answer_query (query_of_batch sql)
  answer_message rpc payload = do
    count_request
    c ← read
    call ← lift (parse_rpc payload c.tds_version)
    answer_query (query_of_call call)
  answer_message attention payload = do
    count_request
    c ← read
    closing ← lift (done (done_final + done_attention) 0 0 c.tds_version)
    send w closing 1
  answer_message _ payload = do count_request; raise protocol_error

  -- A message is answered, behind the reset that its status asks for.
  unfoldable pub answer_one : Message → Effect (Connection w) Bool
  unfolding reset_the_session answer_message
  answer_one m = do
    if asks_reset m.status
        then modify (reset_the_session (keeps_transaction m.status))
        else return tt
    answer_message m.type m.payload
    return true

  unfoldable pub step_query : Effect (Connection w) Bool
  unfolding answer_one
  step_query = do message ← take_message w; given message false answer_one
