-- ===== src/Connection/Receive/Queries.antt =====
-- The answers of a logged-in connection, and what they change of its admission.
use py_sqlbridge.Prelude.{
  refl, Bool, true, false, Option, none, some, [], if◌then◌else◌, ltb, ◌^◌, ◌+◌,
}
use py_sqlbridge.Py.Result.{protocol_error, overflow_error, handler_error}
use py_sqlbridge.Py.Bytes.{Bytes, le_bytes}
use py_sqlbridge.Py.Utf16.{Str}
use py_sqlbridge.Py.Effect.{return, lift, modify, raise}
use py_sqlbridge.Packet.{
  Message, PacketType, sql_batch, rpc, tabular_result, attention, bulk_load, transaction_manager,
  login7, sspi, prelogin,
}
use py_sqlbridge.Batch.{parse_sql_batch}
use py_sqlbridge.Rpc.{parse_rpc}
use py_sqlbridge.Transaction.{
  TransactionRequest, TransactionRequestType, parse_transaction_request, transaction_statement,
}
use py_sqlbridge.Token.{
  Notice, raw, begin_tran, env_change, error_response, done, done_final, done_attention,
}
use py_sqlbridge.Connection.State.{
  World, Connection, Query, Answer, answered, query_error, crashed, dict_get,
}
use py_sqlbridge.Connection.Transport.{take_message}
use py_sqlbridge.Connection.Call.{query_of_batch, query_of_call}
use py_sqlbridge.Connection.Query.{
  transaction_key, keeps_transaction, asks_reset, ends_transaction, ending_change, is_begin,
  keep_held, reset_the_session, ask, new_descriptor, end_transaction, transaction_envchange,
  send_error, close_request, run_statement, answer_transaction, payload_of, encoded, answer_query,
  count_request, answer_message, answer_one, step_query,
}
use py_sqlbridge.Py.Effect.Frame.{
  Frames, Frames-return, Frames-raise, Frames-lift, Frames-if, Frames-bind, Frames-read,
  Frames-modify,
}
use py_sqlbridge.Connection.Receive.Frame.{
  Same, Aside, Same-Aside, same, aside, kept, left, Frames-given, take_message-Frames, send-Frames,
}

module _ {w : World} where
  Aside-if :
      (b : Bool) (c d e : Connection w) → Aside c d → Aside c e → Aside c (if b then d else e)
  Aside-if true c d e h k = h
  Aside-if false c d e h k = k

  keep_held-Aside : (o : Option w.Object) (c : Connection w) → Aside c (keep_held w o c)
  keep_held-Aside none c = (kept refl refl refl, left refl refl)
  keep_held-Aside (some o) c =
      Aside-if (w.is_none o) c _ _ (kept refl refl refl, left refl refl)
        (kept refl refl refl, left refl refl)

  reset_the_session-Aside : (keep : Bool) (c : Connection w) → Aside c (reset_the_session w keep c)
  unfolding reset_the_session
  reset_the_session-Aside keep c =
      keep_held-Aside (if keep then dict_get transaction_key c.session else none) c

  ask-Frames : (query : Query) → Frames Aside (ask w query)
  unfolding ask
  ask-Frames query c = (kept refl refl refl, left refl refl)

  send_error-Frames : (failure : Notice) → Frames Aside (send_error w failure)
  send_error-Frames failure = Frames-read aside _ (λ c.
      Frames-bind aside (lift (error_response failure c.tds_version)) _
        (Frames-lift aside (error_response failure c.tds_version))
        (λ payload. send-Frames payload 1))

  new_descriptor-Frames : Frames Aside (new_descriptor w)
  unfolding new_descriptor
  new_descriptor-Frames =
      Frames-bind aside (modify (λ c. record c { descriptor_counter = c.descriptor_counter + 1 })) _
        (Frames-modify aside _ (λ c. (kept refl refl refl, left refl refl)))
        (λ _. Frames-read aside _ (λ c.
          Frames-if aside (ltb c.descriptor_counter (256 ^ 8))
            (return (le_bytes 8 c.descriptor_counter)) (raise overflow_error)
            (Frames-return aside (le_bytes 8 c.descriptor_counter))
            (Frames-raise aside Bytes overflow_error)))

  end_transaction-Frames :
      (kind : TransactionRequestType) (o : Option Bytes) → Frames Aside (end_transaction w kind o)
  end_transaction-Frames kind none = Frames-return {A = Bytes} aside []
  end_transaction-Frames kind (some descriptor) =
      Frames-bind aside (lift (env_change (ending_change kind) (raw []) (raw descriptor))) _
        (Frames-lift aside (env_change (ending_change kind) (raw []) (raw descriptor)))
        (λ token c. (kept refl refl refl, left refl refl))

  transaction_envchange-Frames :
      (request : TransactionRequest) → Frames Aside (transaction_envchange w request)
  unfolding transaction_envchange
  transaction_envchange-Frames request =
      Frames-if aside (is_begin request.kind) _ _
        (Frames-bind aside (new_descriptor w) _ new_descriptor-Frames (λ descriptor.
          Frames-bind aside (modify (λ c. record c { xact_descriptor = some descriptor })) _
            (Frames-modify aside _ (λ c. (kept refl refl refl, left refl refl)))
            (λ _. Frames-lift aside (env_change begin_tran (raw descriptor) (raw [])))))
        (Frames-if aside (ends_transaction request.kind request.name) _ (return [])
          (Frames-read aside _ (λ c. end_transaction-Frames request.kind c.xact_descriptor))
          (Frames-return {A = Bytes} aside []))

  close_request-Frames :
      (request : TransactionRequest) (a : Answer w.Column w.QueryResult)
      → Frames Aside (close_request w request a)
  unfolding close_request
  close_request-Frames request (answered _) =
      Frames-bind aside (transaction_envchange w request) _ (transaction_envchange-Frames request)
        (λ change. Frames-read aside _ (λ c.
          Frames-bind aside (lift (done done_final 0 0 c.tds_version)) _
            (Frames-lift aside (done done_final 0 0 c.tds_version)) (λ closing. send-Frames _ 1)))
  close_request-Frames request (query_error e _ _) = send_error-Frames _
  close_request-Frames request (crashed _ _) = Frames-raise aside (Unit {0}) handler_error

  run_statement-Frames :
      (request : TransactionRequest) (o : Option Str) → Frames Aside (run_statement w request o)
  unfolding run_statement
  run_statement-Frames request none = send_error-Frames _
  run_statement-Frames request (some statement) =
      Frames-bind aside (modify (λ c. record c { last_query = some statement })) _
        (Frames-modify aside _ (λ c. (kept refl refl refl, left refl refl)))
        (λ _.
          Frames-bind aside (ask w (query_of_batch statement)) _ (ask-Frames _)
            (λ answer. close_request-Frames request answer))

  answer_transaction-Frames : (payload : Bytes) → Frames Aside (answer_transaction w payload)
  unfolding answer_transaction
  answer_transaction-Frames payload = Frames-read aside _ (λ c.
      Frames-bind aside (lift (parse_transaction_request payload c.tds_version)) _
        (Frames-lift aside (parse_transaction_request payload c.tds_version))
        (λ request. run_statement-Frames request (transaction_statement request)))

  answer_query-Frames : (query : Query) → Frames Aside (answer_query w query)
  unfolding answer_query
  answer_query-Frames query =
      Frames-bind aside (modify (λ c. record c { last_query = some query.sql })) _
        (Frames-modify aside _ (λ c. (kept refl refl refl, left refl refl)))
        (λ _. Frames-bind aside (ask w query) _ (ask-Frames query) (λ answer.
          Frames-read aside _ (λ c.
            Frames-bind aside (lift (payload_of w (encoded w answer c.tds_version) c.tds_version)) _
              (Frames-lift aside (payload_of w (encoded w answer c.tds_version) c.tds_version))
              (λ payload. send-Frames payload 1))))

  count_request-Frames : Frames Aside (count_request w)
  count_request-Frames = Frames-modify aside _ (λ c. (kept refl refl refl, left refl refl))

  answer_message-Frames :
      (type : PacketType) (payload : Bytes) → Frames Aside (answer_message w type payload)
  unfolding answer_message
  answer_message-Frames sspi payload = Frames-return aside tt
  answer_message-Frames transaction_manager payload =
      Frames-bind aside (count_request w) _ count_request-Frames
        (λ _. answer_transaction-Frames payload)
  answer_message-Frames sql_batch payload =
      Frames-bind aside (count_request w) _ count_request-Frames (λ _. Frames-read aside _ (λ c.
        Frames-bind aside (lift (parse_sql_batch payload c.tds_version)) _
          (Frames-lift aside (parse_sql_batch payload c.tds_version))
          (λ sql. answer_query-Frames (query_of_batch sql))))
  answer_message-Frames rpc payload =
      Frames-bind aside (count_request w) _ count_request-Frames (λ _. Frames-read aside _ (λ c.
        Frames-bind aside (lift (parse_rpc payload c.tds_version)) _
          (Frames-lift aside (parse_rpc payload c.tds_version))
          (λ call. answer_query-Frames (query_of_call call))))
  answer_message-Frames attention payload =
      Frames-bind aside (count_request w) _ count_request-Frames (λ _. Frames-read aside _ (λ c.
        Frames-bind aside (lift (done (done_final + done_attention) 0 0 c.tds_version)) _
          (Frames-lift aside _) (λ closing. send-Frames closing 1)))
  answer_message-Frames tabular_result payload =
      Frames-bind {B = Unit {0}} aside (count_request w) (λ _. raise protocol_error)
        count_request-Frames (λ _. Frames-raise aside (Unit {0}) protocol_error)
  answer_message-Frames bulk_load payload =
      Frames-bind {B = Unit {0}} aside (count_request w) (λ _. raise protocol_error)
        count_request-Frames (λ _. Frames-raise aside (Unit {0}) protocol_error)
  answer_message-Frames login7 payload =
      Frames-bind {B = Unit {0}} aside (count_request w) (λ _. raise protocol_error)
        count_request-Frames (λ _. Frames-raise aside (Unit {0}) protocol_error)
  answer_message-Frames prelogin payload =
      Frames-bind {B = Unit {0}} aside (count_request w) (λ _. raise protocol_error)
        count_request-Frames (λ _. Frames-raise aside (Unit {0}) protocol_error)

  pub answer_one-Frames : (m : Message) → Frames Aside (answer_one w m)
  unfolding answer_one
  answer_one-Frames m =
      Frames-bind aside
        (if asks_reset m.status
          then modify (reset_the_session w (keeps_transaction m.status))
          else return tt)
        _
        (Frames-if aside (asks_reset m.status)
          (modify (reset_the_session w (keeps_transaction m.status))) (return tt)
          (Frames-modify aside _ (reset_the_session-Aside (keeps_transaction m.status)))
          (Frames-return aside tt))
        (λ _.
          Frames-bind aside (answer_message w m.type m.payload) _
            (answer_message-Frames m.type m.payload) (λ _. Frames-return aside true))

  pub step_query-Frames : Frames Same (step_query w)
  unfolding step_query
  step_query-Frames = Frames-bind same (take_message w) _ take_message-Frames (λ message.
      Frames-given same message false (answer_one w)
        (λ m. Same-Aside (answer_one w m) (answer_one-Frames m)))
