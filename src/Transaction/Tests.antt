-- ===== src/Transaction/Tests.antt =====
-- Requests with and without a name.
use py_sqlbridge.Prelude.{◌≡◌, refl, arith, some, none, [], ◌∷◌, ◌++◌}
use py_sqlbridge.Py.Result.{ok, err, protocol_error}
use py_sqlbridge.Py.Bytes.{Bytes, index, unpack_le}
use py_sqlbridge.Py.Utf16.{Str, encode_utf16}
use py_sqlbridge.Py.Text.{text}
use py_sqlbridge.Versions.{tds_71, tds_74}
use py_sqlbridge.Batch.{skip_all_headers}
use py_sqlbridge.Transaction.{
  rollback_xact, save_xact, parse_transaction_request, transaction_statement,
}
use py_sqlbridge.Transaction.RoundTrip.{
  rollback, request_bytes, name_field, parse_transaction_request_named,
}
use py_sqlbridge.Transaction.Errors.{parse_transaction_request_errors}

abbrev savepoint : Str
savepoint = text "sp"

abbrev savepoint_bytes : Bytes
savepoint_bytes = 115 ∷ 0 ∷ 112 ∷ 0 ∷ []

encode_savepoint : encode_utf16 savepoint ≡ ok savepoint_bytes
unfolding encode_utf16
encode_savepoint = refl

parse_transaction_request_named_example :
    parse_transaction_request
      (request_bytes [] rollback_xact 0 (name_field savepoint_bytes ++ 0 ∷ []))
      tds_74
    ≡ ok (record { kind = rollback_xact; name = some savepoint })
parse_transaction_request_named_example =
    parse_transaction_request_named rollback_xact 0 savepoint savepoint_bytes [] (0 ∷ []) tds_74
      rollback (omega arith, (omega arith, tt)) encode_savepoint (omega arith) (omega arith)
      (omega arith)

-- A name that is longer than the message.
refuse_cut : parse_transaction_request (8 ∷ 0 ∷ 4 ∷ 115 ∷ 0 ∷ []) tds_71 ≡ err protocol_error
unfolding parse_transaction_request skip_all_headers unpack_le index
refuse_cut = refl

parse_transaction_request_errors_example : protocol_error ≡ protocol_error
parse_transaction_request_errors_example =
    parse_transaction_request_errors (8 ∷ 0 ∷ 4 ∷ 115 ∷ 0 ∷ []) tds_71 protocol_error refuse_cut

-- A save without a name asks for a savepoint that is called None.
save_none :
    transaction_statement (record { kind = save_xact; name = none })
    ≡ some (text "SAVE TRANSACTION None")
unfolding transaction_statement
save_none = refl
