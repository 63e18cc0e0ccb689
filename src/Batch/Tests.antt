-- ===== src/Batch/Tests.antt =====
-- Batches with and without a header block.
use py_sqlbridge.Prelude.{All, ℕ, ◌≤◌, ◌≡◌, refl, arith, [], ◌∷◌, ◌++◌, length}
use py_sqlbridge.Py.Result.{Exc, ok, err, protocol_error}
use py_sqlbridge.Py.Bytes.{Bytes, unpack_le}
use py_sqlbridge.Py.Utf16.{Str, IsCodePoint, encode_utf16}
use py_sqlbridge.Py.Text.{text}
use py_sqlbridge.Versions.{tds_71, tds_74}
use py_sqlbridge.Batch.{skip_all_headers, parse_sql_batch}
use py_sqlbridge.Batch.Laws.{
  headers_block, skip_all_headers_block, skip_all_headers_within, parse_sql_batch_text,
  parse_sql_batch_old, parse_sql_batch_errors,
}

abbrev query : Str
query = text "SELECT"

abbrev query_bytes : Bytes
query_bytes = 83 ∷ 0 ∷ 69 ∷ 0 ∷ 76 ∷ 0 ∷ 69 ∷ 0 ∷ 67 ∷ 0 ∷ 84 ∷ 0 ∷ []

encode_query : encode_utf16 query ≡ ok query_bytes
unfolding encode_utf16
encode_query = refl

query_points : All IsCodePoint query
query_points =
    (omega arith, (omega arith, (omega arith, (omega arith, (omega arith, (omega arith, tt))))))

abbrev descriptor : Bytes
descriptor = 18 ∷ 0 ∷ 0 ∷ 0 ∷ 2 ∷ 0 ∷ 0 ∷ 0 ∷ 0 ∷ 0 ∷ 0 ∷ 0 ∷ 0 ∷ 0 ∷ 1 ∷ 0 ∷ 0 ∷ 0 ∷ []

skip_all_headers_block_example :
    skip_all_headers (headers_block descriptor ++ query_bytes) tds_74
    ≡ ok (length (headers_block descriptor))
skip_all_headers_block_example =
    skip_all_headers_block descriptor query_bytes tds_74 (omega arith) (omega arith)

abbrev four_headers : Bytes
four_headers = 4 ∷ 0 ∷ 0 ∷ 0 ∷ 83 ∷ 0 ∷ []

skip_four : skip_all_headers four_headers tds_74 ≡ ok 4
unfolding skip_all_headers unpack_le
skip_four = refl

skip_all_headers_within_example :
    ((n : ℕ) → skip_all_headers four_headers tds_74 ≡ ok n → n ≤ length four_headers)
    × ((e : Exc) → skip_all_headers four_headers tds_74 ≡ err e → e ≡ protocol_error)
skip_all_headers_within_example = skip_all_headers_within four_headers tds_74

parse_sql_batch_text_example :
    parse_sql_batch (headers_block descriptor ++ query_bytes) tds_74 ≡ ok query
parse_sql_batch_text_example =
    parse_sql_batch_text query query_bytes descriptor tds_74 (omega arith) (omega arith)
      query_points encode_query

parse_sql_batch_old_example : parse_sql_batch query_bytes tds_71 ≡ ok query
parse_sql_batch_old_example =
    parse_sql_batch_old query query_bytes tds_71 (omega arith) query_points encode_query

-- A block that is longer than the message.
refuse_overrun : parse_sql_batch (255 ∷ 0 ∷ 0 ∷ 0 ∷ 83 ∷ 0 ∷ []) tds_74 ≡ err protocol_error
unfolding parse_sql_batch skip_all_headers unpack_le
refuse_overrun = refl

parse_sql_batch_errors_example : protocol_error ≡ protocol_error
parse_sql_batch_errors_example =
    parse_sql_batch_errors (255 ∷ 0 ∷ 0 ∷ 0 ∷ 83 ∷ 0 ∷ []) tds_74 protocol_error refuse_overrun
