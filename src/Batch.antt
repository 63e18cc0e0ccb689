-- ===== src/Batch.antt =====
-- src/pysqlbridge/tds/batch.py: the ALL_HEADERS block, and the query text behind it.
pub mod Laws
mod Tests
use py_sqlbridge.Prelude.{ℕ, ◌+◌, ◌%◌, Bool, ◌||◌, not, length, drop, ltb, ◌==◌, if◌then◌else◌}
use py_sqlbridge.Py.Result.{
  Exc, Result, ok, err, protocol_error, decode_error, ◌>>=◌, ◌>>◌, raise_if,
}
use py_sqlbridge.Py.Bytes.{Bytes, unpack_le}
use py_sqlbridge.Py.Utf16.{Str, decode_utf16}
use py_sqlbridge.Versions.{all_headers_added_in}

abbrev min_all_headers : ℕ
min_all_headers = 4

unfoldable pub skip_all_headers : Bytes → ℕ → Result ℕ
skip_all_headers payload tds_version = if ltb tds_version all_headers_added_in then ok 0 else do
  raise_if (ltb (length payload) min_all_headers) protocol_error
  headers_length ← unpack_le 4 payload 0
  raise_if (ltb headers_length min_all_headers || ltb (length payload) headers_length)
      protocol_error
  ok headers_length

-- `except UnicodeDecodeError: raise TdsProtocolError`
abbrev pub catch_decode {ℓ} : {A : Type ℓ} → Result A → Result A
catch_decode (err decode_error) = err protocol_error
catch_decode r = r

pub parse_sql_batch : Bytes → ℕ → Result Str
parse_sql_batch payload tds_version = do
  offset ← skip_all_headers payload tds_version
  let text = drop offset payload
  raise_if (not (length text % 2 == 0)) protocol_error
  catch_decode (decode_utf16 text)
