-- ===== src/ResultSet/Empty.antt =====
-- The empty text of a MAX column.
use py_sqlbridge.Prelude.{◌≡◌, arith, false, none, some, [], ◌∷◌, ◌++◌}
use py_sqlbridge.Py.Result.{ok}
use py_sqlbridge.Py.Bytes.{Bytes, le_bytes, pack_le}
use py_sqlbridge.Py.Utf16.{encode_pass}
use py_sqlbridge.Rpc.Chunks.{chunk_bytes, IsChunk}
use py_sqlbridge.ResultSet.Types.{Objects, nvarchar, encode_chunk, encode_present, encode}
use py_sqlbridge.ResultSet.Client.{chunked, read_cell}
use py_sqlbridge.ResultSet.Cells.{chunked_read}

module _ (o : Objects) where
  encode-empty :
      (collation : Bytes) (value : o.Object) (cell : Bytes)
      → o.is_none value ≡ false
      → encode_pass (o.str value) ≡ []
      → encode o (nvarchar none collation) value ≡ ok cell
      → cell ≡ le_bytes 8 0
  unfolding encode encode_present encode_chunk pack_le
  encode-empty collation value cell there empty e = cc (rw (there, empty) at e)

-- The empty text of a MAX column is written as a total length and nothing behind it, where a
-- client reads chunks up to one of length zero: whatever follows the value in the stream and looks
-- like a chunk, the client takes for the text.
pub encode_max-empty :
    (o : Objects) (collation : Bytes) (value : o.Object) (cell chunk rest : Bytes)
    → o.is_none value ≡ false
    → encode_pass (o.str value) ≡ []
    → encode o (nvarchar none collation) value ≡ ok cell
    → IsChunk chunk
    → read_cell chunked (cell ++ (chunk_bytes (chunk ∷ []) ++ rest)) ≡ some (some chunk, rest)
encode_max-empty o collation value cell chunk rest there empty e fits =
    rw (encode-empty o collation value cell there empty e)
      (chunked_read 0 chunk rest (omega arith) (λ z. omega (arith, z)) fits)
