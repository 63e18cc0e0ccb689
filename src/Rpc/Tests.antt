-- ===== src/Rpc/Tests.antt =====
-- A value in two chunks.
use py_sqlbridge.Prelude.{◌+◌, ◌≡◌, refl, arith, List, [], ◌∷◌, ◌++◌, concat, length}
use py_sqlbridge.Py.Result.{ok, err, protocol_error}
use py_sqlbridge.Py.Bytes.{Bytes, le_bytes, unpack_le, index}
use py_sqlbridge.Py.Utf16.{decode_utf16}
use py_sqlbridge.Versions.{tds_71}
use py_sqlbridge.Rpc.{
  read_plp, call_start, read_procedure, read_parameter, read_parameters, parse_inner, parse_rpc,
}
use py_sqlbridge.Rpc.Errors.{parse_rpc_errors}
use py_sqlbridge.Rpc.Chunks.{chunk_bytes, read_plp-chunk_bytes}

abbrev two_chunks : List Bytes
two_chunks = (1 ∷ 2 ∷ []) ∷ (3 ∷ []) ∷ []

read_plp-chunk_bytes_example :
    read_plp ((9 ∷ []) ++ (le_bytes 8 3 ++ (chunk_bytes two_chunks ++ 7 ∷ []))) 1
    ≡ ok (concat two_chunks, 1 + 8 + length (chunk_bytes two_chunks))
read_plp-chunk_bytes_example =
    read_plp-chunk_bytes 3 two_chunks (9 ∷ []) (7 ∷ []) (omega arith) (λ e. omega arith)
      ((omega arith, omega arith), ((omega arith, omega arith), tt))

-- Procedure 10, two bytes of flags, and the length of a name that is not there.
refuse_cut : parse_rpc (255 ∷ 255 ∷ 10 ∷ 0 ∷ 0 ∷ 0 ∷ 5 ∷ []) tds_71 ≡ err protocol_error
unfolding parse_rpc parse_inner call_start read_procedure read_parameters read_parameter unpack_le
    index decode_utf16
refuse_cut = refl

parse_rpc_errors_example : protocol_error ≡ protocol_error
parse_rpc_errors_example =
    parse_rpc_errors (255 ∷ 255 ∷ 10 ∷ 0 ∷ 0 ∷ 0 ∷ 5 ∷ []) tds_71 protocol_error refuse_cut
