-- ===== src/Prelogin/Tests.antt =====
-- Runs of the option table on concrete payloads, and the theorems at concrete inputs.
use py_sqlbridge.Prelude.{◌≡◌, refl, arith, true, false, some, none, [], ◌∷◌}
use py_sqlbridge.Py.Result.{Exc, ok, err, protocol_error, value_error}
use py_sqlbridge.Py.Bytes.{Bytes, index, pack_be, unpack_be}
use py_sqlbridge.Prelogin.{
  encryption, instopt, threadid, mars, off, on, sql_server_2025, Options, get, version_of,
  encryption_of, mars_of, instance_of, parse_from, parse, pack_entry, build_from, build,
  server_response,
}
use py_sqlbridge.Prelogin.RoundTrip.{parse-build}
use py_sqlbridge.Prelogin.Errors.{Declared, parse_errors}
use py_sqlbridge.Prelogin.Response.{server_response_reads, server_response_silent}

abbrev two_options : Options
two_options = (encryption, 0 ∷ []) ∷ (threadid, []) ∷ []

abbrev two_bytes : Bytes
two_bytes = 1 ∷ 0 ∷ 11 ∷ 0 ∷ 1 ∷ 3 ∷ 0 ∷ 12 ∷ 0 ∷ 0 ∷ 255 ∷ 0 ∷ []

build_two : build two_options ≡ ok two_bytes
unfolding build build_from pack_entry pack_be
build_two = refl

-- An offset past the payload.
parse_past : parse (1 ∷ 0 ∷ 11 ∷ 0 ∷ 9 ∷ 255 ∷ []) ≡ err protocol_error
unfolding parse parse_from index unpack_be
parse_past = refl

-- An encryption byte that the enumeration lacks is a `ValueError`, and no protocol error.
encryption_unknown : encryption_of ((encryption, 0x80 ∷ []) ∷ []) ≡ err value_error
unfolding encryption_of get index
encryption_unknown = refl

instance_named :
    instance_of ((instopt, b'a' ∷ b'b' ∷ 0 ∷ 0 ∷ []) ∷ []) ≡ ok (some (b'a' ∷ b'b' ∷ []))
unfolding instance_of get
instance_named = refl

mars_asked : mars_of ((mars, 1 ∷ []) ∷ []) ≡ ok (some true)
unfolding mars_of get index
mars_asked = refl

parse-build_example : parse two_bytes ≡ ok two_options
parse-build_example = parse-build two_options two_bytes build_two

parse_errors_example :
    ((e : Exc) → parse two_bytes ≡ err e → e ≡ protocol_error)
    × ((options : Options) → parse two_bytes ≡ ok options → Declared two_bytes 0 options)
parse_errors_example = parse_errors two_bytes

server_response_reads_example :
    (options : Options) × (bytes : Bytes) × (server_response sql_server_2025 on false
        (some two_options)
      ≡ ok options)
    × (build options ≡ ok bytes)
    × (parse bytes ≡ ok options)
    × (version_of options ≡ ok (some sql_server_2025))
    × (encryption_of options ≡ ok (some on))
server_response_reads_example =
    server_response_reads sql_server_2025 on false (some two_options) (omega arith)

server_response_silent_example :
    (options : Options) × (server_response sql_server_2025 off false (some two_options)
      ≡ ok options)
    × (get options mars ≡ none)
server_response_silent_example =
    server_response_silent sql_server_2025 off false two_options mars (omega arith)
      (unfold get in refl) (λ e. cc) (λ e. cc)
