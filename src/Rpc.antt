-- ===== src/Rpc.antt =====
-- src/pysqlbridge/tds/rpc.py: a remote procedure call and its parameters.
pub mod Chunks
pub mod Errors
mod Tests
use py_sqlbridge.Prelude.{
  ℕ, zero, suc, ◌+◌, ◌*◌, Bool, not, ◌||◌, Option, none, some, List, [], ◌∷◌, ◌++◌, ltb, ◌==◌,
  length, if◌then◌else◌,
}
use py_sqlbridge.Py.Result.{
  Result, ok, err, protocol_error, struct_error, index_error, decode_error, out_of_fuel, ◌>>=◌,
  ◌>>◌, raise_if,
}
use py_sqlbridge.Py.Bytes.{Bytes, slice, or_raise, index, unpack_le}
use py_sqlbridge.Py.Int.{ℤ, signed_value}
use py_sqlbridge.Py.Utf16.{Str, decode_utf16}
use py_sqlbridge.Py.Text.{text}
use py_sqlbridge.Versions.{all_headers_added_in}

abbrev proc_id_sentinel : ℕ
proc_id_sentinel = 0xffff

abbrev plp_marker : ℕ
plp_marker = 0xffff

abbrev pub plp_null : ℕ
plp_null = 0xffff_ffff_ffff_ffff

abbrev null_variable_length : ℕ
null_variable_length = 0xffff

abbrev null_long : ℕ
null_long = 0xffff_ffff

-- The well-known procedures and the names that the call is given.
pub data ProcId : Type 0 where
  cursor cursor_open cursor_prepare cursor_execute cursor_prep_exec cursor_unprepare cursor_fetch
        cursor_option cursor_close execute_sql prepare execute prep_exec prep_exec_rpc unprepare :
      ProcId

-- `ProcId(raw)`
abbrev pub proc_id : ℕ → Option ProcId
proc_id n =
    if n == 1
    then some cursor
    else if n == 2
    then some cursor_open
    else if n == 3
    then some cursor_prepare
    else if n == 4
    then some cursor_execute
    else if n == 5
    then some cursor_prep_exec
    else if n == 6
    then some cursor_unprepare
    else if n == 7
    then some cursor_fetch
    else if n == 8
    then some cursor_option
    else if n == 9
    then some cursor_close
    else if n == 10
    then some execute_sql
    else if n == 11
    then some prepare
    else if n == 12
    then some execute
    else if n == 13
    then some prep_exec
    else if n == 14
    then some prep_exec_rpc
    else if n == 15
    then some unprepare
    else none

abbrev procedure_name : ProcId → Str
procedure_name cursor = text "sp_cursor"
procedure_name cursor_open = text "sp_cursor_open"
procedure_name cursor_prepare = text "sp_cursor_prepare"
procedure_name cursor_execute = text "sp_cursor_execute"
procedure_name cursor_prep_exec = text "sp_cursor_prep_exec"
procedure_name cursor_unprepare = text "sp_cursor_unprepare"
procedure_name cursor_fetch = text "sp_cursor_fetch"
procedure_name cursor_option = text "sp_cursor_option"
procedure_name cursor_close = text "sp_cursor_close"
procedure_name execute_sql = text "sp_executesql"
procedure_name prepare = text "sp_prepare"
procedure_name execute = text "sp_execute"
procedure_name prep_exec = text "sp_prep_exec"
procedure_name prep_exec_rpc = text "sp_prep_exec_rpc"
procedure_name unprepare = text "sp_unprepare"

-- What a parameter's value can be. A float is the four or eight bytes that `struct` reads.
pub data Value : Type 0 where
  null : Value
  integer : ℤ → Value
  boolean : Bool → Value
  characters : Str → Value
  raw : Bytes → Value
  real : Bytes → Value

-- `_FIXED_WIDTH`
abbrev fixed_width : ℕ → Option ℕ
fixed_width t =
    if t == 0x1f
    then some 0
    else if t == 0x30
    then some 1
    else if t == 0x32
    then some 1
    else if t == 0x34
    then some 2
    else if t == 0x38
    then some 4
    else if t == 0x3a
    then some 4
    else if t == 0x3b
    then some 4
    else if t == 0x3c
    then some 8
    else if t == 0x3d
    then some 8
    else if t == 0x3e
    then some 8
    else if t == 0x7a
    then some 4
    else if t == 0x7f
    then some 8
    else none

abbrev is_byte_len : ℕ → Bool
is_byte_len t = t == 0x24 || (t == 0x26 || (t == 0x68 || (t == 0x6d || (t == 0x6e || t == 0x6f))))

abbrev is_decimal : ℕ → Bool
is_decimal t = t == 0x6a || t == 0x6c

abbrev is_char : ℕ → Bool
is_char t = t == 0xa7 || (t == 0xaf || (t == 0xe7 || t == 0xef))

abbrev is_binary : ℕ → Bool
is_binary t = t == 0xa5 || t == 0xad

abbrev is_long : ℕ → Bool
is_long t = t == 0x23 || (t == 0x63 || t == 0x22)

abbrev is_float : ℕ → Bool
is_float t = t == 0x3b || (t == 0x3e || t == 0x6d)

-- `_decode_number` of bytes that are there.
abbrev decode_present : Bytes → ℕ → Result Value
decode_present bytes t =
    if is_float t
    then (if length bytes == 4 || length bytes == 8 then ok (real bytes) else err struct_error)
    else if t == 0x32 || t == 0x68
    then (do b ← index bytes 0; ok (boolean (not (b == 0))))
    else if t == 0x24
    then ok (raw bytes)
    else ok (integer (signed_value bytes))

decode_number : Bytes → ℕ → Result Value
decode_number [] t = ok null
decode_number (b ∷ bs) t = decode_present (b ∷ bs) t

-- The chunks of `_read_plp` from `at` on. A round needs four bytes, so the payload's length is fuel
-- enough.
pub read_chunks : ℕ → Bytes → ℕ → Bytes → Result (Bytes × ℕ)
read_chunks zero payload at chunks = err out_of_fuel
read_chunks (suc fuel) payload at chunks =
    let more = λ (size : ℕ).
      read_chunks fuel payload (at + 4 + size) (chunks ++ slice payload (at + 4) (at + 4 + size)) in
    do size ← unpack_le 4 payload at; if size == 0 then ok (chunks, at + 4) else more size

pub read_plp : Bytes → ℕ → Result (Bytes × ℕ)
unfolding read_chunks
read_plp payload at = do
  total ← unpack_le 8 payload at
  if total == plp_null
      then ok ([], at + 8)
      else read_chunks (suc (length payload)) payload (at + 8) []

-- Bytes as the type's text, or as they are. Latin-1 text has a byte's number for its character.
abbrev decode_text : Bytes → ℕ → Result Value
decode_text bytes t =
    if is_binary t || t == 0x22
    then ok (raw bytes)
    else if t == 0xe7 || (t == 0xef || t == 0x63)
    then (do s ← decode_utf16 bytes; ok (characters s))
    else ok (characters bytes)

-- The branch of `_read_value` for the types whose value follows a one-byte length.
read_byte_len : Bytes → ℕ → ℕ → Result (Value × ℕ)
read_byte_len payload at t = do
  let start = if is_decimal t then at + 3 else at + 1
  size ← index payload start
  if size == 0 then ok (null, start + 1) else do
    value ← decode_number (slice payload (start + 1) (start + 1 + size)) t
    ok (value, start + 1 + size)

-- A length of `w` bytes, `nothing` for no value, and a run of bytes.
read_run : ℕ → ℕ → Bytes → ℕ → ℕ → Result (Value × ℕ)
read_run w nothing payload at t = do
  size ← unpack_le w payload at
  if size == nothing then ok (null, at + w) else do
    value ← decode_text (slice payload (at + w) (at + w + size)) t
    ok (value, at + w + size)

-- The branch for character and binary types.
read_variable : Bytes → ℕ → ℕ → Result (Value × ℕ)
unfolding read_run
read_variable payload at t = do
  declared ← unpack_le 2 payload at
  let start = if is_char t then at + 2 + 5 else at + 2
  if declared == plp_marker
      then (do (bytes, end) ← read_plp payload start; value ← decode_text bytes t; ok (value, end))
      else read_run 2 null_variable_length payload start t

-- `_read_long`: text, ntext and image.
read_long : Bytes → ℕ → ℕ → Result (Value × ℕ)
unfolding read_run
read_long payload at t = read_run 4 null_long payload (if t == 0x22 then at + 4 else at + 4 + 5) t

abbrev read_other : Bytes → ℕ → ℕ → Result (Value × ℕ)
read_other payload at t =
    if is_byte_len t || is_decimal t
    then read_byte_len payload at t
    else if is_char t || is_binary t
    then read_variable payload at t
    else if is_long t
    then read_long payload at t
    else err protocol_error

read_value : Bytes → ℕ → ℕ → Result (Value × ℕ)
read_value payload at t = elim (fixed_width t) [
  | some width ↦ do value ← decode_number (slice payload at (at + width)) t; ok (value, at + width)
  | none ↦ read_other payload at t
]

pub record Parameter : Type 0 where
  pub name : Str
  pub value : Value
  pub status : ℕ

pub record RpcRequest : Type 0 where
  pub procedure : Str
  pub parameters : List Parameter
  pub proc_id : Option ProcId
  pub option_flags : ℕ

-- Where the call starts: behind its ALL_HEADERS block, if its version has one.
call_start : Bytes → ℕ → Result ℕ
call_start payload tds_version = if ltb tds_version all_headers_added_in then ok 0 else do
  raise_if (ltb (length payload) 4) protocol_error
  headers_length ← unpack_le 4 payload 0
  raise_if (ltb headers_length 4 || ltb (length payload) headers_length) protocol_error
  ok headers_length

-- The procedure, by number or by name, and the offset behind it.
read_procedure : Bytes → ℕ → Result (Option ProcId × Str × ℕ)
read_procedure payload at = do
  name_length ← unpack_le 2 payload at
  if name_length == proc_id_sentinel
      then (do
        raw_id ← unpack_le 2 payload (at + 2)
        id ← or_raise protocol_error (proc_id raw_id)
        ok (some id, procedure_name id, at + 4))
      else do
        name ← decode_utf16 (slice payload (at + 2) (at + 2 + name_length * 2))
        ok (none, name, at + 2 + name_length * 2)

-- One parameter, and the offset behind it.
read_parameter : Bytes → ℕ → Result (Parameter × ℕ)
read_parameter payload at = do
  name_chars ← index payload at
  name ← decode_utf16 (slice payload (at + 1) (at + 1 + name_chars * 2))
  let after = at + 1 + name_chars * 2
  status ← index payload after
  type_id ← index payload (after + 1)
  (value, end) ← read_value payload (after + 2) type_id
  ok (record { name = name; value = value; status = status }, end)

-- The loop over the parameters from `at` on. A parameter takes a byte at least, so the payload's
-- length is fuel enough.
read_parameters : ℕ → Bytes → ℕ → Result (List Parameter)
read_parameters zero payload at = err out_of_fuel
read_parameters (suc fuel) payload at =
    let more = λ (parameter : Parameter) (end : ℕ). (do
      parameters ← read_parameters fuel payload end
      ok (parameter ∷ parameters)) in
    if ltb at (length payload)
    then (do (parameter, end) ← read_parameter payload at; more parameter end)
    else ok []

-- `_parse_rpc`
parse_inner : Bytes → ℕ → Result RpcRequest
parse_inner payload tds_version = do
  at ← call_start payload tds_version
  (id, procedure, after) ← read_procedure payload at
  option_flags ← unpack_le 2 payload after
  parameters ← read_parameters (suc (length payload)) payload (after + 2)
  ok (record {
    procedure = procedure;
    parameters = parameters;
    proc_id = id;
    option_flags = option_flags;
  })

-- `except (struct.error, IndexError, UnicodeDecodeError): raise TdsProtocolError`
abbrev catch_malformed {ℓ} : {A : Type ℓ} → Result A → Result A
catch_malformed (err struct_error) = err protocol_error
catch_malformed (err index_error) = err protocol_error
catch_malformed (err decode_error) = err protocol_error
catch_malformed r = r

pub parse_rpc : Bytes → ℕ → Result RpcRequest
parse_rpc payload tds_version = catch_malformed (parse_inner payload tds_version)
