-- ===== src/Token.antt =====
-- src/pysqlbridge/tds/token.py: the tokens of the server-to-client stream.
pub mod Walk
pub mod Changes
pub mod Written
pub mod Streams
pub mod Strings
mod Tests
use py_sqlbridge.Prelude.{
  ℕ, zero, suc, ◌+◌, ◌*◌, ◌/◌, ◌%◌, Bool, List, [], ◌∷◌, ◌++◌, leb, ltb, ◌==◌, length,
  if◌then◌else◌,
}
use py_sqlbridge.Py.Result.{
  Exc, Result, ok, err, protocol_error, value_error, ◌>>=◌, ◌>>◌, raise_if,
}
use py_sqlbridge.Py.Bytes.{Bytes, byte, pack_le, pack_be}
use py_sqlbridge.Py.Utf16.{Str, encode_utf16}
use py_sqlbridge.Py.Text.{text}
use py_sqlbridge.Py.Decimal.{decimal}
use py_sqlbridge.Versions.{line_number_widened_in, row_count_widened_in}

abbrev max_token_payload : ℕ
max_token_payload = 0xffff

pub data TokenType : Type 0 where
  col_metadata error_token info_token login_ack_token feature_ext_ack row env_change_token sspi_blob
        done_token :
      TokenType

abbrev pub token_byte : TokenType → ℕ
token_byte col_metadata = 0x81
token_byte error_token = 0xaa
token_byte info_token = 0xab
token_byte login_ack_token = 0xad
token_byte feature_ext_ack = 0xae
token_byte row = 0xd1
token_byte env_change_token = 0xe3
token_byte sspi_blob = 0xed
token_byte done_token = 0xfd

pub data EnvChangeType : Type 0 where
  database language packet_size sql_collation begin_tran commit_tran rollback_tran : EnvChangeType

abbrev pub env_change_byte : EnvChangeType → ℕ
env_change_byte database = 1
env_change_byte language = 2
env_change_byte packet_size = 4
env_change_byte sql_collation = 7
env_change_byte begin_tran = 8
env_change_byte commit_tran = 9
env_change_byte rollback_tran = 10

unfoldable pub b_varchar : Str → Result Bytes
b_varchar value = do
  encoded ← encode_utf16 value
  count ← byte (length value)
  ok (count ++ encoded)

unfoldable pub us_varchar : Str → Result Bytes
us_varchar value = do
  encoded ← encode_utf16 value
  count ← pack_le 2 (length value)
  ok (count ++ encoded)

-- `_token`
unfoldable pub frame_token : TokenType → Bytes → Result Bytes
frame_token kind body = do
  raise_if (ltb max_token_payload (length body)) value_error
  size ← pack_le 2 (length body)
  ok (token_byte kind ∷ (size ++ body))

pub sspi_token : Bytes → Result Bytes
sspi_token blob = frame_token sspi_blob blob

-- A setting's value: text is counted in characters, bytes in bytes.
pub data EnvValue : Type 0 where
  characters : Str → EnvValue
  raw : Bytes → EnvValue

unfoldable pub encode_env : EnvValue → Result Bytes
encode_env (characters value) = b_varchar value
encode_env (raw value) = do count ← byte (length value); ok (count ++ value)

unfoldable pub env_change : EnvChangeType → EnvValue → EnvValue → Result Bytes
env_change kind new old = do
  written ← encode_env new
  before ← encode_env old
  frame_token env_change_token (env_change_byte kind ∷ (written ++ before))

-- What INFO and ERROR say.
pub record Notice : Type 0 where
  pub number : ℕ
  pub message : Str
  pub state : ℕ
  pub severity : ℕ
  pub server : Str
  pub procedure : Str
  pub line : ℕ

abbrev pub line_width : ℕ → ℕ
line_width tds_version = if leb line_number_widened_in tds_version then 4 else 2

unfoldable pub message_body : Notice → ℕ → Result Bytes
message_body n tds_version = do
  number ← pack_le 4 n.number
  state ← byte n.state
  severity ← byte n.severity
  message ← us_varchar n.message
  server ← b_varchar n.server
  procedure ← b_varchar n.procedure
  line ← pack_le (line_width tds_version) n.line
  ok (number ++ (state ++ (severity ++ (message ++ (server ++ (procedure ++ line))))))

unfoldable pub info : Notice → ℕ → Result Bytes
info n tds_version = do body ← message_body n tds_version; frame_token info_token body

unfoldable pub error : Notice → ℕ → Result Bytes
error n tds_version = do body ← message_body n tds_version; frame_token error_token body

abbrev pub done_final : ℕ
done_final = 0x0000

abbrev pub done_more : ℕ
done_more = 0x0001

abbrev pub done_error : ℕ
done_error = 0x0002

abbrev pub done_count : ℕ
done_count = 0x0010

abbrev pub done_attention : ℕ
done_attention = 0x0020

abbrev pub count_width : ℕ → ℕ
count_width tds_version = if leb row_count_widened_in tds_version then 8 else 4

unfoldable pub done : ℕ → ℕ → ℕ → ℕ → Result Bytes
done status current_command row_count tds_version = do
  status ← pack_le 2 status
  command ← pack_le 2 current_command
  count ← pack_le (count_width tds_version) row_count
  ok (token_byte done_token ∷ (status ++ (command ++ count)))

pub error_response : Notice → ℕ → Result Bytes
error_response n tds_version = do
  failure ← error n tds_version
  closing ← done done_error 0 0 tds_version
  ok (failure ++ closing)

-- "Microsoft SQL Server" and two nulls, which the count takes in.
abbrev pub server_program_name : Str
server_program_name = text "Microsoft SQL Server" ++ 0 ∷ 0 ∷ []

abbrev pub default_collation : Bytes
default_collation = 0x09 ∷ 0x04 ∷ 0xd0 ∷ 0x00 ∷ 0x34 ∷ []

unfoldable pub login_ack : ℕ → ℕ → ℕ → Str → ℕ → ℕ → Result Bytes
login_ack major minor build program tds_version interface = do
  face ← byte interface
  version ← pack_be 4 tds_version
  name ← b_varchar program
  high ← byte major
  low ← byte minor
  frame_token login_ack_token
      (face ++ (version ++ (name ++ (high ++ (low ++ ((build / 256 % 256) ∷ (build % 256) ∷ []))))))

-- The notices of a login.
abbrev pub database_notice : Str → Str → Notice
database_notice server_name name = record {
  number = 5701;
  message = text "Changed database context to '" ++ (name ++ text "'.");
  state = 2;
  severity = 0;
  server = server_name;
  procedure = [];
  line = 1;
}

abbrev pub language_notice : Str → Str → Notice
language_notice server_name name = record {
  number = 5703;
  message = text "Changed language setting to " ++ (name ++ text ".");
  state = 1;
  severity = 0;
  server = server_name;
  procedure = [];
  line = 1;
}

pub record LoginAnswer : Type 0 where
  pub major : ℕ
  pub minor : ℕ
  pub build : ℕ
  pub server_name : Str
  pub database_name : Str
  pub language_name : Str
  pub size : ℕ
  pub collation : Bytes
  pub tds_version : ℕ

unfoldable pub login_response : LoginAnswer → Result Bytes
login_response a = do
  t1 ← env_change database (characters a.database_name) (characters a.database_name)
  t2 ← info (database_notice a.server_name a.database_name) a.tds_version
  t3 ← env_change sql_collation (raw a.collation) (characters [])
  t4 ← env_change language (characters a.language_name) (characters [])
  t5 ← info (language_notice a.server_name a.language_name) a.tds_version
  t6 ← login_ack a.major a.minor a.build server_program_name a.tds_version 1
  t7 ← env_change packet_size (characters (decimal a.size)) (characters (decimal a.size))
  t8 ← done done_final 0 0 a.tds_version
  ok (t1 ++ (t2 ++ (t3 ++ (t4 ++ (t5 ++ (t6 ++ (t7 ++ t8)))))))
