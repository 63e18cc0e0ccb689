-- ===== src/Login.antt =====
-- src/pysqlbridge/tds/login.py: LOGIN7, and the scrambling of its password.
pub mod Password
pub mod Bounds
mod Tests
use Prim.Native.Nat.{bit_and, bit_or, bit_xor}
use py_sqlbridge.Prelude.{
  ℕ, ◌+◌, ◌*◌, ◌/◌, ◌%◌, Bool, true, false, not, ◌||◌, List, [], ◌∷◌, ltb, ◌==◌, length, map,
  if◌then◌else◌,
}
use py_sqlbridge.Py.Result.{Exc, Result, ok, err, protocol_error, ◌>>=◌, ◌>>◌, raise_if}
use py_sqlbridge.Py.Bytes.{Bytes, slice, unpack_le}
use py_sqlbridge.Py.Utf16.{Str, decode_utf16, encode_utf16}
use py_sqlbridge.Batch.{catch_decode}

abbrev fixed_header_size : ℕ
fixed_header_size = 36

abbrev variable_data_start : ℕ
variable_data_start = 94

abbrev password_mask : ℕ
password_mask = 0xa5

abbrev sspi_length_escape : ℕ
sspi_length_escape = 0xffff

-- `((byte & 0x0F) << 4) | ((byte & 0xF0) >> 4)`
swap_nibbles : ℕ → ℕ
swap_nibbles b = bit_or (bit_and b 0x0f * 16) (bit_and b 0xf0 / 16)

-- One byte of the password, in the server's order and in the client's.
unscramble : ℕ → ℕ
unfolding swap_nibbles
unscramble b = swap_nibbles (bit_xor b password_mask)

scramble : ℕ → ℕ
unfolding swap_nibbles
scramble b = bit_xor (swap_nibbles b) password_mask

pub deobfuscate_password : Bytes → Result Str
unfolding unscramble
deobfuscate_password raw = do
  let plain = map unscramble raw
  raise_if (not (length plain % 2 == 0)) protocol_error
  catch_decode (decode_utf16 plain)

pub obfuscate_password : Str → Result Bytes
unfolding scramble
obfuscate_password password = do bytes ← encode_utf16 password; ok (map scramble bytes)

-- `_slice`: the range that the table points at.
unfoldable pub slice_of : Bytes → ℕ → ℕ → Result Bytes
slice_of payload offset size = if size == 0 then ok [] else do
  let end = offset + size
  raise_if (ltb (length payload) offset || ltb (length payload) end) protocol_error
  ok (slice payload offset end)

-- One entry of the offset and length table, and the string that it points at.
unfoldable pub read_pair : Bytes → ℕ → Result (ℕ × ℕ)
read_pair payload cursor = do
  offset ← unpack_le 2 payload cursor
  count ← unpack_le 2 payload (cursor + 2)
  ok (offset, count)

unfoldable pub read_string : Bytes → ℕ → Result Str
unfolding read_pair slice_of
read_string payload cursor = do
  (offset, char_count) ← read_pair payload cursor
  blob ← slice_of payload offset (char_count * 2)
  catch_decode (decode_utf16 blob)

-- The password's bytes, which are not decoded here.
unfoldable pub read_password : Bytes → ℕ → Result Bytes
unfolding read_pair slice_of
read_password payload cursor = do
  (offset, char_count) ← read_pair payload cursor
  slice_of payload offset (char_count * 2)

pub record Login7 : Type 0 where
  pub tds_version : ℕ
  pub packet_size : ℕ
  pub client_prog_ver : ℕ
  pub client_pid : ℕ
  pub connection_id : ℕ
  pub option_flags1 : ℕ
  pub option_flags2 : ℕ
  pub type_flags : ℕ
  pub option_flags3 : ℕ
  -- The two's complement pattern of the signed field.
  pub client_timezone : ℕ
  pub client_lcid : ℕ
  pub client_id : Bytes
  pub host_name : Str
  pub user_name : Str
  pub app_name : Str
  pub server_name : Str
  pub extension : Str
  pub client_interface_name : Str
  pub language : Str
  pub database : Str
  pub sspi : Bytes
  pub atch_db_file : Str
  pub change_password : Str
  pub password : Bytes

-- `bool(self.sspi)`
abbrev pub uses_integrated_auth : Login7 → Bool
uses_integrated_auth login = not (length login.sspi == 0)

-- The SSPI length: the 32-bit one where the 16-bit field holds the escape.
abbrev pub sspi_length : ℕ → ℕ → ℕ
sspi_length short long = if short == sspi_length_escape then long else short

unfoldable pub parse : Bytes → Result Login7
parse payload = do
  raise_if (ltb (length payload) variable_data_start) protocol_error
  declared ← unpack_le 4 payload 0
  tds_version ← unpack_le 4 payload 4
  packet_size ← unpack_le 4 payload 8
  client_prog_ver ← unpack_le 4 payload 12
  client_pid ← unpack_le 4 payload 16
  connection_id ← unpack_le 4 payload 20
  flags1 ← unpack_le 1 payload 24
  flags2 ← unpack_le 1 payload 25
  type_flags ← unpack_le 1 payload 26
  flags3 ← unpack_le 1 payload 27
  timezone ← unpack_le 4 payload 28
  lcid ← unpack_le 4 payload 32
  raise_if (not (declared == length payload)) protocol_error
  host_name ← read_string payload 36
  user_name ← read_string payload 40
  password ← read_password payload 44
  app_name ← read_string payload 48
  server_name ← read_string payload 52
  extension ← read_string payload 56
  client_interface_name ← read_string payload 60
  language ← read_string payload 64
  database ← read_string payload 68
  let client_id = slice payload 72 78
  (sspi_offset, sspi_short) ← read_pair payload 78
  atch_db_file ← read_string payload 82
  change_password ← read_string payload 86
  sspi_long ← unpack_le 4 payload 90
  sspi ← slice_of payload sspi_offset (sspi_length sspi_short sspi_long)
  ok (record {
    tds_version = tds_version;
    packet_size = packet_size;
    client_prog_ver = client_prog_ver;
    client_pid = client_pid;
    connection_id = connection_id;
    option_flags1 = flags1;
    option_flags2 = flags2;
    type_flags = type_flags;
    option_flags3 = flags3;
    client_timezone = timezone;
    client_lcid = lcid;
    client_id = client_id;
    host_name = host_name;
    user_name = user_name;
    app_name = app_name;
    server_name = server_name;
    extension = extension;
    client_interface_name = client_interface_name;
    language = language;
    database = database;
    sspi = sspi;
    atch_db_file = atch_db_file;
    change_password = change_password;
    password = password;
  })
