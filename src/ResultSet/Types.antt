-- ===== src/ResultSet/Types.antt =====
-- The column types of result.py: how each declares itself and encodes its values.
use py_sqlbridge.Prelude.{
  ℕ, zero, suc, ◌+◌, ◌*◌, Bool, true, false, not, ◌||◌, Option, none, some, [], ◌∷◌, ◌++◌, ltb,
  ◌==◌, length, take, if◌then◌else◌,
}
use py_sqlbridge.Py.Result.{Result, ok, value_error, struct_error, ◌>>=◌, ◌>>◌, raise_if}
use py_sqlbridge.Py.Bytes.{Bytes, pack_le}
use py_sqlbridge.Py.Int.{ℤ, pos, write_integer}
use py_sqlbridge.Py.Utf16.{Str, encode_pass}

-- `datetime.datetime`: its date, as the days from 1900-01-01, and its time of day.
pub record Moment : Type 0 where
  pub days : ℤ
  pub hour : ℕ
  pub minute : ℕ
  pub second : ℕ
  pub microsecond : ℕ

-- What a value is to `DateTime.encode`. A `datetime.date` is its days from 1900-01-01.
pub data Dated : Type 0 where
  datetime : Moment → Dated
  date : ℤ → Dated
  neither : Dated

-- Python's objects, with what the encoders ask of them: `is None`, int(), str(), bool(), bytes(),
-- float() with the two forms of `struct.pack`, `isinstance(value, bytes)`, and the classes of
-- datetime. guid is `uuid.UUID(text).bytes_le`, and round_ticks the floating-point
-- `round((seconds + microsecond / 1_000_000) * 300)`.
pub record Objects : Type 1 where
  pub Object : Type 0
  pub Real : Type 0
  pub is_none : Object → Bool
  pub int : Object → Result ℤ
  pub str : Object → Str
  pub truth : Object → Bool
  pub bytes : Object → Result Bytes
  pub as_bytes : Object → Option Bytes
  pub float : Object → Result Real
  pub pack_double : Real → Result Bytes
  pub pack_single : Real → Result Bytes
  pub guid : Str → Result Bytes
  pub dated : Object → Dated
  pub fromisoformat : Str → Result Moment
  pub round_ticks : ℕ → ℕ → ℕ

abbrev pub max_marker : ℕ
max_marker = 0xffff

abbrev pub nvarchar_max_bytes : ℕ
nvarchar_max_bytes = 0xfffe

pub data TdsType : Type 0 where
  intn fltn nvarchar bitn guidn datetimn bigvarbinary bigbinary int2 : TdsType

abbrev pub tds_byte : TdsType → ℕ
tds_byte intn = 0x26
tds_byte fltn = 0x6d
tds_byte nvarchar = 0xe7
tds_byte bitn = 0x68
tds_byte guidn = 0x24
tds_byte datetimn = 0x6f
tds_byte bigvarbinary = 0xa5
tds_byte bigbinary = 0xad
tds_byte int2 = 0x34

-- An integer, an untyped NULL and a float carry their width, an nvarchar its size in characters
-- (none is MAX) and its collation.
pub data ColumnType : Type 0 where
  integer : ℕ → ColumnType
  untyped_null : ℕ → ColumnType
  float : ℕ → ColumnType
  nvarchar : Option ℕ → Bytes → ColumnType
  bit : ColumnType
  unique_identifier : ColumnType
  date_time : ColumnType
  var_binary : ℕ → ColumnType
  small_int : ColumnType
  binary : ℕ → ColumnType

-- `Integer(width)` and `Float(width)`, with their `__post_init__`.
pub new_integer : ℕ → Result ColumnType
new_integer width = do
  raise_if (not (width == 1 || (width == 2 || (width == 4 || width == 8)))) value_error
  ok (integer width)

pub new_float : ℕ → Result ColumnType
new_float width = do raise_if (not (width == 4 || width == 8)) value_error; ok (float width)

abbrev pub nullable : ColumnType → Bool
nullable small_int = false
nullable _ = true

abbrev integer_info : ℕ → Result Bytes
integer_info width = ok (tds_byte TdsType.intn ∷ width ∷ [])

abbrev float_info : ℕ → Result Bytes
float_info width = ok (tds_byte TdsType.fltn ∷ width ∷ [])

abbrev nvarchar_info : Option ℕ → Bytes → Result Bytes
nvarchar_info none collation = do
  size ← pack_le 2 max_marker
  ok (tds_byte TdsType.nvarchar ∷ (size ++ collation))
nvarchar_info (some max_chars) collation = do
  size ← pack_le 2 (max_chars * 2)
  ok (tds_byte TdsType.nvarchar ∷ (size ++ collation))

abbrev bit_info : Result Bytes
bit_info = ok (tds_byte TdsType.bitn ∷ 1 ∷ [])

abbrev guid_info : Result Bytes
guid_info = ok (tds_byte TdsType.guidn ∷ 16 ∷ [])

abbrev moment_info : Result Bytes
moment_info = ok (tds_byte TdsType.datetimn ∷ 8 ∷ [])

abbrev var_binary_info : ℕ → Result Bytes
var_binary_info size = do declared ← pack_le 2 size; ok (tds_byte TdsType.bigvarbinary ∷ declared)

abbrev small_int_info : Result Bytes
small_int_info = ok (tds_byte TdsType.int2 ∷ [])

abbrev binary_info : ℕ → Result Bytes
binary_info size = do declared ← pack_le 2 size; ok (tds_byte TdsType.bigbinary ∷ declared)

-- `column.type.type_info()`
unfoldable pub type_info : ColumnType → Result Bytes
type_info (integer width) = integer_info width
type_info (untyped_null width) = integer_info width
type_info (float width) = float_info width
type_info (nvarchar max_chars collation) = nvarchar_info max_chars collation
type_info bit = bit_info
type_info unique_identifier = guid_info
type_info date_time = moment_info
type_info (var_binary size) = var_binary_info size
type_info small_int = small_int_info
type_info (binary size) = binary_info size

-- `raw.ljust(size, b"\x00")`
abbrev pub ljust : ℕ → Bytes → Bytes
ljust zero raw = raw
ljust (suc size) [] = 0 ∷ ljust size []
ljust (suc size) (b ∷ raw) = b ∷ ljust size raw

-- `_encode_max` of a value that is not None.
unfoldable pub encode_chunk : Bytes → Result Bytes
encode_chunk [] = pack_le 8 0
encode_chunk (b ∷ bs) = do
  total ← pack_le 8 (length (b ∷ bs))
  size ← pack_le 4 (length (b ∷ bs))
  terminator ← pack_le 4 0
  ok (total ++ (size ++ ((b ∷ bs) ++ terminator)))

module _ (o : Objects) where
  -- A value that is not None, by its column's type.
  unfoldable pub encode_integer : ℕ → o.Object → Result Bytes
  encode_integer width value = do
    number ← o.int value
    raw ← write_integer value_error (ltb 1 width) width number
    ok (width ∷ raw)

  unfoldable pub encode_float : ℕ → o.Object → Result Bytes
  encode_float width value = do
    real ← o.float value
    packed ← if width == 8 then o.pack_double real else o.pack_single real
    ok (width ∷ packed)

  unfoldable pub encode_sized : o.Object → Result Bytes
  encode_sized value =
      let encoded = encode_pass (o.str value) in
      do
        raise_if (ltb nvarchar_max_bytes (length encoded)) value_error
        size ← pack_le 2 (length encoded)
        ok (size ++ encoded)

  abbrev pub raw_guid : Option Bytes → o.Object → Result Bytes
  raw_guid (some raw) value = ok (ljust 16 (take 16 raw))
  raw_guid none value = o.guid (o.str value)

  unfoldable pub encode_guid : o.Object → Result Bytes
  encode_guid value = do raw ← raw_guid (o.as_bytes value) value; ok (16 ∷ raw)

  abbrev pub moment_of : Dated → o.Object → Result Moment
  moment_of (datetime moment) value = ok moment
  moment_of (date days) value =
      ok (record { days = days; hour = 0; minute = 0; second = 0; microsecond = 0 })
  moment_of neither value = o.fromisoformat (o.str value)

  unfoldable pub encode_moment : o.Object → Result Bytes
  encode_moment value = do
    moment ← moment_of (o.dated value) value
    days ← write_integer struct_error true 4 moment.days
    ticks ←
        pack_le 4 (
          o.round_ticks (moment.hour * 3600 + moment.minute * 60 + moment.second)
            moment.microsecond)
    ok (8 ∷ (days ++ ticks))

  unfoldable pub encode_var_binary : ℕ → o.Object → Result Bytes
  encode_var_binary size value = do
    given ← o.bytes value
    count ← pack_le 2 (length (take size given))
    ok (count ++ take size given)

  unfoldable pub encode_binary : ℕ → o.Object → Result Bytes
  encode_binary size value = do
    given ← o.bytes value
    count ← pack_le 2 (length (ljust size (take size given)))
    ok (count ++ ljust size (take size given))

  abbrev encode_bit : o.Object → Result Bytes
  encode_bit value = ok (1 ∷ (if o.truth value then 1 else 0) ∷ [])

  abbrev encode_small_int : o.Object → Result Bytes
  encode_small_int value = do
    number ← if o.truth value then o.int value else ok (pos 0)
    write_integer struct_error true 2 number

  unfoldable pub encode_present : ColumnType → o.Object → Result Bytes
  encode_present (integer width) value = encode_integer width value
  encode_present (untyped_null width) value = encode_integer width value
  encode_present (float width) value = encode_float width value
  encode_present (nvarchar none collation) value = encode_chunk (encode_pass (o.str value))
  encode_present (nvarchar (some max_chars) collation) value = encode_sized value
  encode_present bit value = encode_bit value
  encode_present unique_identifier value = encode_guid value
  encode_present date_time value = encode_moment value
  encode_present (var_binary size) value = encode_var_binary size value
  encode_present small_int value = encode_small_int value
  encode_present (binary size) value = encode_binary size value

  -- How a type says NULL.
  unfoldable pub encode_null : ColumnType → o.Object → Result Bytes
  encode_null (nvarchar none collation) value =
      ok (255 ∷ 255 ∷ 255 ∷ 255 ∷ 255 ∷ 255 ∷ 255 ∷ 255 ∷ [])
  encode_null (nvarchar (some max_chars) collation) value = ok (255 ∷ 255 ∷ [])
  encode_null (var_binary size) value = pack_le 2 max_marker
  encode_null (binary size) value = pack_le 2 max_marker
  encode_null small_int value = encode_present small_int value
  encode_null _ value = ok (0 ∷ [])

  -- `column.type.encode(value)`
  unfoldable pub encode : ColumnType → o.Object → Result Bytes
  encode kind value = if o.is_none value then encode_null kind value else encode_present kind value
