-- ===== src/ResultSet/Rows.antt =====
-- Columns, their COLMETADATA, and the rows that are encoded against them.
use py_sqlbridge.Prelude.{
  ℕ, ◌*◌, ◌/◌, not, List, [], ◌∷◌, ◌++◌, map, leb, ltb, ◌==◌, length, if◌then◌else◌,
}
use py_sqlbridge.Py.Result.{Result, ok, value_error, ◌>>=◌, ◌>>◌, raise_if}
use py_sqlbridge.Py.Bytes.{Bytes, pack_le, byte}
use py_sqlbridge.Py.Utf16.{Str, encode_pass}
use py_sqlbridge.Versions.{tds_72}
use py_sqlbridge.Token.{token_byte, col_metadata, row}
use py_sqlbridge.ResultSet.Types.{Objects, ColumnType, nullable, type_info, encode}

-- `_name_length`
unfoldable pub name_length : Str → Result ℕ
name_length name = do raise_if (ltb 255 (length name)) value_error; ok (length name)

pub record Column : Type 0 where
  pub name : Str
  pub kind : ColumnType
  pub flags : ℕ
  pub user_type : ℕ

abbrev pub default_column_flags : ℕ
default_column_flags = 0x0021

abbrev pub user_type_width : ℕ → ℕ
user_type_width tds_version = if leb tds_72 tds_version then 4 else 2

-- The nullable flag is the lowest bit.
abbrev pub sent_flags : Column → ℕ
sent_flags c = if nullable c.kind then c.flags else c.flags / 2 * 2

unfoldable pub metadata : ℕ → Column → Result Bytes
unfolding name_length
metadata tds_version c = do
  user_type ← pack_le (user_type_width tds_version) c.user_type
  flags ← pack_le 2 (sent_flags c)
  declared ← type_info c.kind
  count ← name_length c.name
  size ← byte count
  ok (user_type ++ (flags ++ (declared ++ (size ++ encode_pass c.name))))

-- `b"".join(f(x) for x in xs)`
unfoldable pub join_all {ℓ} : {A : Type ℓ} → (A → Result Bytes) → List A → Result Bytes
join_all f [] = ok []
join_all f (x ∷ xs) = do first ← f x; later ← join_all f xs; ok (first ++ later)

unfoldable pub col_metadata_of : ℕ → List Column → Result Bytes
col_metadata_of tds_version columns = do
  count ← pack_le 2 (length columns)
  entries ← join_all (metadata tds_version) columns
  ok (token_byte col_metadata ∷ (count ++ entries))

module _ (o : Objects) where
  -- The values of a row, each by its column's type.
  unfoldable pub cells : List Column → List o.Object → Result Bytes
  cells [] values = ok []
  cells (c ∷ columns) [] = ok []
  cells (c ∷ columns) (value ∷ values) = do
    first ← encode o c.kind value
    later ← cells columns values
    ok (first ++ later)

  unfoldable pub row_of : List Column → List o.Object → Result Bytes
  row_of columns values = do
    raise_if (not (length values == length columns)) value_error
    encoded ← cells columns values
    ok (token_byte row ∷ encoded)

  -- `_rows`: the encoders are looked up once, and `out` grows by one value after the other.
  unfoldable pub put_values : List (o.Object → Result Bytes) → List o.Object → Bytes → Result Bytes
  put_values [] values out = ok out
  put_values (f ∷ encoders) [] out = ok out
  put_values (f ∷ encoders) (value ∷ values) out = do
    written ← f value
    put_values encoders values (out ++ written)

  unfoldable pub put_rows :
      List (o.Object → Result Bytes) → List (List o.Object) → Bytes → Result Bytes
  put_rows encoders [] out = ok out
  put_rows encoders (values ∷ rows) out = do
    raise_if (not (length values == length encoders)) value_error
    written ← put_values encoders values (out ++ 0xd1 ∷ [])
    put_rows encoders rows written

  unfoldable pub rows_of : List Column → List (List o.Object) → Result Bytes
  rows_of columns rows = put_rows (map (λ (c : Column). encode o c.kind) columns) rows []
