-- ===== src/ResultSet/Carried.antt =====
-- What the cell of a value holds, and that a client reads it.
use py_sqlbridge.Prelude.{
  ℕ, ◌+◌, ◌*◌, ◌^◌, ◌<◌, ◌≡◌, true, false, ◌||◌, Option, none, some, List, [], ◌∷◌, ◌++◌, ltb, ◌==◌,
  length, take, drop, if◌then◌else◌,
}
use py_sqlbridge.Py.Result.{Result, ok}
use py_sqlbridge.Py.Bytes.{Bytes, le_value}
use py_sqlbridge.Py.Int.{pos, signed_value, integer_value}
use py_sqlbridge.Py.Utf16.{encode_pass}
use py_sqlbridge.ResultSet.Types.{
  Objects, Moment, ColumnType, integer, untyped_null, float, nvarchar, bit, unique_identifier,
  date_time, var_binary, small_int, binary, ljust, raw_guid, moment_of,
}
use py_sqlbridge.ResultSet.Rows.{Column}
use py_sqlbridge.ResultSet.Client.{Layout, fixed, byte_count, short_count, chunked, read_cell}

-- The layout that a type declares.
abbrev pub layout_of : ColumnType → Layout
layout_of (nvarchar none collation) = chunked
layout_of (nvarchar (some max_chars) collation) = short_count
layout_of (var_binary size) = short_count
layout_of (binary size) = short_count
layout_of small_int = fixed 2
layout_of _ = byte_count

-- A type as the source's code makes it: widths that are there, sizes that are not the MAX marker.
abbrev pub IsSound : ColumnType → Type 0
IsSound (integer width) = 0 < width
IsSound (untyped_null width) = 0 < width
IsSound (float width) = (width == 4 || width == 8) ≡ true
IsSound (nvarchar max_chars collation) = length collation ≡ 5
IsSound (var_binary size) = size < 65535
IsSound (binary size) = size < 65535
IsSound _ = Unit {0}

-- The documented widths of what the library packs.
pub record IsPacked (o : Objects) : Type 0 where
  pub double_width : (r : o.Real) (raw : Bytes) → o.pack_double r ≡ ok raw → length raw ≡ 8
  pub single_width : (r : o.Real) (raw : Bytes) → o.pack_single r ≡ ok raw → length raw ≡ 4
  pub guid_width :
      (value : o.Object) (raw : Bytes) → o.guid (o.str value) ≡ ok raw → length raw ≡ 16

module _ (o : Objects) where
  -- A number that is read from the bytes of its width.
  abbrev pub CarriesInteger : ℕ → o.Object → Bytes → Type 0
  CarriesInteger width value raw =
      (length raw ≡ width) × (o.int value ≡ ok (integer_value (ltb 1 width) raw))

  abbrev pub pack_real : ℕ → o.Real → Result Bytes
  pack_real width real = if width == 8 then o.pack_double real else o.pack_single real

  -- Bytes that a value can be read from by its column's type.
  abbrev pub Holds : ColumnType → o.Object → Bytes → Type 0
  Holds (integer width) value raw = CarriesInteger width value raw
  Holds (untyped_null width) value raw = CarriesInteger width value raw
  Holds (float width) value raw =
      (r : o.Real) × (o.float value ≡ ok r) × (pack_real width r ≡ ok raw)
  Holds (nvarchar max_chars collation) value raw = raw ≡ encode_pass (o.str value)
  Holds bit value raw = raw ≡ (if o.truth value then 1 else 0) ∷ []
  Holds unique_identifier value raw = raw_guid o (o.as_bytes value) value ≡ ok raw
  Holds date_time value raw =
      (m : Moment) × (moment_of o (o.dated value) value ≡ ok m)
      × (signed_value (take 4 raw) ≡ m.days)
      × (le_value (drop 4 raw)
          ≡ o.round_ticks (m.hour * 3600 + m.minute * 60 + m.second) m.microsecond)
  Holds (var_binary size) value raw =
      (given : Bytes) × (o.bytes value ≡ ok given) × (raw ≡ take size given)
  Holds small_int value raw =
      (if o.truth value then o.int value else ok (pos 0)) ≡ ok (signed_value raw)
  Holds (binary size) value raw =
      (given : Bytes) × (o.bytes value ≡ ok given) × (raw ≡ ljust size (take size given))

  -- What the cell of a value holds: none of None and of None only, and else bytes that hold it.
  abbrev pub Carries : ColumnType → o.Object → Option Bytes → Type 0
  Carries kind value none = o.is_none value ≡ true
  Carries kind value (some raw) = (o.is_none value ≡ false) × Holds kind value raw

  -- The cell is read as bytes that hold the value, with the rest behind them.
  abbrev pub ReadsPresent : ColumnType → o.Object → Bytes → Type 0
  ReadsPresent kind value cell =
      (raw : Bytes) × Holds kind value raw
      × ((rest : Bytes) → read_cell (layout_of kind) (cell ++ rest) ≡ some (some raw, rest))

  -- The cell is read as something that carries the value, with the rest behind it.
  abbrev pub Reads : ColumnType → o.Object → Bytes → Type 0
  Reads kind value cell =
      (content : Option Bytes) × Carries kind value content
      × ((rest : Bytes) → read_cell (layout_of kind) (cell ++ rest) ≡ some (content, rest))

  -- A text of a MAX column that its chunks can carry: it is not empty, and 4 GB hold it. A value of
  -- a fixed two-byte int is not None, which that type cannot say.
  abbrev pub IsChunkable : ColumnType → o.Object → Type 0
  IsChunkable (nvarchar none collation) value =
      (0 < length (encode_pass (o.str value))) × (length (encode_pass (o.str value)) < 2 ^ 32)
  IsChunkable small_int value = o.is_none value ≡ false
  IsChunkable _ value = Unit {0}

  -- The same for the values of a row, as many as there are columns.
  abbrev pub RowChunkable : List Column → List o.Object → Type 0
  RowChunkable [] values = Unit {0}
  RowChunkable (c ∷ columns) [] = Unit {0}
  RowChunkable (c ∷ columns) (value ∷ values) =
      IsChunkable c.kind value × RowChunkable columns values

  abbrev pub RowCarries : List Column → List o.Object → List (Option Bytes) → Type 0
  RowCarries [] [] [] = Unit {0}
  RowCarries (c ∷ columns) (value ∷ values) (content ∷ contents) =
      Carries c.kind value content × RowCarries columns values contents
  RowCarries _ _ _ = ⊥
