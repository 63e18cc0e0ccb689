-- ===== src/ResultSet/Client.antt =====
-- How a client reads what result.py writes: by the layout that a column's type declares.
use py_sqlbridge.Prelude.{
  ℕ, zero, suc, ◌+◌, ◌*◌, Bool, ◌||◌, Option, none, some, List, [], ◌∷◌, leb, ◌==◌, length, take,
  drop, if◌then◌else◌,
}
use py_sqlbridge.Py.Result.{Result, ok, err, protocol_error, ◌>>=◌}
use py_sqlbridge.Py.Bytes.{Bytes, unpack_le, or_raise, le_value}
use py_sqlbridge.Versions.{tds_72}
use py_sqlbridge.Rpc.{plp_null, read_plp}

-- How many bytes a value takes: a fixed number, as many as one byte or two say, or chunks.
pub data Layout : Type 0 where
  fixed : ℕ → Layout
  byte_count : Layout
  short_count : Layout
  chunked : Layout

-- The types whose length is one byte.
abbrev is_counted : ℕ → Bool
is_counted t = t == 0x26 || (t == 0x6d || (t == 0x68 || (t == 0x24 || t == 0x6f)))

-- A declared size, and `skip` bytes of collation behind it.
abbrev pub read_size : ℕ → Bytes → Option (Layout × Bytes)
read_size skip (low ∷ high ∷ rest) =
    if leb skip (length rest)
    then some ((if low + 256 * high == 0xffff then chunked else short_count), drop skip rest)
    else none
read_size skip _ = none

abbrev pub read_width : Bytes → Option (Layout × Bytes)
read_width [] = none
read_width (width ∷ rest) = some (byte_count, rest)

unfoldable pub read_layout : Bytes → Option (Layout × Bytes)
read_layout [] = none
read_layout (t ∷ rest) =
    if t == 0x34
    then some (fixed 2, rest)
    else if is_counted t
    then read_width rest
    else if t == 0xe7
    then read_size 5 rest
    else if t == 0xa5 || t == 0xad
    then read_size 0 rest
    else none

-- The bytes of a value, none for NULL, and what lies behind them.
abbrev pub read_content : ℕ → Bytes → Option (Option Bytes × Bytes)
read_content n bytes =
    if leb n (length bytes) then some (some (take n bytes), drop n bytes) else none

abbrev pub content_of : Bytes → Result (Bytes × ℕ) → Option (Option Bytes × Bytes)
content_of bytes (err e) = none
content_of bytes (ok (content, at)) = some (some content, drop at bytes)

abbrev pub read_chunked : Bytes → Result ℕ → Option (Option Bytes × Bytes)
read_chunked bytes (err e) = none
read_chunked bytes (ok total) =
    if total == plp_null then some (none, drop 8 bytes) else content_of bytes (read_plp bytes 0)

unfoldable pub read_cell : Layout → Bytes → Option (Option Bytes × Bytes)
read_cell (fixed n) bytes = read_content n bytes
read_cell byte_count [] = none
read_cell byte_count (n ∷ rest) = if n == 0 then some (none, rest) else read_content n rest
read_cell short_count (low ∷ high ∷ rest) =
    if low + 256 * high == 0xffff then some (none, rest) else read_content (low + 256 * high) rest
read_cell short_count _ = none
read_cell chunked bytes = read_chunked bytes (unpack_le 8 bytes 0)

-- The values of a row, one behind the other.
abbrev pub add_cell :
    Option Bytes → Option (List (Option Bytes) × Bytes) → Option (List (Option Bytes) × Bytes)
add_cell content none = none
add_cell content (some (contents, rest)) = some (content ∷ contents, rest)

abbrev more_cells :
    (Bytes → Option (List (Option Bytes) × Bytes))
    → Option (Option Bytes × Bytes)
    → Option (List (Option Bytes) × Bytes)
more_cells next none = none
more_cells next (some (content, rest)) = add_cell content (next rest)

unfoldable pub read_cells : List Layout → Bytes → Option (List (Option Bytes) × Bytes)
read_cells [] bytes = some ([], bytes)
read_cells (layout ∷ layouts) bytes =
    more_cells (λ rest. read_cells layouts rest) (read_cell layout bytes)

-- One column as COLMETADATA describes it: the name is its bytes.
pub record Entry : Type 0 where
  pub user_type : ℕ
  pub flags : ℕ
  pub layout : Layout
  pub name : Bytes

-- The next `n` bytes, and those behind.
abbrev pub split_at : ℕ → Bytes → Result (Bytes × Bytes)
split_at n bytes =
    if leb n (length bytes) then ok (take n bytes, drop n bytes) else err protocol_error

abbrev pub read_name : Bytes → Result (Bytes × Bytes)
read_name [] = err protocol_error
read_name (count ∷ rest) = split_at (2 * count) rest

unfoldable pub read_column : ℕ → Bytes → Result (Entry × Bytes)
read_column tds_version bytes = do
  (user_type, rest) ← split_at (if leb tds_72 tds_version then 4 else 2) bytes
  (flags, rest) ← split_at 2 rest
  (layout, rest) ← or_raise protocol_error (read_layout rest)
  (name, rest) ← read_name rest
  ok (
    record { user_type = le_value user_type; flags = le_value flags; layout = layout; name = name },
    rest,
  )

unfoldable pub read_columns : ℕ → ℕ → Bytes → Result (List Entry × Bytes)
read_columns zero tds_version bytes = ok ([], bytes)
read_columns (suc n) tds_version bytes = do
  (entry, rest) ← read_column tds_version bytes
  (entries, rest) ← read_columns n tds_version rest
  ok (entry ∷ entries, rest)
