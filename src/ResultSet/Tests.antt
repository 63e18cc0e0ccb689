-- ===== src/ResultSet/Tests.antt =====
-- An answer with two result sets and a failed statement.
use py_sqlbridge.Prelude.{
  ◌*◌, ◌≡◌, refl, arith, Bool, true, false, not, none, some, List, [], ◌∷◌, ◌++◌,
}
use py_sqlbridge.Py.Result.{Result, ok, err, value_error}
use py_sqlbridge.Py.Bytes.{Bytes, le_bytes, pack_le}
use py_sqlbridge.Py.Int.{ℤ, pos, negsuc}
use py_sqlbridge.Py.Utf16.{Str, encode_pass}
use py_sqlbridge.Py.Text.{text}
use py_sqlbridge.Versions.{tds_74}
use py_sqlbridge.Rpc.Chunks.{chunk_bytes}
use py_sqlbridge.ResultSet.Types.{
  Objects, neither, ColumnType, integer, nvarchar, small_int, encode_chunk, encode_present, encode,
}
use py_sqlbridge.ResultSet.Rows.{Column, default_column_flags, join_all, row_of, rows_of}
use py_sqlbridge.ResultSet.Answer.{Read, QueryResult, result_set}
use py_sqlbridge.ResultSet.Client.{chunked, read_cell}
use py_sqlbridge.ResultSet.Many.{rows_of-row_of}
use py_sqlbridge.ResultSet.Empty.{encode_max-empty}

data Some : Type 0 where
  nothing : Some
  number : ℤ → Some
  words : Str → Some

abbrev zeros : Bytes
zeros = 0 ∷ 0 ∷ 0 ∷ 0 ∷ 0 ∷ 0 ∷ 0 ∷ 0 ∷ []

abbrev is_nothing : Some → Bool
is_nothing nothing = true
is_nothing _ = false

abbrev int_of : Some → Result ℤ
int_of (number n) = ok n
int_of _ = err value_error

abbrev str_of : Some → Str
str_of (words s) = s
str_of _ = []

abbrev objects : Objects
objects = record {
  Object = Some;
  Real = Unit {0};
  is_none = is_nothing;
  int = int_of;
  str = str_of;
  truth = λ s. not (is_nothing s);
  bytes = λ s. ok (str_of s);
  as_bytes = λ s. none;
  float = λ s. ok tt;
  pack_double = λ r. ok zeros;
  pack_single = λ r. ok (0 ∷ 0 ∷ 0 ∷ 0 ∷ []);
  guid = λ s. ok (zeros ++ zeros);
  dated = λ s. neither;
  fromisoformat = λ s. err value_error;
  round_ticks = λ seconds micro. seconds * 300;
}

abbrev column : Str → ColumnType → Column
column name kind = record { name = name; kind = kind; flags = default_column_flags; user_type = 0 }

abbrev collation : Bytes
collation = 9 ∷ 4 ∷ 208 ∷ 0 ∷ 52 ∷ []

abbrev two_columns : List Column
two_columns = column (text "id") (integer 4) ∷ column (text "note") (nvarchar none collation) ∷ []

abbrev two_rows : List (List Some)
two_rows =
    (number (negsuc 6) ∷ words (text "seven") ∷ []) ∷ (nothing ∷ words (text "none") ∷ []) ∷ []

abbrev small_read : Read objects
small_read = record {
  columns = column (text "n") small_int ∷ [];
  rows = (number (pos 300) ∷ []) ∷ [];
  failure = none;
}

abbrev failed_read : Read objects
failed_read = record {
  columns = [];
  rows = [];
  failure =
      some (record { number = 8134; message = text "Divide by zero"; severity = 16; state = 1 });
}

abbrev whole : QueryResult objects
whole = record {
  opening = record { columns = two_columns; rows = two_rows; failure = none };
  following = failed_read ∷ small_read ∷ [];
}

abbrev bytes_of : Result Bytes → Bytes
bytes_of (ok bs) = bs
bytes_of (err e) = []

abbrev whole_bytes : Bytes
whole_bytes = bytes_of (result_set objects whole tds_74 (text "host"))

rows_of-row_of_example :
    rows_of objects two_columns two_rows ≡ join_all (row_of objects two_columns) two_rows
rows_of-row_of_example = rows_of-row_of objects two_columns two_rows

empty_encodes : encode objects (nvarchar none collation) (words []) ≡ ok zeros
unfolding encode encode_present encode_chunk encode_pass pack_le le_bytes
empty_encodes = refl

empty_pass : encode_pass [] ≡ []
unfolding encode_pass
empty_pass = refl

encode_max-empty_example :
    read_cell chunked (zeros ++ (chunk_bytes ((65 ∷ 0 ∷ []) ∷ []) ++ (1 ∷ [])))
    ≡ some (some (65 ∷ 0 ∷ []), 1 ∷ [])
encode_max-empty_example =
    encode_max-empty objects collation (words []) zeros (65 ∷ 0 ∷ []) (1 ∷ []) refl empty_pass
      empty_encodes (omega arith, omega arith)
