-- ===== src/ResultSet/Read.antt =====
-- That a client reads a row, and where it loses its place.
use py_sqlbridge.Prelude.{
  ◌≡◌, refl, arith, true, inl, inr, Option, none, some, List, [], ◌∷◌, ◌++◌, map, ◌==◌, length, All,
  append_assoc, Bool-cases, drop-length,
}
use py_sqlbridge.Py.Result.{ok, bind-eq-ok}
use py_sqlbridge.Py.Bytes.{Bytes, pack_le, le_bytes}
use py_sqlbridge.Py.Bytes.Cursor.{unpack_le_here}
use py_sqlbridge.ResultSet.Types.{
  Objects, ColumnType, integer, untyped_null, float, nvarchar, bit, unique_identifier, date_time,
  var_binary, small_int, binary, encode_present, encode_null, encode,
}
use py_sqlbridge.ResultSet.Rows.{Column, cells, row_of}
use py_sqlbridge.Rpc.{plp_null}
use py_sqlbridge.ResultSet.Client.{Layout, byte_count, short_count, chunked, read_cell, read_cells}
use py_sqlbridge.ResultSet.Carried.{
  layout_of, IsSound, IsPacked, Reads, ReadsPresent, IsChunkable, RowChunkable, RowCarries,
}
use py_sqlbridge.ResultSet.Values.{
  integer-Reads, float-Reads, sized-Reads, max-Reads, bit-Reads, guid-Reads, moment-Reads,
  var_binary-Reads, small_int-Reads, binary-Reads,
}

abbrev pub SoundColumns : List Column → Type 0
SoundColumns columns = All (λ (c : Column). IsSound c.kind) columns

abbrev pub layouts_of : List Column → List Layout
layouts_of columns = map (λ (c : Column). layout_of c.kind) columns

read_cells-next :
    (layout : Layout) (layouts : List Layout) (bytes middle rest : Bytes) (content : Option Bytes)
    (contents : List (Option Bytes))
    → read_cell layout bytes ≡ some (content, middle)
    → read_cells layouts middle ≡ some (contents, rest)
    → read_cells (layout ∷ layouts) bytes ≡ some (content ∷ contents, rest)
unfolding read_cells
read_cells-next layout layouts bytes middle rest content contents e f = rw (e, f) refl

module _ (o : Objects) where
  present-Reads :
      (kind : ColumnType) (value : o.Object) (cell : Bytes)
      → IsPacked o
      → IsSound kind
      → IsChunkable o kind value
      → encode_present o kind value ≡ ok cell
      → ReadsPresent o kind value cell
  unfolding encode_present
  present-Reads (integer w) value cell laws sound fits e = integer-Reads o w value cell sound e
  present-Reads (untyped_null w) value cell laws sound fits e = integer-Reads o w value cell sound e
  present-Reads (float w) value cell laws sound fits e = float-Reads o w value cell laws sound e
  present-Reads (nvarchar none c) value cell laws sound fits e =
      max-Reads o c value cell fits.0 fits.1 e
  present-Reads (nvarchar (some n) c) value cell laws sound fits e = sized-Reads o n c value cell e
  present-Reads bit value cell laws sound fits e = bit-Reads o value cell e
  present-Reads unique_identifier value cell laws sound fits e = guid-Reads o value cell laws e
  present-Reads date_time value cell laws sound fits e = moment-Reads o value cell e
  present-Reads (var_binary n) value cell laws sound fits e =
      var_binary-Reads o n value cell sound e
  present-Reads small_int value cell laws sound fits e = small_int-Reads o value cell e
  present-Reads (binary n) value cell laws sound fits e = binary-Reads o n value cell sound e

  byte_null :
      (kind : ColumnType) (value : o.Object) (cell : Bytes)
      → layout_of kind ≡ byte_count
      → o.is_none value ≡ true
      → ok (0 ∷ []) ≡ ok cell
      → Reads o kind value cell
  unfolding read_cell
  byte_null kind value cell l h e =
      let same : cell ≡ 0 ∷ [] = cc in (none, h, λ rest. rw (same, l) refl)

  short_null :
      (kind : ColumnType) (value : o.Object) (cell : Bytes)
      → layout_of kind ≡ short_count
      → o.is_none value ≡ true
      → ok (255 ∷ 255 ∷ []) ≡ ok cell
      → Reads o kind value cell
  unfolding read_cell
  short_null kind value cell l h e =
      let same : cell ≡ 255 ∷ 255 ∷ [] = cc in (none, h, λ rest. rw (same, l) refl)

  max_null_cell :
      (cell rest : Bytes)
      → cell ≡ le_bytes 8 plp_null
      → read_cell chunked (cell ++ rest) ≡ some (none, rest)
  unfolding read_cell le_bytes
  max_null_cell cell rest e =
      let whole = le_bytes 8 plp_null ++ rest in
      rw
        (
          e,
          unpack_le_here 8 whole 0 plp_null rest refl (omega arith) (omega arith),
          drop-length (le_bytes 8 plp_null) rest 8 refl,
        )
        refl

  null-Reads :
      (kind : ColumnType) (value : o.Object) (cell : Bytes)
      → o.is_none value ≡ true
      → IsChunkable o kind value
      → encode_null o kind value ≡ ok cell
      → Reads o kind value cell
  unfolding encode_null pack_le le_bytes
  null-Reads (integer w) value cell h fits e = byte_null (integer w) value cell refl h e
  null-Reads (untyped_null w) value cell h fits e = byte_null (untyped_null w) value cell refl h e
  null-Reads (float w) value cell h fits e = byte_null (float w) value cell refl h e
  null-Reads bit value cell h fits e = byte_null bit value cell refl h e
  null-Reads unique_identifier value cell h fits e = byte_null unique_identifier value cell refl h e
  null-Reads date_time value cell h fits e = byte_null date_time value cell refl h e
  null-Reads small_int value cell h fits e = cc (h, fits)
  null-Reads (nvarchar none c) value cell h fits e = (none, h, λ rest. max_null_cell cell rest (cc))
  null-Reads (nvarchar (some n) c) value cell h fits e =
      short_null (nvarchar (some n) c) value cell refl h e
  null-Reads (var_binary n) value cell h fits e = short_null (var_binary n) value cell refl h e
  null-Reads (binary n) value cell h fits e = short_null (binary n) value cell refl h e

  encode-Reads :
      (kind : ColumnType) (value : o.Object) (cell : Bytes)
      → IsPacked o
      → IsSound kind
      → IsChunkable o kind value
      → encode o kind value ≡ ok cell
      → Reads o kind value cell
  unfolding encode
  encode-Reads kind value cell laws sound fits e = elim (Bool-cases (o.is_none value)) [
    | inl missing ↦ null-Reads kind value cell missing fits (rw missing at e)
    | inr there ↦
        let (raw, holds, reads) = present-Reads kind value cell laws sound fits (rw there at e) in
        (some raw, (there, holds), reads)
  ]

  -- The values of a row are read as what carries them, with the rest behind.
  abbrev pub ReadsRow : List Column → List o.Object → Bytes → Type 0
  ReadsRow columns values body =
      (contents : List (Option Bytes)) × RowCarries o columns values contents
      × ((rest : Bytes) → read_cells (layouts_of columns) (body ++ rest) ≡ some (contents, rest))

  cells-Reads :
      (columns : List Column) (values : List o.Object) (body : Bytes)
      → IsPacked o
      → SoundColumns columns
      → RowChunkable o columns values
      → length values ≡ length columns
      → cells o columns values ≡ ok body
      → ReadsRow columns values body
  unfolding cells read_cells
  cells-Reads [] [] body laws sound fits n e =
      ([], tt, λ rest. (let same : body ≡ [] = cc in rw same refl))
  cells-Reads [] (value ∷ values) body laws sound fits n e = absurd (omega arith)
  cells-Reads (c ∷ columns) [] body laws sound fits n e = absurd (omega arith)
  cells-Reads (c ∷ columns) (value ∷ values) body laws sound fits n e =
      let (first, e1, h1) = bind-eq-ok (encode o c.kind value) _ e in
      let (later, e2, h2) = bind-eq-ok (cells o columns values) _ h1 in
      let (content, carried, reads) = encode-Reads c.kind value first laws sound.0 fits.0 e1 in
      let (contents, others, more) =
        cells-Reads columns values later laws sound.1 fits.1 (omega arith) e2 in
      let shape : body ≡ first ++ later = cc in
      (
        content ∷ contents,
        (carried, others),
        λ rest.
            rw (shape, append_assoc first later rest)
              (read_cells-next (layout_of c.kind) (layouts_of columns) (first ++ (later ++ rest))
                (later ++ rest) rest content contents (reads (later ++ rest)) (more rest)),
      )

  pub row-Reads :
      (columns : List Column) (values : List o.Object) (bytes : Bytes)
      → IsPacked o
      → SoundColumns columns
      → RowChunkable o columns values
      → row_of o columns values ≡ ok bytes
      → (body : Bytes) × (bytes ≡ 0xd1 ∷ body) × ReadsRow columns values body
  unfolding row_of
  row-Reads columns values bytes laws sound fits e =
      elim (Bool-cases (length values == length columns)) [
        | inl same ↦
            let (body, e1, h1) = bind-eq-ok (cells o columns values) _ (rw same at e) in
            (body, cc, cells-Reads columns values body laws sound fits (ground arith) e1)
        | inr other ↦ cc (rw other at e)
      ]
