-- ===== src/ResultSet/Tokens.antt =====
-- That a client reads each token of an answer as what it was written of.
use py_sqlbridge.Prelude.{
  ℕ, ◌*◌, ◌≡◌, refl, sym, ap, arith, Option, List, [], ◌∷◌, ◌++◌, map, length, All, append_assoc,
}
use py_sqlbridge.Py.Result.{ok, bind-eq-ok}
use py_sqlbridge.Py.Bytes.{Bytes, le_bytes, le_value, pack_le, byte}
use py_sqlbridge.Py.Bytes.Fields.{byte-eq-ok, le_value_one, pack_le_fits}
use py_sqlbridge.Py.Utf16.{encode_utf16}
use py_sqlbridge.Py.Utf16.Sizes.{astral, length-encode_utf16}
use py_sqlbridge.Token.{
  b_varchar, us_varchar, line_width, Notice, count_width, message_body, error, error_token, done,
}
use py_sqlbridge.Token.Walk.{frame_token-eq-ok}
use py_sqlbridge.ResultSet.Types.{Objects}
use py_sqlbridge.ResultSet.Rows.{Column, metadata, join_all, row_of, rows_of, col_metadata_of}
use py_sqlbridge.ResultSet.Many.{rows_of-row_of}
use py_sqlbridge.ResultSet.Client.{Layout, split_at}
use py_sqlbridge.ResultSet.Carried.{layout_of, IsPacked, RowCarries, RowChunkable}
use py_sqlbridge.ResultSet.Read.{SoundColumns, layouts_of, row-Reads}
use py_sqlbridge.ResultSet.Shape.{entry_of, IsDeclarable, split_here, field-Read, columns-Read}
use py_sqlbridge.ResultSet.Items.{
  shape, values, closing, failure, read_said, next_item, layouts_in, Runs, Shows, Runs-nothing,
  Runs-one, Runs-append,
}

pub layouts_in-entry_of :
    (columns : List Column) → layouts_in (map entry_of columns) ≡ layouts_of columns
layouts_in-entry_of [] = refl
layouts_in-entry_of (c ∷ columns) = ap (λ t. layout_of c.kind ∷ t) (layouts_in-entry_of columns)

pub IsDeclarable-SoundColumns :
    (columns : List Column) → All IsDeclarable columns → SoundColumns columns
IsDeclarable-SoundColumns [] h = tt
IsDeclarable-SoundColumns (c ∷ columns) h = (h.0.sound, IsDeclarable-SoundColumns columns h.1)

ok-eq : (a b : Bytes) → ok a ≡ ok b → a ≡ b
ok-eq a b h = cc

byte-Read :
    (n : ℕ) (field rest : Bytes)
    → byte n ≡ ok field
    → (split_at 1 (field ++ rest) ≡ ok (field, rest)) × (le_value field ≡ n)
byte-Read n field rest e = rw (byte-eq-ok n e).1 (split_here 1 (n ∷ []) rest refl, le_value_one n)

-- The fields of an ERROR, one behind the other.
said_fields :
    (n : Notice) (number state severity count said message behind body : Bytes)
    → astral n.message ≡ 0
    → pack_le 4 n.number ≡ ok number
    → byte n.state ≡ ok state
    → byte n.severity ≡ ok severity
    → pack_le 2 (length n.message) ≡ ok count
    → encode_utf16 n.message ≡ ok said
    → message ≡ count ++ said
    → body ≡ number ++ (state ++ (severity ++ (message ++ behind)))
    → read_said body ≡ ok (failure n.number n.state n.severity said)
said_fields n number state severity count said message behind body plain p1 p2 p3 q2 q1 text same =
    let (r1, n1) = field-Read 4 n.number number (state ++ (severity ++ (message ++ behind))) p1 in
    let (r2, n2) = byte-Read n.state state (severity ++ (message ++ behind)) p2 in
    let (r3, n3) = byte-Read n.severity severity (message ++ behind) p3 in
    let (r4, n4) = field-Read 2 (length n.message) count (said ++ behind) q2 in
    let wide : length n.message * 2 ≡ length said =
      omega (arith, plain, length-encode_utf16 n.message said q1) in
    let r5 = split_here (length n.message * 2) said behind wide in
    rw (same, r1, n1, r2, n2, r3, n3, text, append_assoc count said behind, r4, n4, r5) refl

module _ (v : ℕ) where
  pub col_metadata_of-Shows :
      (l : List Layout) (columns : List Column) (token : Bytes)
      → All IsDeclarable columns
      → col_metadata_of v columns ≡ ok token
      → Shows v l token (shape (map entry_of columns))
  unfolding col_metadata_of next_item
  col_metadata_of-Shows l columns token h e rest =
      let (count, p1, e1) = bind-eq-ok (pack_le 2 (length columns)) _ e in
      let (entries, p2, e2) = bind-eq-ok (join_all (metadata v) columns) _ e1 in
      let same : token ≡ 0x81 ∷ (count ++ entries) = cc in
      let (r, n) = field-Read 2 (length columns) count (entries ++ rest) p1 in
      rw (same, append_assoc count entries rest, r, n, columns-Read v columns entries rest h p2)
        refl

  pub done-Shows :
      (l : List Layout) (status command count : ℕ) (token : Bytes)
      → done status command count v ≡ ok token
      → Shows v l token (closing status command count)
  unfolding done next_item
  done-Shows l status command count token e rest =
      let (a, p1, e1) = bind-eq-ok (pack_le 2 status) _ e in
      let (b, p2, e2) = bind-eq-ok (pack_le 2 command) _ e1 in
      let (c, p3, e3) = bind-eq-ok (pack_le (count_width v) count) _ e2 in
      let same : token ≡ 0xfd ∷ (a ++ (b ++ c)) = cc in
      let (r1, n1) = field-Read 2 status a (b ++ (c ++ rest)) p1 in
      let (r2, n2) = field-Read 2 command b (c ++ rest) p2 in
      let (r3, n3) = field-Read (count_width v) count c rest p3 in
      rw (same, append_assoc a (b ++ c) rest, append_assoc b c rest, r1, r2, r3, n1, n2, n3) refl

  said-Read :
      (n : Notice) (body : Bytes)
      → astral n.message ≡ 0
      → message_body n v ≡ ok body
      → (said : Bytes) × (encode_utf16 n.message ≡ ok said)
        × (read_said body ≡ ok (failure n.number n.state n.severity said))
  unfolding message_body us_varchar
  said-Read n body plain e =
      let (number, p1, e1) = bind-eq-ok (pack_le 4 n.number) _ e in
      let (state, p2, e2) = bind-eq-ok (byte n.state) _ e1 in
      let (severity, p3, e3) = bind-eq-ok (byte n.severity) _ e2 in
      let (message, p4, e4) = bind-eq-ok (us_varchar n.message) _ e3 in
      let (server, p5, e5) = bind-eq-ok (b_varchar n.server) _ e4 in
      let (procedure, p6, e6) = bind-eq-ok (b_varchar n.procedure) _ e5 in
      let (line, p7, e7) = bind-eq-ok (pack_le (line_width v) n.line) _ e6 in
      let (said, q1, f1) = bind-eq-ok (encode_utf16 n.message) _ p4 in
      let (count, q2, f2) = bind-eq-ok (pack_le 2 (length n.message)) _ f1 in
      (
        said,
        q1,
        said_fields n number state severity count said message (server ++ (procedure ++ line)) body
            plain p1 p2 p3 q2 q1 (sym (ok-eq _ _ f2)) (sym (ok-eq _ _ e7)),
      )

  pub error-Shows :
      (n : Notice) (token : Bytes)
      → astral n.message ≡ 0
      → error n v ≡ ok token
      → (said : Bytes) × (encode_utf16 n.message ≡ ok said)
        × ((l : List Layout) → Shows v l token (failure n.number n.state n.severity said))
  unfolding error next_item
  error-Shows n token plain e =
      let (body, p1, e1) = bind-eq-ok (message_body n v) _ e in
      let (said, encoded, read) = said-Read n body plain p1 in
      let (small, same) = frame_token-eq-ok error_token body token e1 in
      (
        said,
        encoded,
        λ l rest.
            let size = le_bytes 2 (length body) in
            let (r1, n1) =
              field-Read 2 (length body) size (body ++ rest) (pack_le_fits 2 (length body) small) in
            let r2 = split_here (length body) body rest refl in
            rw (same, append_assoc size body rest, r1, n1, r2, read) refl,
      )

module _ (o : Objects) where
  -- The values of many rows.
  abbrev pub RowsCarry : List Column → List (List o.Object) → List (List (Option Bytes)) → Type 0
  RowsCarry columns [] [] = Unit {0}
  RowsCarry columns (row ∷ rows) (contents ∷ more) =
      RowCarries o columns row contents × RowsCarry columns rows more
  RowsCarry columns _ _ = ⊥

  row-Shows :
      (v : ℕ) (columns : List Column) (row : List o.Object) (token : Bytes)
      → IsPacked o
      → SoundColumns columns
      → RowChunkable o columns row
      → row_of o columns row ≡ ok token
      → (contents : List (Option Bytes)) × RowCarries o columns row contents
        × Shows v (layouts_of columns) token (values contents)
  unfolding next_item
  row-Shows v columns row token laws sound fits e =
      let (body, marked, (contents, carried, reads)) =
        row-Reads o columns row token laws sound fits e in
      (contents, carried, λ rest. rw (marked, reads rest) refl)

  rows-Runs :
      (v : ℕ) (columns : List Column) (rows : List (List o.Object)) (token : Bytes)
      → IsPacked o
      → SoundColumns columns
      → All (RowChunkable o columns) rows
      → join_all (row_of o columns) rows ≡ ok token
      → (contents : List (List (Option Bytes))) × RowsCarry columns rows contents
        × Runs v (layouts_of columns) token (map values contents) (layouts_of columns)
  unfolding join_all
  rows-Runs v columns [] token laws sound fits e =
      ([], tt, (let same : token ≡ [] = cc in rw same (Runs-nothing v (layouts_of columns))))
  rows-Runs v columns (row ∷ rows) token laws sound fits e =
      let l = layouts_of columns in
      let (first, e1, h1) = bind-eq-ok (row_of o columns row) _ e in
      let (later, e2, h2) = bind-eq-ok (join_all (row_of o columns) rows) _ h1 in
      let (contents, carried, shows) = row-Shows v columns row first laws sound fits.0 e1 in
      let (more, others, runs) = rows-Runs v columns rows later laws sound fits.1 e2 in
      let same : token ≡ first ++ later = cc in
      let one = Runs-one v l first (values contents) refl shows in
      (
        contents ∷ more,
        (carried, others),
        rw same (Runs-append v l l l first later (values contents ∷ []) (map values more) one runs),
      )

  pub rows_of-Runs :
      (v : ℕ) (columns : List Column) (rows : List (List o.Object)) (token : Bytes)
      → IsPacked o
      → SoundColumns columns
      → All (RowChunkable o columns) rows
      → rows_of o columns rows ≡ ok token
      → (contents : List (List (Option Bytes))) × RowsCarry columns rows contents
        × Runs v (layouts_of columns) token (map values contents) (layouts_of columns)
  rows_of-Runs v columns rows token laws sound fits e =
      rows-Runs v columns rows token laws sound fits (rw (rows_of-row_of o columns rows) at e)
