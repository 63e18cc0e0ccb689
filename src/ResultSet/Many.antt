-- ===== src/ResultSet/Many.antt =====
-- The loop of `_rows` against the row that `row` encodes.
use py_sqlbridge.Prelude.{
  suc, ◌≡◌, refl, sym, ap, ◌∙◌, List, [], ◌∷◌, ◌++◌, map, not, ◌==◌, length, append-nil,
  append_assoc, Bool, true, false,
}
use py_sqlbridge.Py.Result.{Result, ok, err, value_error, ◌>>=◌, ◌>>◌, raise_if}
use py_sqlbridge.Py.Bytes.{Bytes}
use py_sqlbridge.ResultSet.Types.{Objects, encode}
use py_sqlbridge.ResultSet.Rows.{Column, join_all, cells, row_of, put_values, put_rows, rows_of}

-- What is written behind `out`.
abbrev onto : Bytes → Result Bytes → Result Bytes
onto out r = r >>= λ w. ok (out ++ w)

onto-bind :
    (out : Bytes) (r later : Result Bytes) (f : Bytes → Result Bytes)
    → ((w : Bytes) → f w ≡ onto (out ++ w) later)
    → (r >>= f) ≡ onto out (r >>= λ a. later >>= λ l. ok (a ++ l))
onto-bind out (err e) later f k = refl
onto-bind out (ok a) (err e) f k = k a
onto-bind out (ok a) (ok l) f k = k a ∙ ap ok (append_assoc out a l)

length-map : {A B : Type 0} (f : A → B) (xs : List A) → length (map f xs) ≡ length xs
length-map f [] = refl
length-map f (x ∷ xs) = ap suc (length-map f xs)

module _ (o : Objects) where
  abbrev encoders : List Column → List (o.Object → Result Bytes)
  encoders columns = map (λ (c : Column). encode o c.kind) columns

  put_values-cells :
      (columns : List Column) (values : List o.Object) (out : Bytes)
      → put_values o (encoders columns) values out ≡ onto out (cells o columns values)
  unfolding put_values cells
  put_values-cells [] values out = ap ok (sym (append-nil out))
  put_values-cells (c ∷ columns) [] out = ap ok (sym (append-nil out))
  put_values-cells (c ∷ columns) (value ∷ values) out =
      onto-bind out (encode o c.kind value) (cells o columns values) _
        (λ w. put_values-cells columns values (out ++ w))

  -- A row is its values behind the marker, unless their number is wrong.
  put_row :
      (wrong : Bool) (out : Bytes) (values later : Result Bytes) (put : Bytes → Result Bytes)
      → ((w : Bytes) → put w ≡ onto w later)
      → (raise_if wrong value_error >> (onto (out ++ 0xd1 ∷ []) values >>= put))
        ≡ onto out (
            (raise_if wrong value_error >> (values >>= λ e. ok (0xd1 ∷ e))) >>= λ a.
            later >>= λ l. ok (a ++ l))
  put_row true out values later put k = refl
  put_row false out (err e) later put k = refl
  put_row false out (ok v) (err e) put k = k ((out ++ 0xd1 ∷ []) ++ v)
  put_row false out (ok v) (ok l) put k =
      k ((out ++ 0xd1 ∷ []) ++ v)
      ∙ ap ok (append_assoc (out ++ 0xd1 ∷ []) v l ∙ append_assoc out (0xd1 ∷ []) (v ++ l))

  put_rows-join_all :
      (columns : List Column) (rows : List (List o.Object)) (out : Bytes)
      → put_rows o (encoders columns) rows out ≡ onto out (join_all (row_of o columns) rows)
  unfolding put_rows join_all row_of
  put_rows-join_all columns [] out = ap ok (sym (append-nil out))
  put_rows-join_all columns (values ∷ rows) out =
      rw
        (
          length-map (λ (c : Column). encode o c.kind) columns,
          put_values-cells columns values (out ++ 0xd1 ∷ []),
        )
        (put_row (not (length values == length columns)) out (cells o columns values)
          (join_all (row_of o columns) rows) (put_rows o (encoders columns) rows)
          (put_rows-join_all columns rows))

onto_nothing : (r : Result Bytes) → onto [] r ≡ r
onto_nothing (ok w) = refl
onto_nothing (err e) = refl

-- Encoding many rows at once, with the encoders looked up first, is encoding them one by one: the
-- bytes are the same, and where a row is refused or a value cannot be encoded, so is the exception.
pub rows_of-row_of :
    (o : Objects) (columns : List Column) (rows : List (List o.Object))
    → rows_of o columns rows ≡ join_all (row_of o columns) rows
unfolding rows_of
rows_of-row_of o columns rows =
    put_rows-join_all o columns rows [] ∙ onto_nothing (join_all (row_of o columns) rows)
