-- ===== src/ResultSet/Whole.antt =====
-- That a client reads a whole answer, and no further than its last DONE.
use py_sqlbridge.Prelude.{ℕ, ◌+◌, ◌≡◌, Option, none, some, List, [], ◌∷◌, ◌++◌, map, length, All}
use py_sqlbridge.Py.Result.{ok}
use py_sqlbridge.Py.Bytes.{Bytes}
use py_sqlbridge.Py.Utf16.{encode_utf16}
use py_sqlbridge.Py.Utf16.Sizes.{astral}
use py_sqlbridge.ResultSet.Types.{Objects}
use py_sqlbridge.ResultSet.Rows.{Column}
use py_sqlbridge.ResultSet.Answer.{QueryFailure, Read}
use py_sqlbridge.ResultSet.Carried.{RowChunkable}
use py_sqlbridge.ResultSet.Shape.{entry_of, IsDeclarable}
use py_sqlbridge.ResultSet.Items.{Item, shape, values, closing}
use py_sqlbridge.ResultSet.Tokens.{RowsCarry}

module _ (o : Objects) where
  -- A failure whose message is of the basic plane.
  abbrev pub IsPlain : Option QueryFailure → Type 0
  IsPlain none = Unit {0}
  IsPlain (some e) = astral e.message ≡ 0

  -- What a client can be sent: columns that can be declared, values that can be carried, and a
  -- message whose characters are counted as they are written.
  pub record IsSendable (a : Read o) : Type 0 where
    pub declarable : All IsDeclarable a.columns
    pub chunkable : All (RowChunkable o a.columns) a.rows
    pub plain : IsPlain a.failure

  -- The shape of the columns, if there are any.
  abbrev pub shape_items : List Column → List Item
  shape_items [] = []
  shape_items (c ∷ columns) = shape (map entry_of (c ∷ columns)) ∷ []

  -- The tokens in front of the DONE.
  abbrev pub Body : List Column → List (List o.Object) → Option QueryFailure → List Item → Type 0
  Body columns rows (some e) items =
      (said : Bytes) × (encode_utf16 e.message ≡ ok said)
      × (items ≡ shape_items columns ++ Item.failure e.number e.state e.severity said ∷ [])
  Body [] rows none items = items ≡ []
  Body (c ∷ columns) rows none items =
      (contents : List (List (Option Bytes))) × RowsCarry o (c ∷ columns) rows contents
      × (items ≡ shape (map entry_of (c ∷ columns)) ∷ map values contents)

  -- The DONE: that an error ended the statement, that rows are counted, or neither.
  abbrev pub done_of : ℕ → List Column → List (List o.Object) → Option QueryFailure → Item
  done_of more columns rows (some e) = closing (2 + more) 0 0
  done_of more [] rows none = closing more 0 0
  done_of more (c ∷ columns) rows none = closing (16 + more) 0xc1 (length rows)

  -- One answer, and all of them: MORE is set in the DONE of all but the last.
  abbrev pub Answer : ℕ → Read o → List Item → Type 0
  Answer more a items =
      (body : List Item) × Body a.columns a.rows a.failure body
      × (items ≡ body ++ done_of more a.columns a.rows a.failure ∷ [])

  pub data Answers : Read o → List (Read o) → List Item → Type 0 where
    final : {a : Read o} {items : List Item} → Answer 0 a items → Answers a [] items
    followed :
        {a b : Read o} {following : List (Read o)} {first later : List Item}
        → Answer 1 a first
        → Answers b following later
        → Answers a (b ∷ following) (first ++ later)
