-- ===== src/ResultSet/Answer.antt =====
-- A whole answer: result sets, failed statements, and the DONE behind each of them.
use py_sqlbridge.Prelude.{ℕ, ◌+◌, Option, none, some, List, [], ◌∷◌, ◌++◌, length}
use py_sqlbridge.Py.Result.{Result, ok, ◌>>=◌}
use py_sqlbridge.Py.Bytes.{Bytes}
use py_sqlbridge.Py.Utf16.{Str}
use py_sqlbridge.Token.{Notice, error, done, done_final, done_more, done_error, done_count}
use py_sqlbridge.ResultSet.Types.{Objects}
use py_sqlbridge.ResultSet.Rows.{Column, col_metadata_of, rows_of}

abbrev pub select_command : ℕ
select_command = 0x00c1

-- One error of a `QueryError`.
pub record QueryFailure : Type 0 where
  pub number : ℕ
  pub message : Str
  pub severity : ℕ
  pub state : ℕ

-- The notice that `error` is called with: no procedure, and the first line.
abbrev pub failure_notice : QueryFailure → Str → Notice
failure_notice e server = record {
  number = e.number;
  message = e.message;
  state = e.state;
  severity = e.severity;
  server = server;
  procedure = [];
  line = 1;
}

module _ (o : Objects) where
  -- One of the answers of a batch.
  pub record Read : Type 0 where
    pub columns : List Column
    pub rows : List (List o.Object)
    pub failure : Option QueryFailure

  -- `QueryResult`. Of the results that follow it, the encoding takes columns, rows and error.
  pub record QueryResult : Type 0 where
    pub opening : Read
    pub following : List Read

  -- The shape that a failed read had declared.
  abbrev pub declared_shape : ℕ → List Column → Result Bytes
  declared_shape tds_version [] = ok []
  declared_shape tds_version (c ∷ columns) = col_metadata_of tds_version (c ∷ columns)

  -- The rounds of the loop of `result_set`.
  unfoldable pub failed_answer : ℕ → Str → ℕ → List Column → QueryFailure → Result Bytes
  failed_answer tds_version server more columns e = do
    shape ← declared_shape tds_version columns
    failure ← error (failure_notice e server) tds_version
    closing ← done (done_error + more) 0 0 tds_version
    ok (shape ++ (failure ++ closing))

  unfoldable pub read_answer : ℕ → ℕ → List Column → List (List o.Object) → Result Bytes
  read_answer tds_version more [] rows = done more 0 0 tds_version
  read_answer tds_version more (c ∷ columns) rows = do
    shape ← col_metadata_of tds_version (c ∷ columns)
    written ← rows_of o (c ∷ columns) rows
    closing ← done (done_count + more) select_command (length rows) tds_version
    ok (shape ++ (written ++ closing))

  unfoldable pub one_answer : ℕ → Str → ℕ → Read → Result Bytes
  one_answer tds_version server more a = elim a.failure [
    | none ↦ read_answer tds_version more a.columns a.rows
    | some e ↦ failed_answer tds_version server more a.columns e
  ]

  -- The answers that follow one another: every DONE but the last says that more is coming.
  unfoldable pub all_answers : ℕ → Str → Read → List Read → Result Bytes
  all_answers tds_version server a [] = one_answer tds_version server done_final a
  all_answers tds_version server a (b ∷ following) = do
    first ← one_answer tds_version server done_more a
    later ← all_answers tds_version server b following
    ok (first ++ later)

  -- `result_set`, as `QueryResult.encode` calls it.
  unfoldable pub result_set : QueryResult → ℕ → Str → Result Bytes
  result_set q tds_version server = all_answers tds_version server q.opening q.following
