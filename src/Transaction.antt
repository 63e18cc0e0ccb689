-- ===== src/Transaction.antt =====
-- src/pysqlbridge/tds/transaction.py: a client's transaction requests, and the statement that
-- src/pysqlbridge/tds/connection.py carries each of them out with.
pub mod RoundTrip
pub mod Errors
mod Tests
use py_sqlbridge.Prelude.{
  ℕ, ◌+◌, ◌%◌, Bool, not, Option, none, some, List, [], ◌∷◌, ◌++◌, leb, ltb, ◌==◌, length,
  if◌then◌else◌,
}
use py_sqlbridge.Py.Result.{Exc, Result, ok, err, protocol_error, ◌>>=◌, ◌>>◌, raise_if}
use py_sqlbridge.Py.Bytes.{Bytes, slice, or_raise, index, unpack_le}
use py_sqlbridge.Py.Utf16.{Str, decode_utf16}
use py_sqlbridge.Py.Text.{text}
use py_sqlbridge.Batch.{skip_all_headers, catch_decode}

pub data TransactionRequestType : Type 0 where
  get_dtc_address propagate_xact begin_xact promote_xact commit_xact rollback_xact save_xact :
      TransactionRequestType

abbrev pub type_number : TransactionRequestType → ℕ
type_number get_dtc_address = 0
type_number propagate_xact = 1
type_number begin_xact = 5
type_number promote_xact = 6
type_number commit_xact = 7
type_number rollback_xact = 8
type_number save_xact = 9

-- `TransactionRequestType(raw)`
abbrev pub request_type : ℕ → Option TransactionRequestType
request_type n =
    if n == 0
    then some get_dtc_address
    else if n == 1
    then some propagate_xact
    else if n == 5
    then some begin_xact
    else if n == 6
    then some promote_xact
    else if n == 7
    then some commit_xact
    else if n == 8
    then some rollback_xact
    else if n == 9
    then some save_xact
    else none

pub record TransactionRequest : Type 0 where
  pub kind : TransactionRequestType
  pub name : Option Str

-- `_b_varbyte`: the bytes, and the offset past them.
b_varbyte : Bytes → ℕ → Result (Bytes × ℕ)
b_varbyte payload offset = do
  raise_if (leb (length payload) offset) protocol_error
  size ← index payload offset
  raise_if (ltb (length payload) (offset + 1 + size)) protocol_error
  ok (slice payload (offset + 1) (offset + 1 + size), offset + 1 + size)

-- `_name`
name_of : Bytes → Result (Option Str)
name_of [] = ok none
name_of (b ∷ bs) = do
  raise_if (not (length (b ∷ bs) % 2 == 0)) protocol_error
  name ← catch_decode (decode_utf16 (b ∷ bs))
  ok (some name)

-- The name at an offset.
name_at : Bytes → ℕ → Result (Option Str)
name_at payload offset = do (raw, _) ← b_varbyte payload offset; name_of raw

-- What the request of each kind carries from `offset` on.
carried_name : TransactionRequestType → Bytes → ℕ → Result (Option Str)
carried_name begin_xact payload offset =
    if ltb offset (length payload) then name_at payload (offset + 1) else ok none
carried_name commit_xact payload offset = name_at payload offset
carried_name rollback_xact payload offset = name_at payload offset
carried_name save_xact payload offset = name_at payload offset
carried_name _ payload offset = ok none

pub parse_transaction_request : Bytes → ℕ → Result TransactionRequest
unfolding carried_name name_at name_of b_varbyte
parse_transaction_request payload tds_version = do
  offset ← skip_all_headers payload tds_version
  raise_if (ltb (length payload) (offset + 2)) protocol_error
  raw_type ← unpack_le 2 payload offset
  kind ← or_raise protocol_error (request_type raw_type)
  name ← carried_name kind payload (offset + 2)
  ok (record { kind = kind; name = name })

-- An f-string writes a name that is `None` as the word.
abbrev name_text : Option Str → Str
name_text none = text "None"
name_text (some name) = name

-- `_transaction_statement` of connection.py.
abbrev statement_of : TransactionRequestType → Option Str → Option Str
statement_of begin_xact none = some (text "BEGIN TRANSACTION")
statement_of begin_xact (some name) = some (text "BEGIN TRANSACTION " ++ name)
statement_of commit_xact name = some (text "COMMIT")
statement_of rollback_xact none = some (text "ROLLBACK")
statement_of rollback_xact (some name) = some (text "ROLLBACK TRANSACTION " ++ name)
statement_of save_xact name = some (text "SAVE TRANSACTION " ++ name_text name)
statement_of _ name = none

pub transaction_statement : TransactionRequest → Option Str
transaction_statement request = statement_of request.kind request.name
