-- ===== src/Connection/Transactions.antt =====
-- What a session promises of its transactions, and that connection.py keeps it.
pub mod Fresh
use mathlib.Core.Option
use py_sqlbridge.Prelude.{
  ℕ, ◌+◌, ◌^◌, ◌≤◌, ◌<◌, ◌≡◌, refl, ap, arith, Bool, true, false, Option, none, some, List, [], ◌∷◌,
  length, lt→ltb, if◌then◌else◌,
}
use py_sqlbridge.Py.Result.{Result, ok, err}
use py_sqlbridge.Py.Bytes.{Bytes, le_bytes}
use py_sqlbridge.Py.Bytes.Fields.{length-le_bytes}
use py_sqlbridge.Py.Utf16.{Str}
use py_sqlbridge.Transaction.{
  TransactionRequestType, get_dtc_address, propagate_xact, begin_xact, promote_xact, commit_xact,
  rollback_xact, save_xact, TransactionRequest,
}
use py_sqlbridge.Token.{
  EnvChangeType, begin_tran, commit_tran, rollback_tran, raw, env_change, env_change_token,
}
use py_sqlbridge.Token.Written.{env_change_total}
use py_sqlbridge.Connection.State.{World, Connection}
use py_sqlbridge.Connection.Query.{
  new_descriptor, transaction_envchange, end_transaction, ending_change,
}

-- What a session keeps: its transactions are numbered from 1 on, and at most one is open.
pub record Ledger : Type 0 where
  pub count : ℕ
  pub open_ : Option ℕ

-- What the client is told of a request.
pub data Change : Type 0 where
  began : ℕ → Change
  ended : EnvChangeType → ℕ → Change
  unchanged : Change

abbrev pub close : EnvChangeType → Ledger → Option ℕ → Ledger × Change
close kind l none = (l, unchanged)
close kind l (some n) = (record l { open_ = none }, ended kind n)

-- A transaction is begun with the next number, also where one is open, which it replaces; a commit or a rollback of the whole ends it. A
-- savepoint, and a rollback to one, change nothing.
abbrev pub serve : TransactionRequestType → Option Str → Ledger → Ledger × Change
serve begin_xact name l =
    (record { count = l.count + 1; open_ = some (l.count + 1) }, began (l.count + 1))
serve commit_xact name l = close commit_tran l l.open_
serve rollback_xact none l = close rollback_tran l l.open_
serve _ name l = (l, unchanged)

-- The token that tells it: a transaction's number is sent as the eight bytes of its descriptor.
abbrev pub announcement : Change → Result Bytes
announcement (began n) = env_change begin_tran (raw (le_bytes 8 n)) (raw [])
announcement (ended kind n) = env_change kind (raw []) (raw (le_bytes 8 n))
announcement unchanged = ok []

announcement_total : (change : Change) → (token : Bytes) × (announcement change ≡ ok token)
announcement_total (began n) =
    let (token, body, e, framed) =
      env_change_total begin_tran (raw (le_bytes 8 n)) (raw []) (omega (arith, length-le_bytes 8 n))
        (omega arith) in
    (token, e)
announcement_total (ended kind n) =
    let (token, body, e, framed) =
      env_change_total kind (raw []) (raw (le_bytes 8 n)) (omega arith)
        (omega (arith, length-le_bytes 8 n)) in
    (token, e)
announcement_total unchanged = ([], refl)

module _ {w : World} where
  -- How a connection keeps the ledger.
  abbrev pub keeping : Connection w → Ledger → Connection w
  keeping c l = record c {
    descriptor_counter = l.count;
    xact_descriptor = Option.map (le_bytes 8) l.open_;
  }

  -- The request is answered with the change's token, and the ledger kept is the one behind it.
  abbrev pub Served : TransactionRequest → Connection w → Ledger × Change → Type 0
  Served request c (l, change) =
      (token : Bytes) × (announcement change ≡ ok token)
      × (transaction_envchange w request c ≡ (ok token, keeping c l))

  begin-Served :
      (name : Option Str) (c : Connection w) (l : Ledger)
      → l.count + 1 < 256 ^ 8
      → Served (record { kind = begin_xact; name = name }) (keeping c l) (serve begin_xact name l)
  unfolding transaction_envchange new_descriptor
  begin-Served name c l small =
      let (token, told) = announcement_total (began (l.count + 1)) in
      (token, told, rw (lt→ltb (l.count + 1) (256 ^ 8) small, told) refl)

  commit-Served :
      (name : Option Str) (c : Connection w) (n : ℕ) (o : Option ℕ)
      → Served
          (record { kind = commit_xact; name = name })
          (keeping c (record { count = n; open_ = o }))
          (close commit_tran (record { count = n; open_ = o }) o)
  unfolding transaction_envchange
  commit-Served name c n none = ([], refl, refl)
  commit-Served name c n (some k) =
      let (token, told) = announcement_total (ended commit_tran k) in (token, told, rw told refl)

  rollback-Served :
      (c : Connection w) (n : ℕ) (o : Option ℕ)
      → Served
          (record { kind = rollback_xact; name = none })
          (keeping c (record { count = n; open_ = o }))
          (close rollback_tran (record { count = n; open_ = o }) o)
  unfolding transaction_envchange
  rollback-Served c n none = ([], refl, refl)
  rollback-Served c n (some k) =
      let (token, told) = announcement_total (ended rollback_tran k) in (token, told, rw told refl)

  request-Served :
      (kind : TransactionRequestType) (name : Option Str) (c : Connection w) (l : Ledger)
      → (kind ≡ begin_xact → l.count + 1 < 256 ^ 8)
      → Served (record { kind = kind; name = name }) (keeping c l) (serve kind name l)
  unfolding transaction_envchange
  request-Served begin_xact name c l small = begin-Served name c l (small refl)
  request-Served commit_xact name c l small = commit-Served name c l.count l.open_
  request-Served rollback_xact none c l small = rollback-Served c l.count l.open_
  request-Served rollback_xact (some name) c l small = ([], refl, refl)
  request-Served _ name c l small = ([], refl, refl)

-- A connection keeps the ledger that a session promises: it holds the number of transactions begun
-- and the open one's descriptor, which is its number in eight bytes. Whatever the request, it is
-- answered with the token of the ledger's change, nothing else of the connection changes, and what
-- it holds is the ledger behind the request. A begin asks that the number has eight bytes. As the
-- code has it, a begin while a transaction is open is announced like any other, and its number
-- replaces that of the open one, which is forgotten.
pub transaction_envchange_refines :
    {w : World} (c : Connection w) (l : Ledger) (request : TransactionRequest)
    → (request.kind ≡ begin_xact → l.count + 1 < 256 ^ 8)
    → Served request (keeping c l) (serve request.kind request.name l)
transaction_envchange_refines c l request small = request-Served request.kind request.name c l small
