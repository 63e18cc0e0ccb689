-- ===== src/Connection/Transactions/Fresh.antt =====
-- The descriptors of a connection's transactions, over any run of requests and resets.
use mathlib.Core.Option
use py_sqlbridge.Prelude.{
  ℕ, ◌+◌, ◌^◌, ◌≤◌, ◌<◌, ◌≡◌, refl, sym, ap, ◌∙◌, arith, Bool, Option, none, some, List, [], ◌∷◌,
  ◌++◌, inl, inr, if◌then◌else◌, ltb, Bool-cases, ltb→lt,
}
use py_sqlbridge.Py.Result.{ok}
use py_sqlbridge.Py.Bytes.{Bytes, le_bytes, le_value}
use py_sqlbridge.Py.Bytes.Fields.{le_value-le_bytes}
use py_sqlbridge.Token.{EnvChangeType, commit_tran, rollback_tran}
use py_sqlbridge.Py.Utf16.{Str}
use py_sqlbridge.Transaction.{
  TransactionRequestType, begin_xact, commit_xact, rollback_xact, TransactionRequest,
}
use py_sqlbridge.Connection.State.{World, Connection, dict_get}
use py_sqlbridge.Connection.Query.{
  new_descriptor, transaction_key, keep_held, reset_the_session, transaction_envchange,
}
use py_sqlbridge.Connection.Transactions.{
  Ledger, close, serve, keeping, transaction_envchange_refines,
}

-- A connection that keeps a ledger, in which the open transaction is one of those begun.
abbrev pub IsBegun : ℕ → Option ℕ → Type 0
IsBegun count none = Unit {0}
IsBegun count (some n) = (1 ≤ n) × (n ≤ count)

pub record Keeps {w : World} (c : Connection w) (l : Ledger) : Type 0 where
  pub counted : c.descriptor_counter ≡ l.count
  pub held : c.xact_descriptor ≡ Option.map (le_bytes 8) l.open_
  pub begun : IsBegun l.count l.open_

-- The descriptor that a request has begun a transaction with.
abbrev pub to_list : Option Bytes → List Bytes
to_list none = []
to_list (some b) = b ∷ []

abbrev pub begun_by : TransactionRequestType → Option Bytes → List Bytes
begun_by begin_xact descriptor = to_list descriptor
begun_by _ descriptor = []

-- Runs of a connection's requests and resets, with what may happen to the rest of it in between,
-- and the descriptors of the transactions that they begin.
pub data Run (w : World) : Connection w → List Bytes → Connection w → Type 0 where
  stop : (c : Connection w) → Run w c [] c
  elsewhere :
      (c d e : Connection w) (bs : List Bytes)
      → d.descriptor_counter ≡ c.descriptor_counter
      → d.xact_descriptor ≡ c.xact_descriptor
      → Run w d bs e
      → Run w c bs e
  reset :
      (c e : Connection w) (keep : Bool) (bs : List Bytes)
      → Run w (reset_the_session w keep c) bs e
      → Run w c bs e
  requested :
      (c d e : Connection w) (request : TransactionRequest) (token : Bytes) (bs : List Bytes)
      → transaction_envchange w request c ≡ (ok token, d)
      → Run w d bs e
      → Run w c (begun_by request.kind d.xact_descriptor ++ bs) e

-- Descriptors whose numbers ascend, from above one to another at most.
abbrev pub Ascending : ℕ → List Bytes → ℕ → Type 0
Ascending low [] high = low ≤ high
Ascending low (b ∷ bs) high = (low < le_value b) × Ascending (le_value b) bs high

close-IsBegun :
    (kind : EnvChangeType) (l : Ledger) (o : Option ℕ)
    → IsBegun l.count o
    → o ≡ l.open_
    → (IsBegun (close kind l o).0.count (close kind l o).0.open_)
      × ((close kind l o).0.count ≡ l.count)
close-IsBegun kind l none h e = (rw⁻¹ e tt, refl)
close-IsBegun kind l (some n) h e = (tt, refl)

module _ {w : World} where
  keeping_same :
      (c : Connection w) (n : ℕ) (o : Option Bytes)
      → c.descriptor_counter ≡ n
      → c.xact_descriptor ≡ o
      → record c { descriptor_counter = n; xact_descriptor = o } ≡ c
  keeping_same c n o e f =
      ap (λ m. record c { descriptor_counter = m; xact_descriptor = o }) (sym e)
      ∙ ap (λ p. record c { xact_descriptor = p }) (sym f)

  keep_held-Keeps :
      (o : Option w.Object) (c : Connection w) (l : Ledger)
      → Keeps c l
      → (m : Ledger) × Keeps (keep_held w o c) m × (m.count ≡ l.count)
  keep_held-Keeps none c l h = (
    record { count = l.count; open_ = none },
    record { counted = h.counted; held = refl; begun = tt },
    refl,
  )
  keep_held-Keeps (some o) c l h = elim (Bool-cases (w.is_none o)) [
    | inl none_ ↦ rw none_ (
      record { count = l.count; open_ = none },
      record { counted = h.counted; held = refl; begun = tt },
      refl,
    )
    | inr held_ ↦ rw held_ (l, record { counted = h.counted; held = h.held; begun = h.begun }, refl)
  ]

  begin_small :
      (name : Option Str) (c d : Connection w) (token : Bytes)
      → transaction_envchange w (record { kind = begin_xact; name = name }) c ≡ (ok token, d)
      → c.descriptor_counter + 1 < 256 ^ 8
  unfolding transaction_envchange new_descriptor
  begin_small name c d token e = elim (Bool-cases (ltb (c.descriptor_counter + 1) (256 ^ 8))) [
    | inl small ↦ ltb→lt _ _ small
    | inr big ↦ cc (ap (λ t. t.0) (rw big at e))
  ]

-- What a request makes of the ledger: the open transaction is still one of those begun, and a
-- transaction that it begins stands behind those.
abbrev Advances : TransactionRequestType → Ledger → Ledger → Type 0
Advances kind l m =
    IsBegun m.count m.open_
    × ((bs : List Bytes) (high : ℕ)
        → Ascending m.count bs high
        → Ascending l.count (begun_by kind (Option.map (le_bytes 8) m.open_) ++ bs) high)

close-Advances :
    (change : EnvChangeType) (kind : TransactionRequestType) (count : ℕ) (o : Option ℕ)
    → ((x : Option Bytes) → begun_by kind x ≡ [])
    → IsBegun count o
    → Advances kind
        (record { count = count; open_ = o })
        (close change (record { count = count; open_ = o }) o).0
close-Advances change kind count none none_ h = (tt, λ bs high a. rw (none_ none) a)
close-Advances change kind count (some n) none_ h = (tt, λ bs high a. rw (none_ none) a)

serve-Advances :
    (kind : TransactionRequestType) (name : Option Str) (l : Ledger)
    → IsBegun l.count l.open_
    → (kind ≡ begin_xact → l.count + 1 < 256 ^ 8)
    → Advances kind l (serve kind name l).0
serve-Advances begin_xact name l h small =
    let back = le_value-le_bytes 8 (l.count + 1) (small refl) in
    ((omega arith, omega arith), λ bs high a. (rw back (omega arith), rw back a))
serve-Advances commit_xact name l h small =
    close-Advances commit_tran commit_xact l.count l.open_ (λ x. refl) h
serve-Advances rollback_xact none l h small =
    close-Advances rollback_tran rollback_xact l.count l.open_ (λ x. refl) h
serve-Advances rollback_xact (some name) l h small = (h, λ bs high a. a)
serve-Advances _ name l h small = (h, λ bs high a. a)

module _ {w : World} where
  requested-Keeps :
      (c d : Connection w) (l : Ledger) (request : TransactionRequest) (token : Bytes)
      → Keeps c l
      → transaction_envchange w request c ≡ (ok token, d)
      → (m : Ledger) × Keeps d m
        × ((bs : List Bytes) (high : ℕ)
            → Ascending m.count bs high
            → Ascending l.count (begun_by request.kind d.xact_descriptor ++ bs) high)
  requested-Keeps c d l request token h e =
      let small : request.kind ≡ begin_xact → l.count + 1 < 256 ^ 8 =
        λ k. rw (h.counted) at (begin_small request.name c d token (rw k at e)) in
      let m = (serve request.kind request.name l).0 in
      let (begun, ascends) = serve-Advances request.kind request.name l h.begun small in
      let (token', told, served) = transaction_envchange_refines c l request small in
      let whole : keeping c l ≡ c =
        keeping_same c l.count (Option.map (le_bytes 8) l.open_) h.counted h.held in
      let out : (ok token, d) ≡ (ok token', keeping c m) =
        sym e ∙ sym (ap (λ x. transaction_envchange w request x) whole) ∙ served in
      let same : d ≡ keeping c m = ap (λ t. t.1) out in
      (m, rw same (record { counted = refl; held = refl; begun = begun }), rw same ascends)

  reset-Keeps :
      (keep : Bool) (c : Connection w) (l : Ledger)
      → Keeps c l
      → (m : Ledger) × Keeps (reset_the_session w keep c) m × (m.count ≡ l.count)
  unfolding reset_the_session
  reset-Keeps keep c l h =
      keep_held-Keeps (if keep then dict_get transaction_key c.session else none) c l h

  Run-Ascending :
      (c e : Connection w) (bs : List Bytes) (l : Ledger)
      → Run w c bs e
      → Keeps c l
      → Ascending l.count bs e.descriptor_counter × ((m : Ledger) × Keeps e m)
  Run-Ascending _ _ _ l (stop c) h = (omega (arith, h.counted), (l, h))
  Run-Ascending _ _ _ l (elsewhere c d e bs n x r) h =
      Run-Ascending d e bs l r
        (record { counted = n ∙ h.counted; held = x ∙ h.held; begun = h.begun })
  Run-Ascending _ _ _ l (reset c e keep bs r) h =
      let (m, kept, same) = reset-Keeps keep c l h in
      rw⁻¹ same (Run-Ascending (reset_the_session w keep c) e bs m r kept)
  Run-Ascending _ _ _ l (requested c d e request token bs s r) h =
      let (m, kept, ascends) = requested-Keeps c d l request token h s in
      let (later, held) = Run-Ascending d e bs m r kept in
      (ascends bs e.descriptor_counter later, held)

-- A connection never hands out a descriptor twice. Over any requests that begin, end or leave
-- transactions, and any resets of the session, the numbers that its descriptors stand for ascend,
-- none of them nought; and the descriptor that it holds, if any, is the eight bytes of a number
-- from 1 to as many as it has begun.
pub transaction_descriptors_ascend :
    {w : World} (c e : Connection w) (bs : List Bytes) (l : Ledger)
    → Keeps c l
    → Run w c bs e
    → Ascending l.count bs e.descriptor_counter × ((m : Ledger) × Keeps e m)
transaction_descriptors_ascend c e bs l h r = Run-Ascending c e bs l r h
