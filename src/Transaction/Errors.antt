-- ===== src/Transaction/Errors.antt =====
-- What `parse_transaction_request` raises, and which requests have a statement.
use py_sqlbridge.Prelude.{
  ℕ, ◌+◌, ◌%◌, ◌≡◌, arith, inl, inr, [], ◌∷◌, length, ltb, leb, ◌==◌, Bool-cases, not,
}
use py_sqlbridge.Py.Result.{Exc, err, protocol_error, Result-cases, bind-eq-err, raise_if}
use py_sqlbridge.Py.Bytes.{Bytes, le_value, slice, or_raise}
use py_sqlbridge.Py.Bytes.Total.{index_within, or_raise_errors, unpack_le_room}
use py_sqlbridge.Py.Utf16.{decode_utf16}
use py_sqlbridge.Py.Utf16.RoundTrip.{decode_utf16_errors}
use py_sqlbridge.Batch.{skip_all_headers, catch_decode}
use py_sqlbridge.Batch.Laws.{skip_all_headers_errors, catch_decode_errors}
use py_sqlbridge.Transaction.{
  TransactionRequestType, request_type, begin_xact, commit_xact, rollback_xact, save_xact,
  b_varbyte, name_of, name_at, carried_name, parse_transaction_request,
}

b_varbyte_errors : (p : Bytes) (at : ℕ) (e : Exc) → b_varbyte p at ≡ err e → e ≡ protocol_error
unfolding b_varbyte
b_varbyte_errors p at e h = elim (Bool-cases (leb (length p) at)) [
  | inl over ↦ cc (rw over at h)
  | inr before ↦
      let (n, read) = index_within p at (ground arith) in ground (arith, rw (before, read) at h)
]

name_of_errors : (raw : Bytes) (e : Exc) → name_of raw ≡ err e → e ≡ protocol_error
unfolding name_of
name_of_errors [] e h = cc
name_of_errors (b ∷ bs) e h =
    elim (bind-eq-err (raise_if (not (length (b ∷ bs) % 2 == 0)) protocol_error) _ h) [
      | inl odd ↦ ground (arith, odd)
      | inr (_, even, later) ↦ elim (bind-eq-err (catch_decode (decode_utf16 (b ∷ bs))) _ later) [
        | inl bad ↦
            catch_decode_errors (decode_utf16 (b ∷ bs)) e (λ x. decode_utf16_errors (b ∷ bs) x) bad
        | inr (s, good, end) ↦ cc
      ]
    ]

name_at_errors : (p : Bytes) (at : ℕ) (e : Exc) → name_at p at ≡ err e → e ≡ protocol_error
unfolding name_at
name_at_errors p at e h = elim (bind-eq-err (b_varbyte p at) _ h) [
  | inl cut ↦ b_varbyte_errors p at e cut
  | inr ((raw, end), read, later) ↦ name_of_errors raw e later
]

carried_name_errors :
    (kind : TransactionRequestType) (p : Bytes) (at : ℕ) (e : Exc)
    → carried_name kind p at ≡ err e
    → e ≡ protocol_error
unfolding carried_name
carried_name_errors begin_xact p at e h = ground (arith, name_at_errors p (at + 1) e)
carried_name_errors commit_xact p at e h = name_at_errors p at e h
carried_name_errors rollback_xact p at e h = name_at_errors p at e h
carried_name_errors save_xact p at e h = name_at_errors p at e h
carried_name_errors _ p at e h = cc

-- On any payload and version, the only exception that `parse_transaction_request` raises is the
-- protocol's.
pub parse_transaction_request_errors :
    (payload : Bytes) (tds_version : ℕ) (e : Exc)
    → parse_transaction_request payload tds_version ≡ err e
    → e ≡ protocol_error
unfolding parse_transaction_request
parse_transaction_request_errors p v e h = elim (Result-cases (skip_all_headers p v)) [
  | inr (x, failed) ↦ skip_all_headers_errors p v e (cc (rw failed at h))
  | inl (at, skipped) ↦ elim (Bool-cases (ltb (length p) (at + 2))) [
    | inl cut ↦ ground (arith, rw (skipped, cut) at h)
    | inr room ↦
        let read = unpack_le_room 2 p at (ground arith) in
        let raw_type = le_value (slice p at (at + 2)) in
        let h' = rw (skipped, room, read) at h in
        elim (bind-eq-err (or_raise protocol_error (request_type raw_type)) _ h') [
          | inl unknown ↦ or_raise_errors (request_type raw_type) e unknown
          | inr (kind, known, later) ↦ elim (bind-eq-err (carried_name kind p (at + 2)) _ later) [
            | inl bad ↦ carried_name_errors kind p (at + 2) e bad
            | inr (name, good, end) ↦ cc
          ]
        ]
  ]
]
