-- ===== src/Batch/Laws.antt =====
-- ALL_HEADERS blocks, and the text behind them.
use py_sqlbridge.Prelude.{
  ℕ, ◌+◌, ◌%◌, ◌^◌, ◌≤◌, ◌<◌, ◌≡◌, refl, arith, inl, inr, ◌++◌, length, length-append, drop,
  drop-length, le→ltb, lt→ltb, ◌==◌, ==_iff, All, append_assoc, Bool-cases,
}
use py_sqlbridge.Py.Result.{Exc, Result, ok, err, protocol_error, decode_error, Result-cases}
use py_sqlbridge.Py.Bytes.{Bytes, le_bytes}
use py_sqlbridge.Py.Bytes.Fields.{length-le_bytes}
use py_sqlbridge.Py.Bytes.Cursor.{unpack_le_here}
use py_sqlbridge.Py.Bytes.Total.{unpack_le_room}
use py_sqlbridge.Py.Utf16.{Str, IsCodePoint, encode_utf16, decode_utf16}
use py_sqlbridge.Py.Utf16.RoundTrip.{decode-encode_utf16, encode_utf16_even, decode_utf16_errors}
use py_sqlbridge.Versions.{all_headers_added_in}
use py_sqlbridge.Batch.{skip_all_headers, catch_decode, parse_sql_batch}

-- An ALL_HEADERS block: its length, and whatever headers it holds.
abbrev pub headers_block : Bytes → Bytes
headers_block extra = le_bytes 4 (4 + length extra) ++ extra

length-headers_block : (extra : Bytes) → length (headers_block extra) ≡ 4 + length extra
length-headers_block extra = omega (
  arith,
  length-append (le_bytes 4 (4 + length extra)) extra,
  length-le_bytes 4 (4 + length extra),
)

-- From TDS 7.2 on, the block that a request opens with is skipped, whatever headers it holds, if
-- its length is below 2^32.
pub skip_all_headers_block :
    (extra rest : Bytes) (tds_version : ℕ)
    → all_headers_added_in ≤ tds_version
    → 4 + length extra < 2 ^ 32
    → skip_all_headers (headers_block extra ++ rest) tds_version ≡ ok (length (headers_block extra))
unfolding skip_all_headers
skip_all_headers_block extra rest v new small =
    let n = 4 + length extra in
    let size = length-append (headers_block extra) rest in
    let wide = length-headers_block extra in
    rw (
      le→ltb v all_headers_added_in new,
      le→ltb (length (headers_block extra ++ rest)) 4 (omega arith),
      unpack_le_here 4 (headers_block extra ++ rest) 0 n (extra ++ rest)
          (append_assoc (le_bytes 4 n) extra rest) small (omega arith),
      le→ltb n 4 (omega arith),
      le→ltb (length (headers_block extra ++ rest)) n (omega arith),
      wide,
    )

skip_all_headers_old :
    (payload : Bytes) (tds_version : ℕ)
    → tds_version < all_headers_added_in
    → skip_all_headers payload tds_version ≡ ok 0
unfolding skip_all_headers
skip_all_headers_old payload v old = rw (lt→ltb v all_headers_added_in old)

pub skip_all_headers_errors :
    (payload : Bytes) (tds_version : ℕ) (e : Exc)
    → skip_all_headers payload tds_version ≡ err e
    → e ≡ protocol_error
unfolding skip_all_headers
skip_all_headers_errors p v e h = ground (arith, unpack_le_room 4 p 0)

skip_all_headers_inside :
    (payload : Bytes) (tds_version n : ℕ)
    → skip_all_headers payload tds_version ≡ ok n
    → n ≤ length payload
unfolding skip_all_headers
skip_all_headers_inside p v n h = ground (arith, unpack_le_room 4 p 0)

-- Whatever the payload declares, the offset that is returned lies within it, and the protocol's
-- exception is the only one that is raised.
pub skip_all_headers_within :
    (payload : Bytes) (tds_version : ℕ)
    → ((n : ℕ) → skip_all_headers payload tds_version ≡ ok n → n ≤ length payload)
      × ((e : Exc) → skip_all_headers payload tds_version ≡ err e → e ≡ protocol_error)
skip_all_headers_within p v =
    (λ n. skip_all_headers_inside p v n, λ e. skip_all_headers_errors p v e)

text_decoded :
    (payload text : Bytes) (s : Str) (tds_version offset : ℕ)
    → skip_all_headers payload tds_version ≡ ok offset
    → drop offset payload ≡ text
    → All IsCodePoint s
    → encode_utf16 s ≡ ok text
    → parse_sql_batch payload tds_version ≡ ok s
unfolding parse_sql_batch
text_decoded payload text s v offset skipped left points encoded = rw (
  skipped,
  left,
  (==_iff (length text % 2) 0).1 (encode_utf16_even s text encoded),
  decode-encode_utf16 s text points encoded,
)

-- A query that encodes is read back from its batch: behind any ALL_HEADERS block from TDS 7.2 on.
pub parse_sql_batch_text :
    (s : Str) (text extra : Bytes) (tds_version : ℕ)
    → all_headers_added_in ≤ tds_version
    → 4 + length extra < 2 ^ 32
    → All IsCodePoint s
    → encode_utf16 s ≡ ok text
    → parse_sql_batch (headers_block extra ++ text) tds_version ≡ ok s
parse_sql_batch_text s text extra v new small points encoded =
    text_decoded (headers_block extra ++ text) text s v (length (headers_block extra))
      (skip_all_headers_block extra text v new small)
      (drop-length (headers_block extra) text _ refl) points encoded

-- Before TDS 7.2, a query that encodes is read back from its batch, which has nothing in front of
-- the text.
pub parse_sql_batch_old :
    (s : Str) (text : Bytes) (tds_version : ℕ)
    → tds_version < all_headers_added_in
    → All IsCodePoint s
    → encode_utf16 s ≡ ok text
    → parse_sql_batch text tds_version ≡ ok s
parse_sql_batch_old s text v old points encoded =
    text_decoded text text s v 0 (skip_all_headers_old text v old) refl points encoded

pub catch_decode_errors :
    {A : Type 0} (r : Result A) (e : Exc)
    → ((x : Exc) → r ≡ err x → x ≡ decode_error)
    → catch_decode r ≡ err e
    → e ≡ protocol_error
catch_decode_errors (ok a) e h k = cc
catch_decode_errors (err x) e h k = let same = h x refl in cc (rw same at k)

-- On any payload and version, the only exception that `parse_sql_batch` raises is the protocol's.
pub parse_sql_batch_errors :
    (payload : Bytes) (tds_version : ℕ) (e : Exc)
    → parse_sql_batch payload tds_version ≡ err e
    → e ≡ protocol_error
unfolding parse_sql_batch
parse_sql_batch_errors p v e h = elim (Result-cases (skip_all_headers p v)) [
  | inr (x, failed) ↦ skip_all_headers_errors p v e (cc (rw failed at h))
  | inl (offset, skipped) ↦ elim (Bool-cases (length (drop offset p) % 2 == 0)) [
    | inr odd ↦ cc (rw (skipped, odd) at h)
    | inl even ↦
        catch_decode_errors (decode_utf16 (drop offset p)) e
          (λ x. decode_utf16_errors (drop offset p) x) (rw (skipped, even) at h)
  ]
]
