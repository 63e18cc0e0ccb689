-- ===== src/Transaction/RoundTrip.antt =====
-- Transaction requests as the protocol lays them out.
use py_sqlbridge.Prelude.{
  ℕ, ◌+◌, ◌%◌, ◌^◌, ◌≤◌, ◌<◌, ◌≡◌, refl, ap, arith, some, [], ◌∷◌, ◌++◌, length, length-append,
  length-drop, drop, drop-length, le→ltb, lt→ltb, lt→leb, ==_iff, All,
}
use py_sqlbridge.Py.Result.{ok}
use py_sqlbridge.Py.Bytes.{Bytes, le_bytes}
use py_sqlbridge.Py.Bytes.Fields.{length-le_bytes}
use py_sqlbridge.Py.Bytes.Cursor.{advance, slice_here, index_here, unpack_le_here, past_le}
use py_sqlbridge.Py.Utf16.{Str, IsCodePoint, encode_utf16}
use py_sqlbridge.Py.Utf16.RoundTrip.{decode-encode_utf16, encode_utf16_even}
use py_sqlbridge.Versions.{all_headers_added_in}
use py_sqlbridge.Batch.Laws.{headers_block, skip_all_headers_block}
use py_sqlbridge.Transaction.{
  TransactionRequestType, begin_xact, commit_xact, rollback_xact, save_xact, type_number,
  request_type, b_varbyte, name_of, name_at, carried_name, parse_transaction_request,
}

type_number-lt : (k : TransactionRequestType) → type_number k < 256 ^ 2
type_number-lt k = ground arith

request_type-type_number : (k : TransactionRequestType) → request_type (type_number k) ≡ some k
request_type-type_number k = ground arith

-- A name as it travels: the length of its bytes, then the bytes. No name is no bytes.
abbrev pub name_field : Bytes → Bytes
name_field raw = length raw ∷ raw

name_of_text :
    (s : Str) (raw : Bytes)
    → All IsCodePoint s
    → encode_utf16 s ≡ ok raw
    → 0 < length raw
    → name_of raw ≡ ok (some s)
unfolding name_of
name_of_text s [] points encoded pos = absurd (omega arith)
name_of_text s (b ∷ bs) points encoded pos = rw (
  (==_iff (length (b ∷ bs) % 2) 0).1 (encode_utf16_even s (b ∷ bs) encoded),
  decode-encode_utf16 s (b ∷ bs) points encoded,
)

module _ (s : Str) (raw : Bytes) (points : All IsCodePoint s) (encoded : encode_utf16 s ≡ ok raw)
    (pos : 0 < length raw) (p rest : Bytes) (at : ℕ)
    (here : drop at p ≡ name_field raw ++ rest) where
  name_at_here : name_at p at ≡ ok (some s)
  unfolding name_at b_varbyte
  name_at_here =
      let size = length raw in
      let room : at + 1 + size ≤ length p =
        omega (arith, ap length here, length-append raw rest, length-drop at p) in
      let text_at : drop (at + 1) p ≡ raw ++ rest =
        advance p at (size ∷ []) (raw ++ rest) here (at + 1) refl in
      rw (
        lt→leb (length p) at (omega arith),
        index_here p at size (raw ++ rest) here,
        le→ltb (length p) (at + 1 + size) room,
        slice_here p (at + 1) raw rest text_at (at + 1 + size) refl,
        name_of_text s raw points encoded pos,
      )

-- What stands behind the request type in front of the name: the isolation level of a begin.
abbrev front_of : TransactionRequestType → ℕ → Bytes
front_of begin_xact isolation = isolation ∷ []
front_of _ isolation = []

abbrev pub request_bytes : Bytes → TransactionRequestType → ℕ → Bytes → Bytes
request_bytes extra kind isolation body =
    headers_block extra ++ (le_bytes 2 (type_number kind) ++ (front_of kind isolation ++ body))

-- The requests that carry a name.
pub data IsNamed : TransactionRequestType → Type 0 where
  begin : IsNamed begin_xact
  commit : IsNamed commit_xact
  rollback : IsNamed rollback_xact
  save : IsNamed save_xact

carried_here :
    (kind : TransactionRequestType) (isolation : ℕ) (s : Str) (raw p rest : Bytes) (at : ℕ)
    → IsNamed kind
    → All IsCodePoint s
    → encode_utf16 s ≡ ok raw
    → 0 < length raw
    → drop at p ≡ front_of kind isolation ++ (name_field raw ++ rest)
    → carried_name kind p at ≡ ok (some s)
unfolding carried_name
carried_here _ isolation s raw p rest at begin points encoded pos here =
    let room : at < length p = omega (arith, ap length here, length-drop at p) in
    rw (lt→ltb at (length p) room) (
      name_at_here s raw points encoded pos p rest (at + 1)
        (advance p at (isolation ∷ []) (name_field raw ++ rest) here (at + 1) refl))
carried_here _ isolation s raw p rest at commit points encoded pos here =
    name_at_here s raw points encoded pos p rest at here
carried_here _ isolation s raw p rest at rollback points encoded pos here =
    name_at_here s raw points encoded pos p rest at here
carried_here _ isolation s raw p rest at save points encoded pos here =
    name_at_here s raw points encoded pos p rest at here

-- From TDS 7.2 on, a begin, commit, rollback or save request that carries a name of at least one
-- character is read back with its kind and its name, whatever ALL_HEADERS block opens it, whatever
-- isolation level a begin asks for, and whatever flags follow the name.
pub parse_transaction_request_named :
    (kind : TransactionRequestType) (isolation : ℕ) (s : Str) (raw extra flags : Bytes)
    (tds_version : ℕ)
    → IsNamed kind
    → All IsCodePoint s
    → encode_utf16 s ≡ ok raw
    → 0 < length raw
    → all_headers_added_in ≤ tds_version
    → 4 + length extra < 2 ^ 32
    → parse_transaction_request
        (request_bytes extra kind isolation (name_field raw ++ flags))
        tds_version
      ≡ ok (record { kind = kind; name = some s })
unfolding parse_transaction_request
parse_transaction_request_named kind isolation s raw extra flags v named points encoded pos new
      small =
    let body = front_of kind isolation ++ (name_field raw ++ flags) in
    let block = headers_block extra in
    let p = block ++ (le_bytes 2 (type_number kind) ++ body) in
    let at = length block in
    let type_at : drop at p ≡ le_bytes 2 (type_number kind) ++ body = drop-length block _ at refl in
    let name_here : drop (at + 2) p ≡ body =
      past_le 2 p at (type_number kind) (at + 2) body type_at refl in
    let room : at + 2 ≤ length p = omega (
      arith,
      ap length type_at,
      length-append (le_bytes 2 (type_number kind)) body,
      length-le_bytes 2 (type_number kind),
      length-drop at p,
    ) in
    rw (
      skip_all_headers_block extra (le_bytes 2 (type_number kind) ++ body) v new small,
      le→ltb (length p) (at + 2) room,
      unpack_le_here 2 p at (type_number kind) body type_at (type_number-lt kind) (omega arith),
      request_type-type_number kind,
      carried_here kind isolation s raw p flags (at + 2) named points encoded pos name_here,
    )
